-- ===== src/Odb/Find.antt =====
-- The walk of `odb_update_node_with_offset` along a hash chain (libdb/db_insert.c): it ends, and it
-- finds the latest node with the key.
use oprofile.Base.{
  ℕ, zero, suc, ◌≤◌, ◌<◌, ◌≡◌, refl, Bool, true, some, arith, ◌==◌, inl, inr, Bool-cases, ==_iff,
  ==_refl,
}
use oprofile.Odb.{Words, node_key, node_next, odb_do_hash, find_node}
use oprofile.Odb.Chain.{latest, in_bucket, IsLinked}

abbrev pub has_key : Words → ℕ → ℕ → Bool
has_key mem key i = node_key mem i == key

module _ {size mask n : ℕ} {mem : Words} (l : IsLinked size mask n mem) (key : ℕ) where
  in_home : (i : ℕ) → has_key mem key i ≡ true → in_bucket mask mem (odb_do_hash mask key) i ≡ true
  in_home i h = rw ((==_iff (node_key mem i) key).0 h) (==_refl (odb_do_hash mask key))

  next_in_home :
      (i : ℕ)
      → in_bucket mask mem (odb_do_hash mask key) i ≡ true
      → 0 < i
      → i < n
      → node_next mem i ≡ latest (in_bucket mask mem (odb_do_hash mask key)) i
  next_in_home i h p b = rw (← (==_iff (odb_do_hash mask (node_key mem i)) _).0 h) (l.nexts i p b)

  abbrev start : ℕ → ℕ
  start k = latest (in_bucket mask mem (odb_do_hash mask key)) k

  abbrev Finds : ℕ → ℕ → Type 0
  Finds k rounds = find_node rounds mem key (start k) ≡ some (latest (has_key mem key) k)

  find_step :
      (k rounds : ℕ)
      → suc k < n
      → Finds (suc k) rounds
      → Finds (suc k) (suc rounds)
      → Finds (suc (suc k)) (suc rounds)
  unfolding find_node latest
  find_step k rounds h deeper past = elim (Bool-cases (has_key mem key (suc k))) [
    | inl t ↦ rw (in_home (suc k) t, t) (ground arith)
    | inr f ↦ rw f (elim (Bool-cases (in_bucket mask mem (odb_do_hash mask key) (suc k))) [
      | inl b ↦ rw (b, f, next_in_home (suc k) b (omega arith) h) (rw deeper (ground arith))
      | inr b ↦ rw b past
    ])
  ]

  -- From the head of the key's bucket, seen from any node on, the walk finds the latest match.
  pub find_node-latest : (k rounds : ℕ) → k ≤ n → k ≤ rounds → 0 < rounds → Finds k rounds
  unfolding find_node latest
  find_node-latest k zero h r pos = absurd (omega arith)
  find_node-latest zero (suc rounds) h r pos = refl
  find_node-latest (suc zero) (suc rounds) h r pos = ground arith
  find_node-latest (suc (suc k)) (suc rounds) h r pos =
      let deeper = find_node-latest (suc k) rounds (omega arith) (omega arith) (omega arith) in
      let past = find_node-latest (suc k) (suc rounds) (omega arith) (omega arith) pos in
      find_step k rounds h deeper past
