-- ===== src/Odb/Stat/Lists.antt =====
-- The walk of the statistics along one list (libdb/db_stat.c).
use oprofile.Base.{
  u64, ℕ, zero, suc, ◌+◌, ◌%◌, ◌≤◌, ◌<◌, ◌≡◌, refl, sym, ap, ◌∙◌, inl, inr, Bool, true, false,
  Bool-cases, some, ◌==◌, ==_iff, if◌then◌else◌, arith,
}
use oprofile.Odb.{Words, OdbData, node_value, node_next}
use oprofile.Odb.Chain.{latest, in_bucket}
use oprofile.Odb.Valid.{IsValid}
use oprofile.Odb.Stat.{list_stat}

-- A function of the nodes below `n` that pass the test, added up; node 0 is unused.
unfoldable pub sum_nodes : (ℕ → ℕ) → (ℕ → Bool) → ℕ → ℕ
sum_nodes f p zero = 0
sum_nodes f p (suc zero) = 0
sum_nodes f p (suc (suc n)) = sum_nodes f p (suc n) + (if p (suc n) then f (suc n) else 0)

abbrev pub one : ℕ → ℕ
one i = 1

module _ (p : ℕ → Bool) where
  latest_none : latest p 0 ≡ 0
  unfolding latest
  latest_none = refl

  latest_first : latest p 1 ≡ 0
  unfolding latest
  latest_first = elim (Bool-cases (p 0)) [ inl y ↦ rw y refl | inr n ↦ rw n refl ]

sum_none : (f : ℕ → ℕ) (p : ℕ → Bool) → sum_nodes f p 0 ≡ 0
unfolding sum_nodes
sum_none f p = refl

sum_first : (f : ℕ → ℕ) (p : ℕ → Bool) → sum_nodes f p 1 ≡ 0
unfolding sum_nodes
sum_first f p = refl

module _ (p : ℕ → Bool) (n : ℕ) where
  latest_hit : p n ≡ true → latest p (suc n) ≡ n
  unfolding latest
  latest_hit h = rw h refl

  latest_miss : p n ≡ false → latest p (suc n) ≡ latest p n
  unfolding latest
  latest_miss h = rw h refl

  sum_hit :
      (f : ℕ → ℕ)
      → p (suc n) ≡ true
      → sum_nodes f p (suc (suc n)) ≡ sum_nodes f p (suc n) + f (suc n)
  unfolding sum_nodes
  sum_hit f h = rw h refl

  sum_miss : (f : ℕ → ℕ) → p (suc n) ≡ false → sum_nodes f p (suc (suc n)) ≡ sum_nodes f p (suc n)
  unfolding sum_nodes
  sum_miss f h = rw h (omega arith)

stat_end :
    (rounds : ℕ) (mem : Words) (total length : ℕ)
    → list_stat rounds mem 0 total length ≡ some (total, length)
unfolding list_stat
stat_end zero mem total length = refl
stat_end (suc rounds) mem total length = refl

stat_step :
    (rounds : ℕ) (mem : Words) (index total length : ℕ)
    → 0 < index
    → list_stat (suc rounds) mem index total length
      ≡ list_stat rounds mem
          (node_next mem index)
          ((total + node_value mem index) % u64)
          (length + 1)
unfolding list_stat
stat_step rounds mem index total length h =
    let ne : (index == 0) ≡ false = ground (arith, h) in rw ne refl

module _ (d : OdbData) (v : IsValid d) where
  unfoldable pub p_of : ℕ → ℕ → Bool
  p_of j = in_bucket d.hash_mask d.mem j

  next_of :
      (j i : ℕ)
      → 0 < i
      → i < d.current_size
      → p_of j i ≡ true
      → node_next d.mem i ≡ latest (p_of j) i
  unfolding p_of
  next_of j i pos b h =
      v.linked.nexts i pos b ∙ ap (λ k. latest (in_bucket d.hash_mask d.mem k) i) ((==_iff _ j).0 h)

  -- The walk from the latest node of a bucket below `n`.
  pub list_stat_lem :
      (rounds j n total length : ℕ)
      → n ≤ d.current_size
      → n ≤ rounds
      → total < u64
      → list_stat rounds d.mem (latest (p_of j) n) total length
        ≡ some (
          (total + sum_nodes (node_value d.mem) (p_of j) n) % u64,
          length + sum_nodes one (p_of j) n,
        )
  list_stat_lem rounds j zero total length le fuel small =
      let t : total ≡ (total + sum_nodes (node_value d.mem) (p_of j) 0) % u64 =
        omega (arith, sum_none (node_value d.mem) (p_of j), small) in
      let l : length ≡ length + sum_nodes one (p_of j) 0 = omega (arith, sum_none one (p_of j)) in
      ap (λ i. list_stat rounds d.mem i total length) (latest_none (p_of j))
      ∙ stat_end rounds d.mem total length
      ∙ λ i. some (t i, l i)
  list_stat_lem rounds j (suc zero) total length le fuel small =
      let t : total ≡ (total + sum_nodes (node_value d.mem) (p_of j) 1) % u64 =
        omega (arith, sum_first (node_value d.mem) (p_of j), small) in
      let l : length ≡ length + sum_nodes one (p_of j) 1 = omega (arith, sum_first one (p_of j)) in
      ap (λ i. list_stat rounds d.mem i total length) (latest_first (p_of j))
      ∙ stat_end rounds d.mem total length
      ∙ λ i. some (t i, l i)
  list_stat_lem zero j (suc (suc n)) total length le fuel small = absurd (omega (arith, fuel))
  list_stat_lem (suc rounds) j (suc (suc n)) total length le fuel small =
      elim (Bool-cases (p_of j (suc n))) [
        | inl y ↦
            let f = node_value d.mem in
            let total' = (total + f (suc n)) % u64 in
            let rest =
              list_stat_lem rounds j (suc n) total' (length + 1) (omega (arith, le))
                (omega (arith, fuel)) (omega arith) in
            let t : (total' + sum_nodes f (p_of j) (suc n)) % u64
                ≡ (total + sum_nodes f (p_of j) (suc (suc n))) % u64 =
              omega (arith, sum_hit (p_of j) n f y) in
            let l : length + 1 + sum_nodes one (p_of j) (suc n)
                ≡ length + sum_nodes one (p_of j) (suc (suc n)) =
              omega (arith, sum_hit (p_of j) n one y) in
            ap (λ i. list_stat (suc rounds) d.mem i total length) (latest_hit (p_of j) (suc n) y)
            ∙ stat_step rounds d.mem (suc n) total length (omega arith)
            ∙ ap (λ i. list_stat rounds d.mem i total' (length + 1))
                (next_of j (suc n) (omega arith) (omega (arith, le)) y)
            ∙ rest
            ∙ λ i. some (t i, l i)
        | inr m ↦
            let f = node_value d.mem in
            let rest =
              list_stat_lem (suc rounds) j (suc n) total length (omega (arith, le))
                (omega (arith, fuel)) small in
            let t = ap (λ k. (total + k) % u64) (sym (sum_miss (p_of j) n f m)) in
            let l = ap (λ k. length + k) (sym (sum_miss (p_of j) n one m)) in
            ap (λ i. list_stat (suc rounds) d.mem i total length) (latest_miss (p_of j) (suc n) m)
            ∙ rest
            ∙ λ i. some (t i, l i)
      ]
