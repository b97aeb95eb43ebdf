-- ===== src/Odb/Chain.antt =====
-- The hash chains of libdb/db_manage.c and db_insert.c, described without pointers: a chain runs
-- through the nodes of one bucket from the latest down.
use oprofile.Base.{
  ℕ, zero, suc, ◌+◌, ◌*◌, ◌≤◌, ◌<◌, ◌≡◌, ◌≢◌, refl, sym, true, false, inl, inr, Bool-cases, Bool,
  arith, ◌==◌, if◌then◌else◌, ap, subst, ◌∙◌,
}
use native.Mathlib.Decide.{dec_lt}
use oprofile.Base.Bits.{bit_and-le}
use oprofile.Odb.{Words, node_key, node_value, node_next, hash_base, odb_do_hash, relink, rebuild}

-- The largest index below `n` that passes the test, or 0.
unfoldable pub latest : (ℕ → Bool) → ℕ → ℕ
latest p zero = 0
latest p (suc n) = if p n then n else latest p n

pub latest-lt : (p : ℕ → Bool) (n : ℕ) → 0 < n → latest p n < n
unfolding latest
latest-lt p zero h = absurd (omega arith)
latest-lt p (suc zero) h = ground arith
latest-lt p (suc (suc n)) h = ground (arith, latest-lt p (suc n))

pub latest_congr :
    (p q : ℕ → Bool) (n : ℕ) → ((i : ℕ) → i < n → p i ≡ q i) → latest p n ≡ latest q n
unfolding latest
latest_congr p q zero h = refl
latest_congr p q (suc n) h = ground (arith, h n, latest_congr p q n (λ i b. h i (omega arith)))

-- A latest match other than 0 passes the test and lies below the bound.
pub latest_passes : (p : ℕ → Bool) (n i : ℕ) → latest p n ≡ suc i → (p (suc i) ≡ true) × (suc i < n)
unfolding latest
latest_passes p zero i h = absurd (omega arith)
latest_passes p (suc n) i h = elim (Bool-cases (p n)) [
  | inl t ↦ let e : n ≡ suc i = ground arith in (subst (λ k. p k ≡ true) e t, omega arith)
  | inr f ↦ let (a, b) = latest_passes p n i (ground arith) in (a, omega arith)
]

-- If the latest match is 0 then no other index passes.
pub latest-zero : (p : ℕ → Bool) (n : ℕ) → latest p n ≡ 0 → (i : ℕ) → 0 < i → i < n → p i ≡ false
unfolding latest
latest-zero p zero h i pos b = absurd (omega arith)
latest-zero p (suc n) h i pos b = elim (Bool-cases (p n)) [
  | inl t ↦ let e : n ≡ 0 = ground arith in absurd (omega arith)
  | inr f ↦ elim (dec_lt i n) [
    | yes q ↦ latest-zero p n (ground arith) i pos q
    | no q ↦ let e : n ≡ i = omega arith in subst (λ k. p k ≡ false) e f
  ]
]

pub odb_do_hash-le : (mask key : ℕ) → odb_do_hash mask key ≤ mask
unfolding odb_do_hash
odb_do_hash-le mask key = bit_and-le _ mask

-- Whether node `i` hashes to bucket `j`.
abbrev pub in_bucket : ℕ → Words → ℕ → ℕ → Bool
in_bucket mask mem j i = odb_do_hash mask (node_key mem i) == j

-- The table of `size` buckets links the nodes below `n`, later nodes first.
pub record IsLinked (size mask n : ℕ) (mem : Words) : Type 0 where
  pub buckets : (j : ℕ) → j < size → hash_base size mem j ≡ latest (in_bucket mask mem j) n
  pub nexts :
      (i : ℕ)
      → 0 < i
      → i < n
      → node_next mem i ≡ latest (in_bucket mask mem (odb_do_hash mask (node_key mem i))) i

-- Two memories agree on the keys and values of the nodes below `n`.
pub record SameNodes (n : ℕ) (m m' : Words) : Type 0 where
  pub keys : (i : ℕ) → i < n → node_key m i ≡ node_key m' i
  pub values : (i : ℕ) → i < n → node_value m i ≡ node_value m' i

SameNodes-trans :
    {n : ℕ} {m₁ m₂ m₃ : Words} → SameNodes n m₁ m₂ → SameNodes n m₂ m₃ → SameNodes n m₁ m₃
SameNodes-trans s t = record {
  keys = λ i b. s.keys i b ∙ t.keys i b;
  values = λ i b. s.values i b ∙ t.values i b;
}

pub SameNodes-le : {n k : ℕ} {m m' : Words} → k ≤ n → SameNodes n m m' → SameNodes k m m'
SameNodes-le h s = record {
  keys = λ i b. s.keys i (omega arith);
  values = λ i b. s.values i (omega arith);
}

in_bucket_congr :
    (mask j n : ℕ) (m m' : Words)
    → ((i : ℕ) → i < n → node_key m i ≡ node_key m' i)
    → latest (in_bucket mask m j) n ≡ latest (in_bucket mask m' j) n
in_bucket_congr mask j n m m' s =
    latest_congr _ _ n (λ i b. ap (λ (x : ℕ). odb_do_hash mask x == j) (s i b))

-- The chains depend on the keys, the links and the buckets only.
pub IsLinked-congr :
    (size mask n : ℕ) (m m' : Words)
    → ((i : ℕ) → i < n → node_key m' i ≡ node_key m i)
    → ((i : ℕ) → 0 < i → i < n → node_next m' i ≡ node_next m i)
    → ((j : ℕ) → j < size → hash_base size m' j ≡ hash_base size m j)
    → IsLinked size mask n m
    → IsLinked size mask n m'
IsLinked-congr size mask n m m' keys nexts buckets l = record {
  buckets = λ j b. buckets j b ∙ l.buckets j b ∙ sym (in_bucket_congr mask j n m' m keys);
  nexts = λ i p b.
      rw (keys i b, in_bucket_congr mask _ i m' m (λ k q. keys k (omega arith)))
        (nexts i p b ∙ l.nexts i p b);
}

-- One round of the rebuild, word by word.
module _ (size mask : ℕ) (mem : Words) (n : ℕ) (small : mask < size) (room : n < size) where
  abbrev home : ℕ
  home = odb_do_hash mask (node_key mem n)

  relink-word : (w : ℕ) → w < 4 * size → w ≢ 4 * n + 3 → relink size mask mem n w ≡ mem w
  unfolding relink
  relink-word w b ne = ground arith

  pub relink-behind : (w : ℕ) → 5 * size ≤ w → relink size mask mem n w ≡ mem w
  unfolding relink
  relink-behind w b = ground (arith, odb_do_hash-le mask (node_key mem n))

  relink-next : node_next (relink size mask mem n) n ≡ hash_base size mem home
  unfolding relink
  relink-next = ground arith

  relink-bucket :
      (j : ℕ)
      → hash_base size (relink size mask mem n) j ≡ (if home == j then n else hash_base size mem j)
  unfolding relink
  relink-bucket j = ground arith

  pub relink-SameNodes : SameNodes size (relink size mask mem n) mem
  relink-SameNodes = record {
    keys = λ i b. cc (
      relink-word (4 * i) (omega arith) (omega arith),
      relink-word (4 * i + 1) (omega arith) (omega arith),
    );
    values = λ i b. relink-word (4 * i + 2) (omega arith) (omega arith);
  }

  next_of :
      IsLinked size mask n mem
      → (i : ℕ) → 0 < i
      → i < suc n
      → node_next (relink size mask mem n) i
        ≡ latest (in_bucket mask mem (odb_do_hash mask (node_key mem i))) i
  next_of l i p b = elim (dec_lt i n) [
    | yes q ↦ relink-word (4 * i + 3) (omega arith) (omega arith) ∙ l.nexts i p q
    | no q ↦
        let e : n ≡ i = omega arith in
        subst
          (λ k.
            node_next (relink size mask mem n) k
            ≡ latest (in_bucket mask mem (odb_do_hash mask (node_key mem k))) k)
          e (relink-next ∙ l.buckets home (omega (arith, odb_do_hash-le mask (node_key mem n))))
  ]

  pub relink-IsLinked :
      0 < n → IsLinked size mask n mem → IsLinked size mask (suc n) (relink size mask mem n)
  unfolding latest
  relink-IsLinked pos l = record {
    buckets = λ j b. ground (
      arith,
      relink-bucket j,
      l.buckets j b,
      relink-SameNodes.keys n room,
      in_bucket_congr mask j n (relink size mask mem n) mem
          (λ i q. relink-SameNodes.keys i (omega arith)),
    );
    nexts = λ i p b.
        rw
          (
            relink-SameNodes.keys i (omega arith),
            in_bucket_congr mask (odb_do_hash mask (node_key mem i)) i (relink size mask mem n) mem
                (λ k q. relink-SameNodes.keys k (omega arith)),
          )
          (next_of l i p b);
  }

-- The whole rebuild: from an empty table, the chains of all nodes below `n`, and their contents.
module _ (size mask : ℕ) (mem : Words) (small : mask < size) where
  pub rebuild-SameNodes : (n : ℕ) → n ≤ size → SameNodes size (rebuild size mask mem n) mem
  unfolding rebuild
  rebuild-SameNodes zero h = record { keys = λ i b. refl; values = λ i b. refl }
  rebuild-SameNodes (suc zero) h = record { keys = λ i b. refl; values = λ i b. refl }
  rebuild-SameNodes (suc (suc n)) h =
      SameNodes-trans (relink-SameNodes size mask (rebuild size mask mem (suc n)) (suc n) small h)
        (rebuild-SameNodes (suc n) (omega arith))

  pub rebuild-IsLinked :
      ((j : ℕ) → j < size → hash_base size mem j ≡ 0)
      → (n : ℕ) → 0 < n
      → n ≤ size
      → IsLinked size mask n (rebuild size mask mem n)
  unfolding rebuild latest
  rebuild-IsLinked empty zero pos h = absurd (omega arith)
  rebuild-IsLinked empty (suc zero) pos h = record {
    buckets = λ j b. ground (arith, empty j b);
    nexts = λ i p b. absurd (omega arith);
  }
  rebuild-IsLinked empty (suc (suc n)) pos h =
      relink-IsLinked size mask (rebuild size mask mem (suc n)) (suc n) small h (omega arith)
        (rebuild-IsLinked empty (suc n) (omega arith) (omega arith))
