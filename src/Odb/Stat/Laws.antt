-- ===== src/Odb/Stat/Laws.antt =====
-- On a valid table the statistics are those of its nodes (libdb/db_stat.c).
use native.Mathlib.Decide.{ℕ_discrete}
use oprofile.Base.{
  u64, ℕ, zero, suc, ◌+◌, ◌-◌, ◌%◌, ◌≤◌, ◌<◌, ◌≡◌, ◌⊎◌, refl, sym, ap, ◌∙◌, inl, inr, true,
  Bool-cases, some, ltb, lt→ltb, ◌==◌, if◌then◌else◌, arith,
}
use oprofile.Odb.{OdbData, node_key, node_value, hash_base, odb_do_hash}
use oprofile.Odb.Chain.{in_bucket, odb_do_hash-le}
use oprofile.Odb.Valid.{IsValid}
use oprofile.Odb.Stat.{Sums, OdbHashStat, list_stat, add_list, sum_lists, odb_hash_stat}
use oprofile.Odb.Stat.Lists.{sum_nodes, one, p_of, list_stat_lem}

split_at :
    (x h pos : ℕ)
    → (if ltb h (suc pos) then x else 0)
      ≡ (if ltb h pos then x else 0) + (if h == pos then x else 0)
split_at x h pos = ground arith

-- The nodes of the buckets up to one, and those of that one.
sum_split :
    (f g : ℕ → ℕ) (pos n : ℕ)
    → sum_nodes f (λ i. ltb (g i) (suc pos)) n
      ≡ sum_nodes f (λ i. ltb (g i) pos) n + sum_nodes f (λ i. g i == pos) n
unfolding sum_nodes
sum_split f g pos zero = omega arith
sum_split f g pos (suc zero) = omega arith
sum_split f g pos (suc (suc n)) =
    omega (arith, sum_split f g pos (suc n), split_at (f (suc n)) (g (suc n)) pos)

sum_empty : (f g : ℕ → ℕ) (n : ℕ) → sum_nodes f (λ i. ltb (g i) 0) n ≡ 0
unfolding sum_nodes
sum_empty f g zero = refl
sum_empty f g (suc zero) = refl
sum_empty f g (suc (suc n)) =
    let none_here : (if ltb (g (suc n)) 0 then f (suc n) else 0) ≡ 0 = ground arith in
    omega (arith, sum_empty f g (suc n), none_here)

-- All nodes are in some bucket.
sum_all :
    (f g : ℕ → ℕ) (size n : ℕ)
    → ((i : ℕ) → g i < size)
    → sum_nodes f (λ i. ltb (g i) size) n ≡ sum_nodes f (λ i. true) n
unfolding sum_nodes
sum_all f g size zero h = refl
sum_all f g size (suc zero) h = refl
sum_all f g size (suc (suc n)) h =
    let here : (if ltb (g (suc n)) size then f (suc n) else 0) ≡ f (suc n) =
      rw (lt→ltb (g (suc n)) size (h (suc n))) refl in
    omega (arith, sum_all f g size (suc n) h, here)

count_all : (n : ℕ) → sum_nodes one (λ i. true) n ≡ n - 1
unfolding sum_nodes
count_all zero = omega arith
count_all (suc zero) = omega arith
count_all (suc (suc n)) = omega (arith, count_all (suc n))

add_list-total :
    (s : Sums) (total length : ℕ)
    → (add_list s (total, length)).total_length ≡ s.total_length + length
unfolding add_list
add_list-total s total length = ground arith

add_list-max :
    (s : Sums) (total length : ℕ)
    → (s.max_length ≤ (add_list s (total, length)).max_length)
      × (length ≤ (add_list s (total, length)).max_length)
      × (((add_list s (total, length)).max_length ≡ s.max_length)
          ⊎ ((add_list s (total, length)).max_length ≡ length))
unfolding add_list
add_list-max s total length = elim (Bool-cases (ltb s.max_length length)) [
  | inl y ↦ rw y (ground arith, ground arith, inr refl)
  | inr n ↦ rw n (ground arith, ground arith, inl refl)
]

module _ (d : OdbData) (v : IsValid d) where
  home : ℕ → ℕ
  home i = odb_do_hash d.hash_mask (node_key d.mem i)

  -- The length of the list of a bucket.
  pub length_of : ℕ → ℕ
  length_of j = sum_nodes one (in_bucket d.hash_mask d.mem j) d.current_size

  record IsSummed (pos : ℕ) (s : Sums) : Type 0 where
    counts :
        s.total_count ≡ sum_nodes (node_value d.mem) (λ i. ltb (home i) pos) d.current_size % u64
    lengths : s.total_length ≡ sum_nodes one (λ i. ltb (home i) pos) d.current_size
    longest : (j : ℕ) → j < pos → length_of j ≤ s.max_length
    reached : (s.max_length ≡ 0) ⊎ ((j : ℕ) × (j < pos) × (s.max_length ≡ length_of j))

  home_bound : (i : ℕ) → home i < d.size
  unfolding home
  home_bound i = omega (arith, odb_do_hash-le d.hash_mask (node_key d.mem i), v.mask)

  one_list :
      (rounds pos total : ℕ)
      → d.current_size ≤ rounds
      → pos < d.size
      → total < u64
      → list_stat rounds d.mem (hash_base d.size d.mem pos) total 0
        ≡ some (
          (total + sum_nodes (node_value d.mem) (in_bucket d.hash_mask d.mem pos) d.current_size)
              % u64,
          0 + length_of pos,
        )
  unfolding p_of length_of
  one_list rounds pos total fuel le small =
      ap (λ i. list_stat rounds d.mem i total 0) (v.linked.buckets pos le)
      ∙ list_stat_lem d v rounds pos d.current_size total 0 (omega arith) fuel small

  sum_lists-IsSummed :
      (rounds pos : ℕ)
      → d.current_size ≤ rounds
      → pos ≤ d.size
      → (s : Sums) × (sum_lists rounds d pos ≡ some s) × IsSummed pos s
  unfolding sum_lists home length_of sum_nodes
  sum_lists-IsSummed rounds zero fuel le =
      let f = node_value d.mem in
      (
        _,
        refl,
        record {
          counts = ap (λ k. k % u64) (sym (sum_empty f home d.current_size));
          lengths = sym (sum_empty one home d.current_size);
          longest = λ j b. absurd (omega (arith, b));
          reached = inl refl;
        },
      )
  sum_lists-IsSummed rounds (suc pos) fuel le =
      let (s, e, q) = sum_lists-IsSummed rounds pos fuel (omega (arith, le)) in
      let f = node_value d.mem in
      let n = d.current_size in
      let total = (s.total_count + sum_nodes f (in_bucket d.hash_mask d.mem pos) n) % u64 in
      let length = 0 + length_of pos in
      let list = one_list rounds pos s.total_count fuel le (omega (arith, q.counts)) in
      let (m₁, m₂, m₃) = add_list-max s total length in
      (
        add_list s (total, length),
        rw (sum_lists, e, list) refl,
        record {
          counts = omega (arith, q.counts, sum_split f home pos n);
          lengths =
              omega (arith, q.lengths, sum_split one home pos n, add_list-total s total length);
          longest = λ j b. elim (ℕ_discrete j pos) [
            | yes same ↦ omega (arith, m₂, ap length_of same)
            | no ne ↦ omega (arith, m₁, q.longest j (omega (arith, b, ne)))
          ];
          reached = elim m₃ [
            | inr x ↦ inr (pos, omega arith, omega (arith, x))
            | inl x ↦ elim q.reached [
              | inl z ↦ inl (omega (arith, x, z))
              | inr (j, b, z) ↦ inr (j, omega (arith, b), x ∙ z)
            ]
          ];
        },
      )

  -- What the statistics are to be: the counts of all nodes modulo 2^64, their number, and the length
  -- of the longest list.
  pub record IsStat (r : OdbHashStat) : Type 0 where
    pub node_nr : r.node_nr ≡ d.size
    pub used_node_nr : r.used_node_nr ≡ d.current_size
    pub total_count :
        r.sums.total_count ≡ sum_nodes (node_value d.mem) (λ i. true) d.current_size % u64
    pub total_length : r.sums.total_length ≡ d.current_size - 1
    pub longest : (j : ℕ) → j < d.size → length_of j ≤ r.sums.max_length
    pub reached :
        (r.sums.max_length ≡ 0) ⊎ ((j : ℕ) × (j < d.size) × (r.sums.max_length ≡ length_of j))

  stat_of : Sums → OdbHashStat
  stat_of s = record {
    node_nr = d.size;
    used_node_nr = d.current_size;
    hash_table_size = d.size;
    sums = s;
  }

  from_sums :
      (rounds : ℕ) (s : Sums)
      → sum_lists rounds d d.size ≡ some s
      → odb_hash_stat rounds d ≡ some (stat_of s)
  unfolding odb_hash_stat stat_of
  from_sums rounds s e = rw (odb_hash_stat, e) refl

  -- On a valid database, with as many rounds for a list as the current size, odb_hash_stat ends;
  -- its total count is the sum of the values of all nodes modulo 2^64, the lengths of the lists
  -- that are not empty add up to the number of nodes, and the maximal length is that of a list of
  -- the table, or 0, and no list is longer.
  pub odb_hash_stat-IsStat :
      (rounds : ℕ)
      → d.current_size ≤ rounds
      → (r : OdbHashStat) × (odb_hash_stat rounds d ≡ some r) × IsStat r
  unfolding stat_of
  odb_hash_stat-IsStat rounds fuel =
      let (s, e, q) = sum_lists-IsSummed rounds d.size fuel (omega arith) in
      let inside = λ (i : ℕ). home_bound i in
      (
        stat_of s,
        from_sums rounds s e,
        record {
          node_nr = refl;
          used_node_nr = refl;
          total_count =
              q.counts
              ∙ ap (λ k. k % u64) (sum_all (node_value d.mem) home d.size d.current_size inside);
          total_length =
              q.lengths ∙ sum_all one home d.size d.current_size inside ∙ count_all d.current_size;
          longest = q.longest;
          reached = q.reached;
        },
      )
