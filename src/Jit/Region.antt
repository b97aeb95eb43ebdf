-- ===== src/Jit/Region.antt =====
-- A region of overlapping entries (`select_one`, `handle_overlap_region` of opjitconv/jitsymbol.c).
use mathlib.Core.Option.{some-injective}
use oprofile.Base.{
  ℕ, zero, suc, ◌+◌, ◌-◌, ◌%◌, ◌≤◌, ◌<◌, ◌≡◌, ◌≢◌, ◌⊎◌, ◌↔◌, refl, ap, ◌∙◌, subst, Bool, true, inl,
  inr, some, List, [], ◌∷◌, length, get_elem?, set, ltb, u64, arith, Bool-cases, ltb→lt, ==_ne,
}
use oprofile.Jit.{
  JitEntry, lifetime, is_overlapping, Eliminated, ulong_max, max_of, select_from, select_one,
  renamed, Handled, finish_region, keep_at, handle_overlap_region,
}
use oprofile.Jit.Entries.{sum, covers, cover, live_size, faulty, IsSane, end_addr-sane}
use oprofile.Jit.Eliminate.{AllSane, Touches, Reduces, eliminate_from-Reduces}

select_from-lt :
    (entries : List JitEntry) (i candidate best : ℕ)
    → candidate < i
    → select_from entries i candidate best < i + length entries
unfolding select_from
select_from-lt [] i candidate best h = omega arith
select_from-lt (e ∷ entries) i candidate best h = elim (Bool-cases (ltb best (lifetime e))) [
  | inl t ↦ rw t (omega (arith, select_from-lt entries (i + 1) i (lifetime e) (omega arith)))
  | inr f ↦ rw f (omega (arith, select_from-lt entries (i + 1) candidate best (omega arith)))
]

get_elem?-lt :
    (entries : List JitEntry) (j : ℕ)
    → j < length entries
    → AllSane entries
    → (e : JitEntry) × (get_elem? entries j ≡ some e) × IsSane e
get_elem?-lt [] j h all = absurd (omega arith)
get_elem?-lt (e ∷ entries) zero h (s, all) = (e, refl, s)
get_elem?-lt (e ∷ entries) (suc j) h (s, all) = get_elem?-lt entries j (omega arith) all

-- The entries follow one another from address `lo` on, each beginning below the end of all before.
abbrev pub Chained : ℕ → ℕ → List JitEntry → Type 0
Chained lo end [] = Unit
Chained lo end (b ∷ entries) =
    (lo ≤ b.vma) × (b.vma < end) × Chained b.vma (max_of end (b.vma + b.code_size)) entries

Chained-ge :
    (entries : List JitEntry) (lo end j : ℕ) (keep : JitEntry)
    → Chained lo end entries
    → get_elem? entries j ≡ some keep
    → lo ≤ keep.vma
Chained-ge [] lo end j keep c h = let bad : ⊥ = cc in absurd bad
Chained-ge (b ∷ entries) lo end zero keep (a, b', c) h =
    let e : b ≡ keep = some-injective _ _ h in subst (λ (y : JitEntry). lo ≤ y.vma) e a
Chained-ge (b ∷ entries) lo end (suc j) keep (a, b', c) h =
    omega (arith, Chained-ge entries b.vma _ j keep c h)

meets :
    (keep e : JitEntry)
    → IsSane keep
    → IsSane e
    → e.vma ≤ keep.vma
    → keep.vma < e.vma + e.code_size
    → is_overlapping keep e ≡ true
unfolding is_overlapping
meets keep e k s le lt = rw (end_addr-sane e s, end_addr-sane keep k) (ground arith)

overlap_of :
    (e b : JitEntry)
    → IsSane e
    → IsSane b
    → e.vma ≤ b.vma
    → b.vma < e.vma + e.code_size
    → is_overlapping e b ≡ true
unfolding is_overlapping
overlap_of e b s sb le lt = rw (end_addr-sane e s, end_addr-sane b sb) (ground (arith, sb.sized))

-- An entry of a chain begins below the end given, or meets an earlier one of the chain.
Chained-Touches :
    (entries : List JitEntry) (lo end i j : ℕ) (keep : JitEntry)
    → Chained lo end entries
    → AllSane entries
    → IsSane keep
    → get_elem? entries j ≡ some keep
    → (keep.vma < end) ⊎ Touches keep (i + j) i entries
Chained-Touches [] lo end i j keep c all k h = let bad : ⊥ = cc in absurd bad
Chained-Touches (b ∷ entries) lo end i zero keep (a, b', c) all k h =
    let e : b ≡ keep = some-injective _ _ h in inl (subst (λ (y : JitEntry). y.vma < end) e b')
Chained-Touches (b ∷ entries) lo end i (suc j) keep (a, b', c) (s, all) k h =
    let le : b.vma ≤ keep.vma = Chained-ge entries b.vma _ j keep c h in
    elim (Chained-Touches entries b.vma (max_of end (b.vma + b.code_size)) (i + 1) j keep c all k
      h) [
        | inl lt ↦ elim (Bool-cases (ltb keep.vma (b.vma + b.code_size))) [
          | inl t ↦ inr (inl (omega arith, meets keep b k s le (ltb→lt _ _ t)))
          | inr f ↦ inl (ground arith)
        ]
        | inr later ↦
            let q : i + 1 + j ≡ i + suc j = omega arith in
            inr (inr (subst (λ (n : ℕ). Touches keep n (i + 1) entries) q later))
      ]

-- In a region of two entries or more, one meets the one at any index.
region-Touches :
    (e b : JitEntry) (entries : List JitEntry) (idx : ℕ) (keep : JitEntry)
    → IsSane e
    → AllSane (b ∷ entries)
    → IsSane keep
    → Chained e.vma (e.vma + e.code_size) (b ∷ entries)
    → get_elem? (e ∷ b ∷ entries) idx ≡ some keep
    → Touches keep idx 0 (e ∷ b ∷ entries)
region-Touches e b entries zero keep s (sb, all) k (le, lt, c) h =
    let q : e ≡ keep = some-injective _ _ h in
    inr (
      inl (
        omega arith,
        subst (λ (y : JitEntry). is_overlapping y b ≡ true) q (overlap_of e b s sb le lt),
      ))
region-Touches e b entries (suc j) keep s all k c h =
    let le : e.vma ≤ keep.vma = Chained-ge (b ∷ entries) e.vma _ j keep c h in
    elim (Chained-Touches (b ∷ entries) e.vma (e.vma + e.code_size) 1 j keep c all k h) [
      | inl lt ↦ inl (omega arith, meets keep e k s le lt)
      | inr later ↦
          let q : 1 + j ≡ suc j = omega arith in
          inr (subst (λ (n : ℕ). Touches keep n 1 (b ∷ entries)) q later)
    ]

sum-set :
    (f : JitEntry → ℕ) (entries : List JitEntry) (j : ℕ) (e e' : JitEntry)
    → get_elem? entries j ≡ some e
    → f e' ≡ f e
    → sum f (set entries j e') ≡ sum f entries
unfolding sum
sum-set f [] j e e' h q = refl
sum-set f (x ∷ entries) zero e e' h q = let i : x ≡ e = some-injective _ _ h in rw (i, q) refl
sum-set f (x ∷ entries) (suc j) e e' h q = omega (arith, sum-set f entries j e e' h q)

sum_member :
    (f : JitEntry → ℕ) (entries : List JitEntry) (j : ℕ) (e : JitEntry)
    → get_elem? entries j ≡ some e
    → f e ≤ sum f entries
unfolding sum
sum_member f [] j e h = let bad : ⊥ = cc in absurd bad
sum_member f (x ∷ entries) zero e h = let i : x ≡ e = some-injective _ _ h in rw i (omega arith)
sum_member f (x ∷ entries) (suc j) e h = omega (arith, sum_member f entries j e h)

-- What a handled region covers is what it covered; it is smaller.
pub record Shrinks (region range added : List JitEntry) : Type 0 where
  pub same : (x : ℕ) → (0 < sum (cover x) range + sum (cover x) added) ↔ (0 < sum (cover x) region)
  pub size_lt : sum live_size range + sum live_size added < sum live_size region
  pub sound : sum faulty range + sum faulty added ≡ 0

module _ (region : List JitEntry) (idx : ℕ) (keep : JitEntry) (k : IsSane keep)
    (at : get_elem? region idx ≡ some keep) (touches : Touches keep idx 0 region) (r : Eliminated)
    (red : Reduces keep idx 0 region r) where
  stays_at : get_elem? r.range idx ≡ some keep
  stays_at = red.stays idx keep at (omega arith)

  renamed-sum :
      (f : JitEntry → ℕ) (t : ℕ)
      → f (renamed keep t) ≡ f keep
      → sum f (set r.range idx (renamed keep t)) ≡ sum f r.range
  renamed-sum f t = sum-set f r.range idx keep (renamed keep t) stays_at

  covered : (x : ℕ) → 0 < sum (cover x) region → 0 < sum (cover x) r.range + sum (cover x) r.added
  covered x c = elim (Bool-cases (covers x keep)) [
    | inl t ↦
        let one : cover x keep ≡ 1 = rw (==_ne keep.vma 0 (omega (arith, k.placed)), t) refl in
        omega (arith, sum_member (cover x) r.range idx keep stays_at)
    | inr f ↦ omega (arith, red.cover_eq x f)
  ]

  finish_region-Shrinks :
      (h : Handled) × (finish_region keep idx r ≡ some h) × Shrinks region h.range h.added
  unfolding finish_region
  finish_region-Shrinks =
      let t = (r.max_end + u64 - r.min_start) % u64 in
      let (a, b) = red.span in
      let ne : t ≢ ulong_max = omega arith in
      (
        record { range = set r.range idx (renamed keep t); added = r.added },
        rw (==_ne t ulong_max ne) refl,
        record {
          same = λ x.
              rw (renamed-sum (cover x) t refl) (λ c. omega (arith, red.cover_le x), covered x);
          size_lt = rw (renamed-sum live_size t refl) (red.size_lt touches);
          sound = rw (renamed-sum faulty t refl) red.sound;
        },
      )

keep_at-Shrinks :
    (debug : Bool) (region : List JitEntry) (idx : ℕ) (keep : JitEntry)
    → IsSane keep
    → AllSane region
    → get_elem? region idx ≡ some keep
    → Touches keep idx 0 region
    → (h : Handled) × (keep_at debug idx region (get_elem? region idx) ≡ some h)
      × Shrinks region h.range h.added
unfolding keep_at
keep_at-Shrinks debug region idx keep k all at touches =
    let (r, run, red) = eliminate_from-Reduces keep k debug idx region 0 all in
    let (h, fin, shr) = finish_region-Shrinks region idx keep k at touches r red in
    (h, ap (keep_at debug idx region) at ∙ rw (keep_at, run) fin, shr)

select_one-lt :
    (e : JitEntry) (entries : List JitEntry) → select_one e entries < length (e ∷ entries)
unfolding select_one
select_one-lt e entries = omega (arith, select_from-lt entries 1 0 (lifetime e) (omega arith))

-- Two entries or more that overlap one behind the other are handled, and no assert fails.
pub handle_overlap_region-Shrinks :
    (debug : Bool) (e b : JitEntry) (entries : List JitEntry)
    → IsSane e
    → AllSane (b ∷ entries)
    → Chained e.vma (e.vma + e.code_size) (b ∷ entries)
    → (h : Handled) × (handle_overlap_region debug e (b ∷ entries) ≡ some h)
      × Shrinks (e ∷ b ∷ entries) h.range h.added
unfolding handle_overlap_region
handle_overlap_region-Shrinks debug e b entries s all c =
    let idx = select_one e (b ∷ entries) in
    let (keep, at, k) =
      get_elem?-lt (e ∷ b ∷ entries) idx (select_one-lt e (b ∷ entries)) (s, all) in
    keep_at-Shrinks debug (e ∷ b ∷ entries) idx keep k (s, all) at
      (region-Touches e b entries idx keep s all k c at)
