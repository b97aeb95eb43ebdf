-- ===== src/Jit/Resolve.antt =====
-- `resolve_overlaps` of opjitconv/jitsymbol.c ends with entries that do not overlap.
use oprofile.Base.{
  ℕ, zero, suc, ◌+◌, ◌≤◌, ◌<◌, ◌≡◌, ◌↔◌, refl, sym, subst, ◌∙◌, Bool, true, false, inl, inr, List,
  [], ◌∷◌, ◌++◌, ltb, ◌==◌, if◌then◌else◌, arith, Bool-cases, ==_iff,
}
use oprofile.Jit.{
  JitEntry, invalidate_entry, invalidate_earlybirds, drop_invalid, Resolved, resolved,
  resort_address, resolve_loop, resolve_overlaps,
}
use oprofile.Jit.Entries.{sum, cover, live_size, faulty, IsSane-faulty, faulty-IsSane}
use oprofile.Jit.Eliminate.{AllSane, sum-append}
use oprofile.Jit.Scan.{Ascends, Apart, scan_overlaps-Scans}

-- What `qsort` by address promises: its result has the same entries, in ascending order.
pub record SortsByAddress (qsort : List JitEntry → List JitEntry) : Type 0 where
  pub permutes :
      (f : JitEntry → ℕ) (entries : List JitEntry) → sum f (qsort entries) ≡ sum f entries
  pub sorts : (entries : List JitEntry) → Ascends 0 (qsort entries)

-- Some live entry's code stands at the address.
abbrev pub IsCovered : ℕ → List JitEntry → Type 0
IsCovered x entries = 0 < sum (cover x) entries

-- The entries alive at the start of the sampling.
pub alive_at : ℕ → List JitEntry → List JitEntry
alive_at start_time [] = []
alive_at start_time (e ∷ entries) =
    let rest = alive_at start_time entries in if ltb e.life_end start_time then rest else e ∷ rest

zero-AllSane :
    (entries : List JitEntry) (lo : ℕ)
    → 0 < lo
    → Ascends lo entries
    → sum faulty entries ≡ 0
    → AllSane entries
unfolding sum
zero-AllSane [] lo pos up h = tt
zero-AllSane (e ∷ entries) lo pos (le, up) h = (
  faulty-IsSane e (omega arith) (omega arith),
  zero-AllSane entries e.vma (omega arith) up (omega arith),
)

faulty-AllSane : (entries : List JitEntry) → AllSane entries → sum faulty entries ≡ 0
unfolding sum
faulty-AllSane [] all = refl
faulty-AllSane (e ∷ entries) (s, all) = omega (arith, IsSane-faulty e s, faulty-AllSane entries all)

-- The invalidated entries are dropped from a sorted array.
record Dropped (entries kept : List JitEntry) : Type 0 where
  sane : AllSane kept
  up : Ascends 0 kept
  sums : (f : JitEntry → ℕ) → ((e : JitEntry) → e.vma ≡ 0 → f e ≡ 0) → sum f kept ≡ sum f entries

drop_invalid-Dropped :
    (entries : List JitEntry)
    → Ascends 0 entries
    → sum faulty entries ≡ 0
    → Dropped entries (drop_invalid entries)
unfolding drop_invalid sum
drop_invalid-Dropped [] up h = record { sane = tt; up = tt; sums = λ f z. refl }
drop_invalid-Dropped (e ∷ entries) (le, up) h = elim (Bool-cases (e.vma == 0)) [
  | inl t ↦
      let zero_vma : e.vma ≡ 0 = (==_iff e.vma 0).0 t in
      let d =
        drop_invalid-Dropped entries (subst (λ (n : ℕ). Ascends n entries) zero_vma up)
          (omega arith) in
      rw t
        (record { sane = d.sane; up = d.up; sums = λ f z. omega (arith, d.sums f z, z e zero_vma) })
  | inr f ↦ rw f (record {
    sane = (
      faulty-IsSane e (omega arith) (ground arith),
      zero-AllSane entries e.vma (ground arith) up (omega arith),
    );
    up = (omega arith, up);
    sums = λ g z. refl;
  })
]

cover_dead : (x : ℕ) (e : JitEntry) → e.vma ≡ 0 → cover x e ≡ 0
cover_dead x e h = rw h refl

live_dead : (e : JitEntry) → e.vma ≡ 0 → live_size e ≡ 0
live_dead e h = rw h refl

-- What is marked, and whether anything was.
record Marked (start_time : ℕ) (entries marked : List JitEntry) (flag : Bool) : Type 0 where
  sums :
      (f : JitEntry → ℕ)
      → ((e : JitEntry) → e.vma ≡ 0 → f e ≡ 0)
      → sum f marked ≡ sum f (alive_at start_time entries)
  unmarked : flag ≡ false → (marked ≡ entries) × (alive_at start_time entries ≡ entries)
  fewer : sum live_size (alive_at start_time entries) ≤ sum live_size entries

alive_at-nil : (start_time : ℕ) → alive_at start_time [] ≡ []
unfolding alive_at
alive_at-nil start_time = refl

alive_at-early :
    (start_time : ℕ) (e : JitEntry) (entries : List JitEntry)
    → ltb e.life_end start_time ≡ true
    → alive_at start_time (e ∷ entries) ≡ alive_at start_time entries
unfolding alive_at
alive_at-early start_time e entries t = rw t refl

alive_at-later :
    (start_time : ℕ) (e : JitEntry) (entries : List JitEntry)
    → ltb e.life_end start_time ≡ false
    → alive_at start_time (e ∷ entries) ≡ e ∷ alive_at start_time entries
unfolding alive_at
alive_at-later start_time e entries f = rw f refl

invalidate_earlybirds-Marked :
    (start_time : ℕ) (entries : List JitEntry)
    → Marked start_time entries
        (invalidate_earlybirds start_time entries).0
        (invalidate_earlybirds start_time entries).1
unfolding invalidate_earlybirds sum
invalidate_earlybirds-Marked start_time [] = record {
  sums = λ f z. rw (alive_at-nil start_time) refl;
  unmarked = λ h. (refl, alive_at-nil start_time);
  fewer = rw (alive_at-nil start_time) (omega arith);
}
invalidate_earlybirds-Marked start_time (e ∷ entries) =
    let m = invalidate_earlybirds-Marked start_time entries in
    elim (Bool-cases (ltb e.life_end start_time)) [
      | inl t ↦
          let q = alive_at-early start_time e entries t in
          rw t (record {
            sums = λ f z. rw q (omega (arith, m.sums f z, z (invalidate_entry e) refl));
            unmarked = λ h. let bad : ⊥ = cc in absurd bad;
            fewer = rw q (omega (arith, m.fewer));
          })
      | inr f ↦
          let q = alive_at-later start_time e entries f in
          rw f (record {
            sums = λ g z. rw q (omega (arith, m.sums g z));
            unmarked = λ h. let (i, j) = m.unmarked h in (rw i refl, rw (q, j) refl);
            fewer = rw q (omega (arith, m.fewer));
          })
    ]

alive_at-faulty :
    (start_time : ℕ) (entries : List JitEntry)
    → AllSane entries
    → sum faulty (alive_at start_time entries) ≡ 0
unfolding alive_at sum
alive_at-faulty start_time [] all = refl
alive_at-faulty start_time (e ∷ entries) (s, all) = elim (Bool-cases (ltb e.life_end start_time)) [
  | inl t ↦ rw t (alive_at-faulty start_time entries all)
  | inr f ↦ rw f (omega (arith, IsSane-faulty e s, alive_at-faulty start_time entries all))
]

faulty_dead : (e : JitEntry) → e.vma ≡ 0 → faulty e ≡ 0
faulty_dead e h = rw h refl

module _ (qsort : List JitEntry → List JitEntry) (sorting : SortsByAddress qsort) where
  resort_address-Dropped :
      (entries : List JitEntry)
      → sum faulty entries ≡ 0
      → Dropped entries (resort_address qsort entries)
  unfolding resort_address
  resort_address-Dropped entries h =
      let d =
        drop_invalid-Dropped (qsort entries) (sorting.sorts entries)
          (sorting.permutes faulty entries ∙ h) in
      record { sane = d.sane; up = d.up; sums = λ f z. d.sums f z ∙ sorting.permutes f entries }

  -- The array is resolved: without overlaps, at the same addresses.
  Resolves : Resolved → List JitEntry → Type 0
  Resolves r entries =
      (entries' : List JitEntry) × (r ≡ resolved entries')
      × Apart 0 entries'
      × ((x : ℕ) → IsCovered x entries' ↔ IsCovered x entries)

  resolve_loop-Resolves :
      (rounds : ℕ) (debug : Bool) (entries : List JitEntry)
      → AllSane entries
      → Ascends 0 entries
      → sum live_size entries < rounds
      → Resolves (resolve_loop qsort rounds debug entries) entries
  unfolding resolve_loop Resolves
  resolve_loop-Resolves zero debug entries all up few = absurd (omega arith)
  resolve_loop-Resolves (suc rounds) debug entries all up few =
      let (s, run, sc) = scan_overlaps-Scans debug entries all up in
      elim (Bool-cases s.found) [
        | inl t ↦
            let next = s.range ++ s.added in
            let sums : (f : JitEntry → ℕ) → sum f next ≡ sum f s.range + sum f s.added =
              λ f. sum-append f s.range s.added in
            let d = resort_address-Dropped next (sums faulty ∙ sc.sound) in
            let less = sc.size_lt t in
            let (es, done, apart, same) =
              resolve_loop-Resolves rounds debug (resort_address qsort next) d.sane d.up
                (omega (arith, d.sums live_size live_dead, sums live_size)) in
            (
              es,
              rw (resolve_loop, run, t) done,
              apart,
              λ x.
                  let q = d.sums (cover x) (cover_dead x) in
                  let p = sums (cover x) in
                  (
                    λ c. let c' = (same x).0 c in (sc.same x).0 (omega (arith, q, p, c')),
                    λ c. let c' = (sc.same x).1 c in (same x).1 (omega (arith, q, p, c')),
                  ),
            )
        | inr f ↦
            let (i, j, apart) = sc.quiet f in
            (
              s.range,
              rw (resolve_loop, run, f) refl,
              subst (Apart 0) (sym i) apart,
              λ x.
                  subst (λ (l : List JitEntry). IsCovered x l ↔ IsCovered x entries) (sym i)
                    (λ c. c, λ c. c),
            )
      ]

  moved :
      (r : Resolved) (es es' : List JitEntry)
      → Resolves r es
      → ((x : ℕ) → sum (cover x) es ≡ sum (cover x) es')
      → Resolves r es'
  unfolding Resolves
  moved r es es' (l, run, apart, same) e =
      (l, run, apart, λ x. subst (λ (n : ℕ). IsCovered x l ↔ (0 < n)) (e x) (same x))

  Marked-Resolves :
      (rounds : ℕ) (debug : Bool) (start_time : ℕ) (entries marked : List JitEntry) (flag : Bool)
      → AllSane entries
      → Ascends 0 entries
      → sum live_size entries < rounds
      → Marked start_time entries marked flag
      → Resolves
          (resolve_loop qsort rounds debug (if flag then resort_address qsort marked else marked))
          (alive_at start_time entries)
  Marked-Resolves rounds debug start_time entries marked false all up few m =
      let (i, j) = m.unmarked refl in
      rw (i, j) (resolve_loop-Resolves rounds debug entries all up few)
  Marked-Resolves rounds debug start_time entries marked true all up few m =
      let d =
        resort_address-Dropped marked
          (m.sums faulty faulty_dead ∙ alive_at-faulty start_time entries all) in
      let size = d.sums live_size live_dead ∙ m.sums live_size live_dead in
      let r =
        resolve_loop-Resolves rounds debug (resort_address qsort marked) d.sane d.up
          (omega (arith, size, m.fewer)) in
      moved _ _ _ r (λ x. d.sums (cover x) (cover_dead x) ∙ m.sums (cover x) (cover_dead x))

  -- For a qsort that sorts by address, and symbols in ascending order whose addresses are not 0,
  -- whose sizes are from 1 to 2^31 - 1 and whose ends stay below 2^64, whose lives end no earlier
  -- than they start and before ULONG_MAX: with more rounds than the total size of the live code,
  -- resolve_overlaps ends without failure, its symbols do not overlap, and the addresses that they
  -- cover are those that the symbols alive at the start of the sampling cover.
  pub resolve_overlaps-Apart :
      (rounds : ℕ) (debug : Bool) (start_time : ℕ) (entries : List JitEntry)
      → AllSane entries
      → Ascends 0 entries
      → sum live_size entries < rounds
      → (entries' : List JitEntry) × (resolve_overlaps qsort rounds debug start_time entries
          ≡ resolved entries')
        × Apart 0 entries'
        × ((x : ℕ) → IsCovered x entries' ↔ IsCovered x (alive_at start_time entries))
  unfolding resolve_overlaps Resolves
  resolve_overlaps-Apart rounds debug start_time entries all up few =
      Marked-Resolves rounds debug start_time entries _ _ all up few
        (invalidate_earlybirds-Marked start_time entries)
