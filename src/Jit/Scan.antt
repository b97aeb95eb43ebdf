-- ===== src/Jit/Scan.antt =====
-- One scan of the sorted array (`scan_overlaps` of opjitconv/jitsymbol.c).
use mathlib.Core.List.{append-nil, append_assoc}
use oprofile.Base.{
  ℕ, ◌+◌, ◌≤◌, ◌<◌, ◌≡◌, ◌⊎◌, ◌↔◌, refl, ap, sym, ◌∙◌, subst, Bool, true, false, ◌||◌, inl, inr,
  some, List, [], ◌∷◌, ◌++◌, leb, arith, Bool-cases,
}
use oprofile.Jit.{JitEntry, end_addr, max_of, Scanned, close_region, join, scan_from, scan_overlaps}
use oprofile.Jit.Entries.{sum, cover, live_size, faulty, IsSane, IsSane-faulty, end_addr-sane}
use oprofile.Jit.Eliminate.{AllSane, sum-append}
use oprofile.Jit.Region.{Chained, handle_overlap_region-Shrinks}

-- Sorted by address, from `lo` on.
abbrev pub Ascends : ℕ → List JitEntry → Type 0
Ascends lo [] = Unit
Ascends lo (e ∷ entries) = (lo ≤ e.vma) × Ascends e.vma entries

-- From the address `end` on, each entry ends before the next begins.
abbrev pub Apart : ℕ → List JitEntry → Type 0
Apart end [] = Unit
Apart end (e ∷ entries) = (end ≤ e.vma) × Apart (e.vma + e.code_size) entries

-- A scan of the entries: the same addresses are covered; it is smaller if it found an overlap, and
-- otherwise all is as it was, without an overlap.
pub record Scans (entries : List JitEntry) (s : Scanned) : Type 0 where
  pub same :
      (x : ℕ) → (0 < sum (cover x) s.range + sum (cover x) s.added) ↔ (0 < sum (cover x) entries)
  pub size_le : sum live_size s.range + sum live_size s.added ≤ sum live_size entries
  pub size_lt :
      s.found ≡ true → sum live_size s.range + sum live_size s.added < sum live_size entries
  pub sound : sum faulty s.range + sum faulty s.added ≡ 0
  pub quiet : s.found ≡ false → (s.range ≡ entries) × (s.added ≡ []) × Apart 0 entries

max_ends : ℕ → List JitEntry → ℕ
max_ends end [] = end
max_ends end (e ∷ entries) = max_ends (max_of end (e.vma + e.code_size)) entries

last_vma : ℕ → List JitEntry → ℕ
last_vma lo [] = lo
last_vma lo (e ∷ entries) = last_vma e.vma entries

Chained-snoc :
    (entries : List JitEntry) (lo end : ℕ) (b : JitEntry)
    → Chained lo end entries
    → last_vma lo entries ≤ b.vma
    → b.vma < max_ends end entries
    → Chained lo end (entries ++ (b ∷ []))
unfolding last_vma max_ends
Chained-snoc [] lo end b c le lt = (le, lt, tt)
Chained-snoc (e ∷ entries) lo end b (a, a', c) le lt =
    (a, a', Chained-snoc entries e.vma _ b c le lt)

max_ends-snoc :
    (entries : List JitEntry) (end : ℕ) (b : JitEntry)
    → max_ends end (entries ++ (b ∷ [])) ≡ max_of (max_ends end entries) (b.vma + b.code_size)
unfolding max_ends
max_ends-snoc [] end b = refl
max_ends-snoc (e ∷ entries) end b = max_ends-snoc entries _ b

last_vma-snoc :
    (entries : List JitEntry) (lo : ℕ) (b : JitEntry) → last_vma lo (entries ++ (b ∷ [])) ≡ b.vma
unfolding last_vma
last_vma-snoc [] lo b = refl
last_vma-snoc (e ∷ entries) lo b = last_vma-snoc entries e.vma b

all_snoc :
    (entries : List JitEntry) (b : JitEntry)
    → AllSane entries
    → IsSane b
    → AllSane (entries ++ (b ∷ []))
all_snoc [] b all s = (s, tt)
all_snoc (e ∷ entries) b (s', all) s = (s', all_snoc entries b all s)

-- A region that is closed: of one entry, or handled.
close_region-Scans :
    (debug : Bool) (first : JitEntry) (members : List JitEntry)
    → IsSane first
    → AllSane members
    → Chained first.vma (first.vma + first.code_size) members
    → (s : Scanned) × (close_region debug first members ≡ some s)
      × Scans (first ∷ members) s
      × (s.found ≡ false → members ≡ [])
unfolding close_region sum
close_region-Scans debug first [] s all c = (
  record { range = first ∷ []; added = []; found = false },
  refl,
  record {
    same = λ x. (λ h. omega arith, λ h. omega arith);
    size_le = omega arith;
    size_lt = λ t. let bad : ⊥ = cc in absurd bad;
    sound = omega (arith, IsSane-faulty first s);
    quiet = λ _. (refl, refl, (omega arith, tt));
  },
  λ _. refl,
)
close_region-Scans debug first (b ∷ members) s all c =
    let (h, run, shr) = handle_overlap_region-Shrinks debug first b members s all c in
    (
      record { range = h.range; added = h.added; found = true },
      rw run refl,
      record {
        same = shr.same;
        size_le = omega (arith, shr.size_lt);
        size_lt = λ _. shr.size_lt;
        sound = shr.sound;
        quiet = λ t. let bad : ⊥ = cc in absurd bad;
      },
      λ t. let bad : ⊥ = cc in absurd bad,
    )

join_iff :
    (a b c d m n : ℕ)
    → (0 < a + b) ↔ (0 < m)
    → (0 < c + d) ↔ (0 < n)
    → (0 < a + c + (b + d)) ↔ (0 < m + n)
join_iff a b c d m n p q = grind arith

or_cases : (a b : Bool) → a || b ≡ true → (a ≡ true) ⊎ (b ≡ true)
or_cases true b h = inl refl
or_cases false b h = inr h

or_none : (a b : Bool) → a || b ≡ false → (a ≡ false) × (b ≡ false)
or_none true b h = let bad : ⊥ = cc in absurd bad
or_none false b h = (refl, h)

-- A closed region, and the scan behind it.
join-Scans :
    (first b : JitEntry) (members rest : List JitEntry) (s t : Scanned)
    → Scans (first ∷ members) s
    → (s.found ≡ false → members ≡ [])
    → Scans (b ∷ rest) t
    → (members ≡ [] → first.vma + first.code_size ≤ b.vma)
    → Scans ((first ∷ members) ++ (b ∷ rest)) (join s t)
join-Scans first b members rest s t c single d apart = record {
  same = λ x.
      rw
        (sums (cover x), sum-append (cover x) s.range t.range, sum-append (cover x) s.added t.added)
        (join_iff _ _ _ _ _ _ (c.same x) (d.same x));
  size_le = omega (
    arith,
    sums live_size,
    sum-append live_size s.range t.range,
    sum-append live_size s.added t.added,
    c.size_le,
    d.size_le,
  );
  size_lt = smaller;
  sound = omega (
    arith,
    sum-append faulty s.range t.range,
    sum-append faulty s.added t.added,
    c.sound,
    d.sound,
  );
  quiet = silent;
}
  where
    sums :
        (f : JitEntry → ℕ)
        → sum f ((first ∷ members) ++ (b ∷ rest)) ≡ sum f (first ∷ members) + sum f (b ∷ rest)
    sums f = sum-append f (first ∷ members) (b ∷ rest)

    smaller :
        s.found || t.found ≡ true
        → sum live_size (s.range ++ t.range) + sum live_size (s.added ++ t.added)
          < sum live_size ((first ∷ members) ++ (b ∷ rest))
    smaller h =
        let m = sum-append live_size s.range t.range in
        let n = sum-append live_size s.added t.added in
        elim (or_cases s.found t.found h) [
          | inl l ↦ omega (arith, m, n, sums live_size, c.size_lt l, d.size_le)
          | inr r ↦ omega (arith, m, n, sums live_size, c.size_le, d.size_lt r)
        ]

    silent :
        s.found || t.found ≡ false
        → (s.range ++ t.range ≡ (first ∷ members) ++ (b ∷ rest))
          × (s.added ++ t.added ≡ [])
          × Apart 0 ((first ∷ members) ++ (b ∷ rest))
    silent h =
        let (l, r) = or_none s.found t.found h in
        let (i, j, _) = c.quiet l in
        let (i', j', (_, a)) = d.quiet r in
        let m = single l in
        (
          rw (i, i') refl,
          rw (j, j') refl,
          subst (λ (ms : List JitEntry). Apart 0 ((first ∷ ms) ++ (b ∷ rest))) (sym m)
              (omega arith, (apart m, a)),
        )

module _ (debug : Bool) where
  -- The scan from a region on.
  scan_from-Scans :
      (rest : List JitEntry) (first : JitEntry) (members : List JitEntry) (end : ℕ)
      → IsSane first
      → AllSane members
      → AllSane rest
      → Chained first.vma (first.vma + first.code_size) members
      → end ≡ max_ends (first.vma + first.code_size) members
      → Ascends (last_vma first.vma members) rest
      → (s : Scanned) × (scan_from debug first members end rest ≡ some s)
        × Scans ((first ∷ members) ++ rest) s
  unfolding scan_from last_vma max_ends
  scan_from-Scans [] first members end s all _ c e up =
      let (t, run, sc, _) = close_region-Scans debug first members s all c in
      (t, run, subst (λ l. Scans l t) (sym (append-nil (first ∷ members))) sc)
  scan_from-Scans (b ∷ rest) first members end s all (sb, more) c e (le, up) =
      elim (Bool-cases (leb end b.vma)) [
        | inl t ↦
            let (u, run, sc, single) = close_region-Scans debug first members s all c in
            let (v, run', sc') =
              scan_from-Scans rest b [] (max_of end (end_addr b)) sb tt more tt
                (rw (end_addr-sane b sb) (ground arith)) up in
            (
              join u v,
              rw (scan_from, t, run, run') refl,
              join-Scans first b members rest u v sc single sc' (λ m.
                  let q : end ≡ first.vma + first.code_size = e ∙ ap (max_ends _) m in
                  ground arith),
            )
        | inr f ↦
            let (v, run', sc') =
              scan_from-Scans rest first (members ++ (b ∷ [])) (max_of end (end_addr b)) s
                (all_snoc members b all sb) more
                (Chained-snoc members _ _ b c le (subst (λ (n : ℕ). b.vma < n) e (ground arith)))
                (rw (max_ends-snoc members (first.vma + first.code_size) b, end_addr-sane b sb, e)
                  refl)
                (rw (last_vma-snoc members first.vma b) up) in
            (
              v,
              rw (scan_from, f, run') refl,
              subst (λ l. Scans l v) (append_assoc (first ∷ members) (b ∷ []) rest) sc',
            )
      ]

  -- A scan of a sorted array of sane entries ends without an error.
  pub scan_overlaps-Scans :
      (entries : List JitEntry)
      → AllSane entries
      → Ascends 0 entries
      → (s : Scanned) × (scan_overlaps debug entries ≡ some s) × Scans entries s
  unfolding scan_overlaps sum last_vma max_ends
  scan_overlaps-Scans [] all up = (
    record { range = []; added = []; found = false },
    refl,
    record {
      same = λ x. (λ h. h, λ h. h);
      size_le = omega arith;
      size_lt = λ t. let bad : ⊥ = cc in absurd bad;
      sound = refl;
      quiet = λ _. (refl, refl, tt);
    },
  )
  scan_overlaps-Scans (a ∷ entries) (s, all) (_, up) =
      scan_from-Scans entries a [] (max_of 0 (end_addr a)) s tt all tt
        (rw (end_addr-sane a s) (ground arith)) up
