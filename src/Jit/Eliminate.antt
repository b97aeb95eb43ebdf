-- ===== src/Jit/Eliminate.antt =====
-- `eliminate_overlaps` of opjitconv/jitsymbol.c over a range of sane entries.
use oprofile.Base.{
  ℕ, zero, suc, ◌+◌, ◌≤◌, ◌<◌, ◌≡◌, ◌≢◌, ◌⊎◌, refl, Bool, true, false, inl, inr, some, List, [],
  ◌∷◌, ◌++◌, get_elem?, ◌==◌, arith, Bool-cases,
}
use oprofile.Jit.{
  JitEntry, right_part, split_entry, is_overlapping, Eliminated, is_sound, eliminate_one,
  eliminate_from, ulong_max,
}
use oprofile.Jit.Entries.{
  sum, covers, cover, live_size, faulty, IsSane, IsSane-faulty, end_addr-sane, split-cover_le,
  split-cover_eq, split-live_size, split-faulty,
}

pub sum-append : (f : JitEntry → ℕ) (xs ys : List JitEntry) → sum f (xs ++ ys) ≡ sum f xs + sum f ys
unfolding sum
sum-append f [] ys = omega arith
sum-append f (x ∷ xs) ys = omega (arith, sum-append f xs ys)

abbrev pub AllSane : List JitEntry → Type 0
AllSane [] = Unit
AllSane (e ∷ entries) = IsSane e × AllSane entries

-- An entry other than that of index `idx` overlaps the one to keep; the first has index `i`.
abbrev pub Touches : JitEntry → ℕ → ℕ → List JitEntry → Type 0
Touches keep idx i [] = ⊥
Touches keep idx i (e ∷ entries) =
    ((i ≢ idx) × (is_overlapping keep e ≡ true)) ⊎ Touches keep idx (i + 1) entries

-- What is left of a range covers what it covered but for what the entry to keep covers; it is smaller
-- if something overlapped; the entry to keep stays.
pub record Reduces (keep : JitEntry) (idx i : ℕ) (entries : List JitEntry) (r : Eliminated)
    : Type 0 where
  pub cover_le : (x : ℕ) → sum (cover x) r.range + sum (cover x) r.added ≤ sum (cover x) entries
  pub cover_eq :
      (x : ℕ)
      → covers x keep ≡ false
      → sum (cover x) r.range + sum (cover x) r.added ≡ sum (cover x) entries
  pub size_le : sum live_size r.range + sum live_size r.added ≤ sum live_size entries
  pub size_lt :
      Touches keep idx i entries
      → sum live_size r.range + sum live_size r.added < sum live_size entries
  pub sound : sum faulty r.range + sum faulty r.added ≡ 0
  pub span : (r.min_start ≤ r.max_end) × (r.max_end < ulong_max)
  pub stays :
      (j : ℕ) (e : JitEntry)
      → get_elem? entries j ≡ some e
      → i + j ≡ idx
      → get_elem? r.range j ≡ some e

abbrev skipped : JitEntry → Eliminated → Eliminated
skipped e r = record r { range = e ∷ r.range }

module _ (keep : JitEntry) (k : IsSane keep) (idx i : ℕ) (e : JitEntry) (s : IsSane e)
    (entries : List JitEntry) (r : Eliminated) (ih : Reduces keep idx (i + 1) entries r) where
  stays_skipped :
      (j : ℕ) (e' : JitEntry)
      → get_elem? (e ∷ entries) j ≡ some e'
      → i + j ≡ idx
      → get_elem? (e ∷ r.range) j ≡ some e'
  stays_skipped zero e' h at = h
  stays_skipped (suc j) e' h at = ih.stays j e' h (omega arith)

  stays_split :
      (left : JitEntry)
      → i ≢ idx
      → (j : ℕ) (e' : JitEntry) → get_elem? (e ∷ entries) j ≡ some e'
      → i + j ≡ idx
      → get_elem? (left ∷ r.range) j ≡ some e'
  stays_split left ne zero e' h at = absurd (ne (omega arith))
  stays_split left ne (suc j) e' h at = ih.stays j e' h (omega arith)

  -- An entry that stays as it is.
  skipped-Reduces :
      ((i ≢ idx) → is_overlapping keep e ≡ false) → Reduces keep idx i (e ∷ entries) (skipped e r)
  unfolding sum
  skipped-Reduces apart = record {
    cover_le = λ x. omega (arith, ih.cover_le x);
    cover_eq = λ x h. omega (arith, ih.cover_eq x h);
    size_le = omega (arith, ih.size_le);
    size_lt = λ t. elim t [
      | inl (ne, o) ↦
          let f : is_overlapping keep e ≡ false = apart ne in let bad : ⊥ = cc in absurd bad
      | inr t' ↦ omega (arith, ih.size_lt t')
    ];
    sound = omega (arith, ih.sound, IsSane-faulty e s);
    span = ih.span;
    stays = stays_skipped;
  }

  parts :
      (f : JitEntry → ℕ)
      → sum f (right_part e keep ++ r.added) ≡ sum f (right_part e keep) + sum f r.added
  parts f = sum-append f (right_part e keep) r.added

  -- An entry that is split.
  split-Reduces :
      i ≢ idx
      → is_overlapping keep e ≡ true
      → Reduces keep idx i (e ∷ entries) (eliminate_one keep e r)
  unfolding eliminate_one split_entry sum
  split-Reduces ne o = rw o (record {
    cover_le = λ x. omega (arith, parts (cover x), split-cover_le e keep s k o x, ih.cover_le x);
    cover_eq =
        λ x h. omega (arith, parts (cover x), split-cover_eq e keep s k o x h, ih.cover_eq x h);
    size_le = omega (arith, parts live_size, split-live_size e keep s k o, ih.size_le);
    size_lt = λ t. omega (arith, parts live_size, split-live_size e keep s k o, ih.size_le);
    sound = omega (arith, parts faulty, split-faulty e keep s k o, ih.sound);
    span = (ground (arith, ih.span, s.lives, s.ends), ground (arith, ih.span, s.lives, s.ends));
    stays = stays_split _ ne;
  })

-- Entries of which the one to keep is at `idx` are reduced, also under the asserts.
module _ (keep : JitEntry) (k : IsSane keep) (debug : Bool) (idx : ℕ) where
  is_sound-sane : (e : JitEntry) → IsSane e → is_sound debug keep e ≡ true
  unfolding is_sound
  is_sound-sane e s = rw (end_addr-sane e s, end_addr-sane keep k) (ground arith)

  eliminate_one-Reduces :
      (i : ℕ) (e : JitEntry)
      → IsSane e
      → (entries : List JitEntry) (r : Eliminated) → i ≢ idx
      → Reduces keep idx (i + 1) entries r
      → Reduces keep idx i (e ∷ entries) (eliminate_one keep e r)
  unfolding eliminate_one
  eliminate_one-Reduces i e s entries r ne ih = elim (Bool-cases (is_overlapping keep e)) [
    | inl o ↦ split-Reduces keep k idx i e s entries r ih ne o
    | inr f ↦ rw f (skipped-Reduces keep k idx i e s entries r ih (λ _. f))
  ]

  pub eliminate_from-Reduces :
      (entries : List JitEntry) (i : ℕ)
      → AllSane entries
      → (r : Eliminated) × (eliminate_from debug keep idx i entries ≡ some r)
        × Reduces keep idx i entries r
  unfolding eliminate_from sum
  eliminate_from-Reduces [] i all = (
    record { range = []; added = []; min_start = keep.life_start; max_end = keep.life_end },
    refl,
    record {
      cover_le = λ x. omega arith;
      cover_eq = λ x h. refl;
      size_le = omega arith;
      size_lt = λ t. absurd t;
      sound = refl;
      span = (k.lives, k.ends);
      stays = λ j e h at. let bad : ⊥ = cc in absurd bad;
    },
  )
  eliminate_from-Reduces (e ∷ entries) i (s, all) =
      let (r, run, red) = eliminate_from-Reduces entries (i + 1) all in
      elim (Bool-cases (i == idx)) [
        | inl t ↦ (
          skipped e r,
          rw (eliminate_from, t, run) refl,
          skipped-Reduces keep k idx i e s entries r red (λ ne. absurd (ground arith)),
        )
        | inr f ↦ (
          eliminate_one keep e r,
          rw (eliminate_from, f, run, is_sound-sane e s) refl,
          eliminate_one-Reduces i e s entries r (λ eq. absurd (ground arith)) red,
        )
      ]
