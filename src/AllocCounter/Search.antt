-- ===== src/AllocCounter/Search.antt =====
-- `allocate_counter` (libop/op_alloc_counter.c): the search finds an allocation exactly when there
-- is one.
use native.Mathlib.Decide.{ℕ_discrete}
use mathlib.Core.Option.{some-injective, none-ne-some}
use oprofile.Base.{
  ℕ, ◌^◌, ◌≡◌, ◌≢◌, refl, sym, subst, ◌↔◌, inl, inr, bit_and, bit_or, Option, some, none, List, [],
  ◌∷◌, arith, ◌==◌, Bool-cases, ==_iff, Option-cases,
}
use oprofile.Base.Bits.{bit, bit-bit_or, bit-pow_self, bit-pow_ne, bit_of_test, test_of_bit}
use oprofile.AllocCounter.{no_counter, try_counters, allocate_counter}
use oprofile.AllocCounter.Arcs.{In}

-- No event that has counters is given `c`.
abbrev pub Apart : ℕ → List (List ℕ) → List ℕ → Type 0
Apart c [] counter_map = Unit
Apart c (arcs ∷ ctr_arc) [] = Unit
Apart c ([] ∷ ctr_arc) (d ∷ counter_map) = Apart c ctr_arc counter_map
Apart c ((x ∷ xs) ∷ ctr_arc) (d ∷ counter_map) = (c ≢ d) × Apart c ctr_arc counter_map

-- Every event has one of its counters, not an unavailable one and not another event's; an event
-- without counters has none.
abbrev pub IsAllocation : List (List ℕ) → ℕ → List ℕ → Type 0
IsAllocation [] mask [] = Unit
IsAllocation [] mask (c ∷ counter_map) = ⊥
IsAllocation (arcs ∷ ctr_arc) mask [] = ⊥
IsAllocation ([] ∷ ctr_arc) mask (c ∷ counter_map) =
    (c ≡ no_counter) × IsAllocation ctr_arc mask counter_map
IsAllocation ((x ∷ xs) ∷ ctr_arc) mask (c ∷ counter_map) =
    In c (x ∷ xs)
    × (bit mask c ≡ 0)
    × Apart c ctr_arc counter_map
    × IsAllocation ctr_arc mask counter_map

free_iff : (mask c d : ℕ) → bit (bit_or mask (2 ^ c)) d ≡ 0 ↔ ((bit mask d ≡ 0) × (c ≢ d))
free_iff mask c d = elim (ℕ_discrete c d) [
  | yes e ↦
      let one : bit (2 ^ c) d ≡ 1 = subst (λ k. bit (2 ^ c) k ≡ 1) e (bit-pow_self c) in
      (λ h. absurd (omega (arith, bit-bit_or d mask (2 ^ c))), λ h. absurd (h.1 e))
  | no n ↦ (
    λ h. (omega (arith, bit-bit_or d mask (2 ^ c)), n),
    λ h. omega (arith, bit-bit_or d mask (2 ^ c), bit-pow_ne c d n),
  )
]

-- To take `c` is to be apart from the events that come later.
taken_iff :
    (ctr_arc : List (List ℕ)) (mask c : ℕ) (counter_map : List ℕ)
    → IsAllocation ctr_arc (bit_or mask (2 ^ c)) counter_map
      ↔ (IsAllocation ctr_arc mask counter_map × Apart c ctr_arc counter_map)
taken_iff [] mask c [] = (λ h. (tt, tt), λ h. tt)
taken_iff [] mask c (d ∷ m) = (λ h. absurd h, λ h. absurd h.0)
taken_iff (arcs ∷ ctr_arc) mask c [] = (λ h. absurd h, λ h. absurd h.0)
taken_iff ([] ∷ ctr_arc) mask c (d ∷ m) =
    let ih = taken_iff ctr_arc mask c m in
    (λ h. ((h.0, (ih.0 h.1).0), (ih.0 h.1).1), λ h. (h.0.0, ih.1 (h.0.1, h.1)))
taken_iff ((x ∷ xs) ∷ ctr_arc) mask c (d ∷ m) =
    let ih = taken_iff ctr_arc mask c m in
    let free = free_iff mask c d in
    (
      λ h.
          let (rest, apart) = ih.0 h.3 in
          let (f, ne) = free.0 h.1 in ((h.0, f, h.2, rest), (ne, apart)),
      λ h. (h.0.0, free.1 (h.0.1, h.1.0), h.0.2, ih.1 (h.0.3, h.1.1)),
    )

-- What a successful `list_for_each` has found, and that it finds what there is.
module _ (deeper : ℕ → Option (List ℕ)) (mask : ℕ) where
  abbrev Takes : List ℕ → List ℕ → Type 0
  Takes arcs [] = ⊥
  Takes arcs (c ∷ counter_map) =
      In c arcs × (bit mask c ≡ 0) × (deeper (bit_or mask (2 ^ c)) ≡ some counter_map)

  Takes-later :
      (c : ℕ) (arcs counter_map : List ℕ) → Takes arcs counter_map → Takes (c ∷ arcs) counter_map
  Takes-later c arcs [] t = absurd t
  Takes-later c arcs (d ∷ m) t = (inr t.0, t.1, t.2)

  try_counters-Takes :
      (arcs counter_map : List ℕ)
      → try_counters deeper mask arcs ≡ some counter_map
      → Takes arcs counter_map
  unfolding try_counters
  try_counters-Takes [] m h = let bad : ⊥ = cc in absurd bad
  try_counters-Takes (c ∷ arcs) m h = elim (Bool-cases (bit_and mask (2 ^ c) == 0)) [
    | inr f ↦ Takes-later c arcs m (try_counters-Takes arcs m (rw f at h))
    | inl t ↦ elim (Option-cases (deeper (bit_or mask (2 ^ c)))) [
      | inl e ↦ Takes-later c arcs m (try_counters-Takes arcs m (rw (t, e) at h))
      | inr (d, e) ↦
          subst (Takes (c ∷ arcs)) (some-injective _ _ (rw (t, e) at h))
            (inl refl, bit_of_test mask c ((==_iff _ 0).0 t), e)
    ]
  ]

  try_counters-ne-none :
      (c : ℕ) (arcs : List ℕ)
      → In c arcs
      → bit mask c ≡ 0
      → deeper (bit_or mask (2 ^ c)) ≢ none
      → try_counters deeper mask arcs ≢ none
  unfolding try_counters
  try_counters-ne-none c [] i z d h = i
  try_counters-ne-none c (x ∷ arcs) (inl e) z d h =
      let t = (==_iff _ 0).1 (test_of_bit mask c z) in
      elim (Option-cases (deeper (bit_or mask (2 ^ c)))) [
        | inl n ↦ d n
        | inr (m, s) ↦
            let h' : try_counters deeper mask (c ∷ arcs) ≡ none =
              subst (λ k. try_counters deeper mask (k ∷ arcs) ≡ none) (sym e) h in
            none-ne-some _ (sym (rw (t, s) at h'))
      ]
  try_counters-ne-none c (x ∷ arcs) (inr i) z d h =
      let later = try_counters-ne-none c arcs i z d in
      elim (Bool-cases (bit_and mask (2 ^ x) == 0)) [
        | inr f ↦ later (rw f at h)
        | inl t ↦ elim (Option-cases (deeper (bit_or mask (2 ^ x)))) [
          | inl e ↦ later (rw (t, e) at h)
          | inr (m, e) ↦ none-ne-some _ (sym (rw (t, e) at h))
        ]
      ]

-- An allocation that the search returns is one.
allocate_counter_sound :
    (ctr_arc : List (List ℕ)) (mask : ℕ) (counter_map : List ℕ)
    → allocate_counter ctr_arc mask ≡ some counter_map
    → IsAllocation ctr_arc mask counter_map
unfolding allocate_counter
allocate_counter_sound [] mask [] h = tt
allocate_counter_sound [] mask (c ∷ m) h = let bad : ⊥ = cc in bad
allocate_counter_sound ([] ∷ ctr_arc) mask m h =
    elim (Option-cases (allocate_counter ctr_arc mask)) [
      | inl e ↦ absurd (none-ne-some _ (rw e at h))
      | inr (d, e) ↦
          subst (IsAllocation ([] ∷ ctr_arc) mask) (some-injective _ _ (rw e at h))
            (refl, allocate_counter_sound ctr_arc mask d e)
    ]
allocate_counter_sound ((x ∷ xs) ∷ ctr_arc) mask [] h =
    try_counters-Takes (allocate_counter ctr_arc) mask (x ∷ xs) [] h
allocate_counter_sound ((x ∷ xs) ∷ ctr_arc) mask (c ∷ m) h =
    let (i, z, run) = try_counters-Takes (allocate_counter ctr_arc) mask (x ∷ xs) (c ∷ m) h in
    let (rest, apart) =
      (taken_iff ctr_arc mask c m).0 (allocate_counter_sound ctr_arc (bit_or mask (2 ^ c)) m run) in
    (i, z, apart, rest)

-- Where there is an allocation the search returns one.
allocate_counter_complete :
    (ctr_arc : List (List ℕ)) (mask : ℕ) (counter_map : List ℕ)
    → IsAllocation ctr_arc mask counter_map
    → allocate_counter ctr_arc mask ≢ none
unfolding allocate_counter
allocate_counter_complete [] mask m a h = none-ne-some _ (sym h)
allocate_counter_complete ([] ∷ ctr_arc) mask [] a h = a
allocate_counter_complete ([] ∷ ctr_arc) mask (c ∷ m) a h =
    elim (Option-cases (allocate_counter ctr_arc mask)) [
      | inl e ↦ allocate_counter_complete ctr_arc mask m a.1 e
      | inr (d, e) ↦ none-ne-some _ (sym (rw e at h))
    ]
allocate_counter_complete ((x ∷ xs) ∷ ctr_arc) mask [] a h = a
allocate_counter_complete ((x ∷ xs) ∷ ctr_arc) mask (c ∷ m) a h =
    try_counters-ne-none (allocate_counter ctr_arc) mask c (x ∷ xs) a.0 a.1
      (allocate_counter_complete ctr_arc (bit_or mask (2 ^ c)) m
        ((taken_iff ctr_arc mask c m).1 (a.3, a.2)))
      h

-- The backtracking search decides: a counter map that it returns gives every event with counters
-- one of its own counters, available and not given to another event, and every other event none;
-- when it returns 0, no such map exists.
pub allocate_counter-IsAllocation :
    (ctr_arc : List (List ℕ)) (mask : ℕ)
    → ((counter_map : List ℕ)
        → allocate_counter ctr_arc mask ≡ some counter_map
        → IsAllocation ctr_arc mask counter_map)
      × (allocate_counter ctr_arc mask ≡ none
          → (counter_map : List ℕ) → ¬ IsAllocation ctr_arc mask counter_map)
allocate_counter-IsAllocation ctr_arc mask =
    (allocate_counter_sound ctr_arc mask, λ h m a. allocate_counter_complete ctr_arc mask m a h)
