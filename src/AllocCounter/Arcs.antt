-- ===== src/AllocCounter/Arcs.antt =====
-- `build_counter_arc` (libop/op_alloc_counter.c): the counters of a mask.
use oprofile.Base.{
  ℕ, zero, suc, ◌+◌, ◌-◌, ◌^◌, ◌≤◌, ◌<◌, ◌≡◌, sym, subst, ◌↔◌, ◌⊎◌, inl, inr, bit_and, List, [],
  ◌∷◌, arith, ◌==◌, if◌then◌else◌, Bool-cases,
}
use native.Mathlib.Decide.{ℕ_discrete, dec_lt}
use native.Mathlib.Nat.{pow-suc}
use oprofile.Base.Bits.{
  bit, bit-lt, bit-zero, bit-bit_and, bit-pow_self, bit-pow_ne, bit-complement, bit_of_test,
  pow-pos, test_of_bit,
}
use oprofile.AllocCounter.{cleared, mask_arcs}

abbrev pub In : ℕ → List ℕ → Type 0
In c [] = ⊥
In c (x ∷ xs) = (c ≡ x) ⊎ In c xs

-- In strictly increasing order, from `lo` on.
abbrev pub Increasing : ℕ → List ℕ → Type 0
Increasing lo [] = Unit
Increasing lo (x ∷ xs) = (lo ≤ x) × Increasing (suc x) xs

Increasing-le : (lo hi : ℕ) (xs : List ℕ) → lo ≤ hi → Increasing hi xs → Increasing lo xs
Increasing-le lo hi [] h i = tt
Increasing-le lo hi (x ∷ xs) h i = (omega (arith, i.0), i.1)

pow-lt : (i j : ℕ) → i < j → 2 ^ i < 2 ^ j
pow-lt i zero h = elim h [ ]
pow-lt i (suc j) h = elim (dec_lt i j) [
  | yes q ↦ omega (arith, pow-lt i j q, pow-suc 2 j)
  | no q ↦
      let e : j ≡ i = omega arith in
      subst (λ k. 2 ^ k < 2 ^ suc j) e (omega (arith, pow-suc 2 j, pow-pos j))
]

bit-cleared :
    (mask j i : ℕ) → i < 32 → j < 32 → bit (cleared mask j) i ≡ (if i == j then 0 else bit mask i)
bit-cleared mask j i h k =
    let fits : 2 ^ j < 2 ^ 32 = pow-lt j 32 k in
    elim (ℕ_discrete i j) [
      | yes e ↦ ground (
        arith,
        bit-bit_and i mask (2 ^ 32 - 1 - 2 ^ j),
        bit-complement 32 i (2 ^ j) h fits,
        subst (λ t. bit (2 ^ t) i ≡ 1) e (bit-pow_self i),
        e,
      )
      | no n ↦ ground (
        arith,
        bit-bit_and i mask (2 ^ 32 - 1 - 2 ^ j),
        bit-complement 32 i (2 ^ j) h fits,
        bit-pow_ne j i (λ e. n (sym e)),
        bit-lt i mask,
        n,
      )
    ]

-- What the loop has to list.
abbrev Listed : ℕ → ℕ → Type 0
Listed mask c = (c < 32) × (bit mask c ≡ 1)

low_next :
    (mask j : ℕ)
    → bit mask j ≡ 0
    → ((i : ℕ) → i < j → bit mask i ≡ 0)
    → (i : ℕ) → i < suc j
    → bit mask i ≡ 0
low_next mask j h low i b = elim (dec_lt i j) [
  | yes q ↦ low i q
  | no q ↦ let e : j ≡ i = omega arith in subst (λ k. bit mask k ≡ 0) e h
]

low_cleared :
    (mask j : ℕ)
    → j < 32
    → ((i : ℕ) → i < j → bit mask i ≡ 0)
    → (i : ℕ) → i < suc j
    → bit (cleared mask j) i ≡ 0
low_cleared mask j k low i b = ground (arith, bit-cleared mask j i, low i)

-- A hit lists `j`, and then what is left of the mask.
hit_iff :
    (j mask c : ℕ) (rest : List ℕ)
    → j < 32
    → bit mask j ≡ 1
    → In c rest ↔ Listed (cleared mask j) c
    → In c (j ∷ rest) ↔ Listed mask c
hit_iff j mask c rest k one ih = (to, from)
  where
    to : In c (j ∷ rest) → Listed mask c
    to (inl e) = subst (Listed mask) (sym e) (k, one)
    to (inr h) = let (b, o) = ih.0 h in (b, ground (arith, bit-cleared mask j c b k))

    from : Listed mask c → In c (j ∷ rest)
    from (b, o) = elim (ℕ_discrete c j) [
      | yes e ↦ inl e
      | no n ↦ inr (ih.1 (b, ground (arith, bit-cleared mask j c b k)))
    ]

mask_arcs-In_go :
    (rounds j mask c : ℕ)
    → rounds + j ≡ 32
    → ((i : ℕ) → i < j → bit mask i ≡ 0)
    → In c (mask_arcs rounds j mask) ↔ Listed mask c
unfolding mask_arcs
mask_arcs-In_go zero j mask c e low = (λ h. absurd h, λ h. ground (arith, low c))
mask_arcs-In_go (suc rounds) j mask c e low = elim (Bool-cases (mask == 0)) [
  | inl z ↦
      let empty : mask ≡ 0 = ground arith in
      rw z (
        λ h. absurd h,
        λ h. absurd (omega (arith, h.1, subst (λ m. bit m c ≡ 0) (sym empty) (bit-zero c))),
      )
  | inr nz ↦ rw nz (elim (Bool-cases (bit_and mask (2 ^ j) == 0)) [
    | inl miss ↦
        let zero_bit : bit mask j ≡ 0 = bit_of_test mask j (ground arith) in
        rw miss (mask_arcs-In_go rounds (suc j) mask c (omega arith) (low_next mask j zero_bit low))
    | inr hit ↦
        let one_bit : bit mask j ≡ 1 = ground (arith, bit-lt j mask, test_of_bit mask j) in
        rw hit (
          hit_iff j mask c (mask_arcs rounds (suc j) (cleared mask j)) (omega arith) one_bit (
            mask_arcs-In_go rounds (suc j) (cleared mask j) c (omega arith)
              (low_cleared mask j (omega arith) low)))
  ])
]

mask_arcs-Increasing : (rounds j mask : ℕ) → Increasing j (mask_arcs rounds j mask)
unfolding mask_arcs
mask_arcs-Increasing zero j mask = tt
mask_arcs-Increasing (suc rounds) j mask = elim (Bool-cases (mask == 0)) [
  | inl z ↦ rw z tt
  | inr nz ↦ rw nz (elim (Bool-cases (bit_and mask (2 ^ j) == 0)) [
    | inl miss ↦
        rw miss (Increasing-le j (suc j) _ (omega arith) (mask_arcs-Increasing rounds (suc j) mask))
    | inr hit ↦ rw hit (omega arith, mask_arcs-Increasing rounds (suc j) (cleared mask j))
  ])
]

-- The counters listed for an event are the numbers below 32 of the bits that are set in its
-- counter mask, in increasing order.
pub mask_arcs-In :
    (mask : ℕ)
    → Increasing 0 (mask_arcs 32 0 mask)
      × ((c : ℕ) → In c (mask_arcs 32 0 mask) ↔ ((c < 32) × (bit mask c ≡ 1)))
mask_arcs-In mask = (
  mask_arcs-Increasing 32 0 mask,
  λ c. mask_arcs-In_go 32 0 mask c (omega arith) (λ i h. absurd (omega arith)),
)
