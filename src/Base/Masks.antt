-- ===== src/Base/Masks.antt =====
-- The lowest bits of a number under `^` and `&`.
use Prim.Native.Nat.{
  ℕ, zero, suc, ◌+◌, ◌*◌, ◌/◌, ◌%◌, ◌≤◌, ◌<◌, ◌-◌, ◌^◌, bit_and, bit_xor, differ, bit_xor-bitwise,
}
use mathlib.Core.Path.{◌≡◌, refl, sym, ◌∙◌}
use native.Mathlib.Nat.{pow-suc}
use native.Mathlib.Omega.{arith}
use native.Mathlib.Decide.{dec_lt}
use oprofile.Base.Bits.{bit, bit-zero, bit_and_step, bit_and-le, lowest_digit}

bit_xor_step : (x y : ℕ) → bit_xor x y ≡ bit_xor (x / 2) (y / 2) * 2 + differ (x % 2) (y % 2)
bit_xor_step zero y = simp bit_xor-bitwise (omega arith)
bit_xor_step (suc x) y = simp bit_xor-bitwise (lowest_digit (λ b. b) differ x y)

differ_lt : (a b : ℕ) → differ (a % 2) (b % 2) < 2
differ_lt a b = elim (dec_lt (a % 2) 1) [
  | yes h ↦ let e : a % 2 ≡ 0 = omega arith in rw e (omega arith)
  | no h ↦
      let e : a % 2 ≡ 1 = omega arith in
      elim (dec_lt (b % 2) 1) [
        | yes h' ↦ let e' : b % 2 ≡ 0 = omega arith in rw (e, e') (omega arith)
        | no h' ↦ let e' : b % 2 ≡ 1 = omega arith in rw (e, e') (omega arith)
      ]
]

-- The lowest `w` bits of two numbers are the same.
abbrev pub AgreeBelow : ℕ → ℕ → ℕ → Type 0
AgreeBelow zero a b = Unit
AgreeBelow (suc w) a b = (a % 2 ≡ b % 2) × AgreeBelow w (a / 2) (b / 2)

pub AgreeBelow-refl : (w a : ℕ) → AgreeBelow w a a
AgreeBelow-refl zero a = tt
AgreeBelow-refl (suc w) a = (refl, AgreeBelow-refl w (a / 2))

pub AgreeBelow-bit_xor :
    (w a a' b b' : ℕ)
    → AgreeBelow w a a'
    → AgreeBelow w b b'
    → AgreeBelow w (bit_xor a b) (bit_xor a' b')
AgreeBelow-bit_xor zero a a' b b' h k = tt
AgreeBelow-bit_xor (suc w) a a' b b' (h, hs) (k, ks) =
    let half : (x y : ℕ) → bit_xor x y / 2 ≡ bit_xor (x / 2) (y / 2) =
      λ x y. omega (arith, bit_xor_step x y, differ_lt x y) in
    let low : (x y : ℕ) → bit_xor x y % 2 ≡ differ (x % 2) (y % 2) =
      λ x y. omega (arith, bit_xor_step x y, differ_lt x y) in
    (
      low a b ∙ (λ i. differ (h i) (k i)) ∙ sym (low a' b'),
      rw (half a b, half a' b') (AgreeBelow-bit_xor w (a / 2) (a' / 2) (b / 2) (b' / 2) hs ks),
    )

-- A mask of `w` bits reads no others.
pub AgreeBelow-bit_and :
    (w a a' mask : ℕ) → mask < 2 ^ w → AgreeBelow w a a' → bit_and a mask ≡ bit_and a' mask
AgreeBelow-bit_and zero a a' mask small h = omega (arith, bit_and-le a mask, bit_and-le a' mask)
AgreeBelow-bit_and (suc w) a a' mask small (h, hs) =
    let upper = AgreeBelow-bit_and w (a / 2) (a' / 2) (mask / 2) (omega (arith, pow-suc 2 w)) hs in
    omega (arith, bit_and_step a mask, bit_and_step a' mask, h, upper)

-- Values of 64 bits that are one in 32 have the same 11 lowest bits.
pub AgreeBelow-u32 : (a b : ℕ) → a % 2 ^ 32 ≡ b % 2 ^ 32 → AgreeBelow 11 a b
AgreeBelow-u32 a b h = omega (arith, h)

-- A shifted number is a double.
shift_suc : (y w : ℕ) → y * 2 ^ suc w ≡ y * 2 ^ w * 2
shift_suc y w = grind (arith, pow-suc 2 w)

bit-add_shifted : (w x y j : ℕ) → j < w → bit (x + y * 2 ^ w) j ≡ bit x j
unfolding bit
bit-add_shifted zero x y j h = absurd (omega arith)
bit-add_shifted (suc w) x y zero h = omega (arith, shift_suc y w)
bit-add_shifted (suc w) x y (suc j) h =
    let half : (x + y * 2 ^ suc w) / 2 ≡ x / 2 + y * 2 ^ w = omega (arith, shift_suc y w) in
    rw half (bit-add_shifted w (x / 2) y j (omega arith))

-- A value of 32 bits keeps its bits.
pub bit-cut : (a j : ℕ) → j < 32 → bit (a % 2 ^ 32) j ≡ bit a j
bit-cut a j h =
    let whole : a % 2 ^ 32 + a / 2 ^ 32 * 2 ^ 32 ≡ a = omega arith in
    sym (bit-add_shifted 32 (a % 2 ^ 32) (a / 2 ^ 32) j h) ∙ (λ i. bit (whole i) j)

-- Below the shift there are zeros, from it on the bits of the number.
pub bit-shifted : (n x j : ℕ) → j < n → bit (x * 2 ^ n) j ≡ 0
unfolding bit
bit-shifted n x j h =
    let none : x * 2 ^ n ≡ 0 + x * 2 ^ n = omega arith in
    (λ i. bit (none i) j) ∙ bit-add_shifted n 0 x j h ∙ bit-zero j

pub bit-unshifted : (n x j : ℕ) → n ≤ j → bit (x * 2 ^ n) j ≡ bit x (j - n)
unfolding bit
bit-unshifted zero x j h =
    let same : x * 2 ^ 0 ≡ x = omega arith in
    let place : j ≡ j - 0 = omega arith in λ i. bit (same i) (place i)
bit-unshifted (suc n) x zero h = absurd (omega arith)
bit-unshifted (suc n) x (suc j) h =
    let half : x * 2 ^ suc n / 2 ≡ x * 2 ^ n = omega (arith, shift_suc x n) in
    let place : j - n ≡ suc j - suc n = omega arith in
    rw half (bit-unshifted n x j (omega arith)) ∙ (λ i. bit x (place i))
