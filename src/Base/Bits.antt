-- ===== src/Base/Bits.antt =====
-- Laws of the bit operations at variables, from the digit recursion that they stand for.
use Prim.Native.Nat.{
  ℕ, zero, suc, ◌+◌, ◌*◌, ◌/◌, ◌%◌, ◌≤◌, ◌<◌, ◌-◌, ◌^◌, min, max, bit_and, bit_or, digits,
  bit_and-bitwise, bit_or-bitwise,
}
use native.Mathlib.Nat.{pow-suc}
use mathlib.Core.Path.{◌≡◌, refl, sym, subst}
use native.Mathlib.Decide.{ℕ_discrete}
use mathlib.Core.Logic.{◌≢◌}
use native.Mathlib.Omega.{arith}

-- The recursion behind the native operations gives one result for all the fuel that suffices, so
-- the fuel drops out of the equation for the lowest digit.
module _ (rest : ℕ → ℕ) (op : ℕ → ℕ → ℕ) where
  digits_stable : (k l x y : ℕ) → x ≤ k → x ≤ l → digits rest op k x y ≡ digits rest op l x y
  digits_stable (suc k) (suc l) (suc x) y hk hl =
      let tail = digits_stable k l (suc x / 2) (y / 2) (omega arith) (omega arith) in cc tail
  digits_stable (suc k) (suc l) zero y hk hl = refl
  digits_stable (suc k) zero zero y hk hl = refl
  digits_stable (suc k) zero (suc x) y hk hl = elim hl [ ]
  digits_stable zero (suc l) zero y hk hl = refl
  digits_stable zero zero zero y hk hl = refl
  digits_stable zero l (suc x) y hk hl = elim hk [ ]

  pub lowest_digit :
      (x y : ℕ)
      → digits rest op (suc x) (suc x) y
        ≡ digits rest op (suc x / 2) (suc x / 2) (y / 2) * 2 + op (suc x % 2) (y % 2)
  lowest_digit x y =
      let tail = digits_stable x (suc x / 2) (suc x / 2) (y / 2) (omega arith) (omega arith) in
      cc tail

pub bit_and_step : (x y : ℕ) → bit_and x y ≡ bit_and (x / 2) (y / 2) * 2 + min (x % 2) (y % 2)
bit_and_step zero y = simp bit_and-bitwise (omega arith)
bit_and_step (suc x) y = simp bit_and-bitwise (lowest_digit (λ _. 0) min x y)

pub bit_or_step : (x y : ℕ) → bit_or x y ≡ bit_or (x / 2) (y / 2) * 2 + max (x % 2) (y % 2)
bit_or_step zero y = simp bit_or-bitwise (omega arith)
bit_or_step (suc x) y = simp bit_or-bitwise (lowest_digit (λ t. t) max x y)

zero-bit_and : (y : ℕ) → bit_and 0 y ≡ 0
zero-bit_and y = simp bit_and-bitwise

bit_and-le_fuel : (n a b : ℕ) → a ≤ n → bit_and a b ≤ b
bit_and-le_fuel n zero b h = omega (arith, zero-bit_and b)
bit_and-le_fuel zero (suc a) b h = absurd (omega arith)
bit_and-le_fuel (suc n) (suc a) b h =
    omega (arith, bit_and_step (suc a) b, bit_and-le_fuel n (suc a / 2) (b / 2) (omega arith))

-- A masked value is at most the mask.
pub bit_and-le : (a b : ℕ) → bit_and a b ≤ b
bit_and-le a b = bit_and-le_fuel a a b (omega arith)

-- The digit of weight 2 ^ j.
unfoldable pub bit : ℕ → ℕ → ℕ
bit a zero = a % 2
bit a (suc j) = bit (a / 2) j

pub bit-bit_and : (j a b : ℕ) → bit (bit_and a b) j ≡ min (bit a j) (bit b j)
unfolding bit
bit-bit_and zero a b = omega (arith, bit_and_step a b)
bit-bit_and (suc j) a b =
    let half : bit_and a b / 2 ≡ bit_and (a / 2) (b / 2) = omega (arith, bit_and_step a b) in
    rw half (bit-bit_and j (a / 2) (b / 2))

pub bit-bit_or : (j a b : ℕ) → bit (bit_or a b) j ≡ max (bit a j) (bit b j)
unfolding bit
bit-bit_or zero a b = omega (arith, bit_or_step a b)
bit-bit_or (suc j) a b =
    let half : bit_or a b / 2 ≡ bit_or (a / 2) (b / 2) = omega (arith, bit_or_step a b) in
    rw half (bit-bit_or j (a / 2) (b / 2))

pub bit-zero : (j : ℕ) → bit 0 j ≡ 0
unfolding bit
bit-zero zero = refl
bit-zero (suc j) = bit-zero j

pub bit-pow_self : (i : ℕ) → bit (2 ^ i) i ≡ 1
unfolding bit
bit-pow_self zero = refl
bit-pow_self (suc i) =
    let half : 2 ^ suc i / 2 ≡ 2 ^ i = omega (arith, pow-suc 2 i) in rw half (bit-pow_self i)

pub bit-pow_ne : (i j : ℕ) → i ≢ j → bit (2 ^ i) j ≡ 0
unfolding bit
bit-pow_ne zero zero h = absurd (omega arith)
bit-pow_ne zero (suc j) h = bit-zero j
bit-pow_ne (suc i) zero h = omega (arith, pow-suc 2 i)
bit-pow_ne (suc i) (suc j) h =
    let half : 2 ^ suc i / 2 ≡ 2 ^ i = omega (arith, pow-suc 2 i) in
    rw half (bit-pow_ne i j (omega arith))

-- The complement in `w` bits flips each of them.
pub bit-complement : (w j x : ℕ) → j < w → x < 2 ^ w → bit (2 ^ w - 1 - x) j ≡ 1 - bit x j
unfolding bit
bit-complement zero j x h b = absurd (omega arith)
bit-complement (suc w) zero x h b = omega (arith, pow-suc 2 w)
bit-complement (suc w) (suc j) x h b =
    let half : (2 ^ suc w - 1 - x) / 2 ≡ 2 ^ w - 1 - x / 2 = omega (arith, pow-suc 2 w) in
    rw half (bit-complement w j (x / 2) (omega arith) (omega (arith, pow-suc 2 w)))

pub pow-pos : (j : ℕ) → 0 < 2 ^ j
pow-pos zero = omega arith
pow-pos (suc j) = omega (arith, pow-suc 2 j, pow-pos j)

-- A number of `w` bits that are all 0 is 0.
pub zero_of_bits : (w x : ℕ) → x < 2 ^ w → ((j : ℕ) → j < w → bit x j ≡ 0) → x ≡ 0
unfolding bit
zero_of_bits zero x b h = omega arith
zero_of_bits (suc w) x b h =
    let upper : x / 2 ≡ 0 =
      zero_of_bits w (x / 2) (omega (arith, pow-suc 2 w)) (λ j q. h (suc j) (omega arith)) in
    omega (arith, h 0 (omega arith))

pub bit-lt : (j a : ℕ) → bit a j < 2
unfolding bit
bit-lt zero a = omega arith
bit-lt (suc j) a = bit-lt j (a / 2)

-- A test of one bit by a mask.
pub bit_of_test : (a j : ℕ) → bit_and a (2 ^ j) ≡ 0 → bit a j ≡ 0
bit_of_test a j h =
    let e : bit (bit_and a (2 ^ j)) j ≡ 0 = rw h (bit-zero j) in
    omega (arith, bit-bit_and j a (2 ^ j), bit-pow_self j, bit-lt j a)

pub test_of_bit : (a j : ℕ) → bit a j ≡ 0 → bit_and a (2 ^ j) ≡ 0
test_of_bit a j h =
    zero_of_bits (suc j) (bit_and a (2 ^ j))
      (omega (arith, bit_and-le a (2 ^ j), pow-suc 2 j, pow-pos j))
      (λ i b. elim (ℕ_discrete i j) [
        | yes e ↦ omega (arith, bit-bit_and i a (2 ^ j), subst (λ k. bit a k ≡ 0) (sym e) h)
        | no n ↦ omega (arith, bit-bit_and i a (2 ^ j), bit-pow_ne j i (λ e. n (sym e)))
      ])
