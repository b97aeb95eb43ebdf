-- ===== src/Base/Digits.antt =====
-- Decimal numerals as lists of characters, as `%d` and `%llu` of printf write them.
use Prim.Native.Nat.{ℕ, zero, suc, ◌+◌, ◌-◌, ◌*◌, ◌/◌, ◌%◌, ◌^◌, ◌≤◌, ◌<◌}
use mathlib.Core.Path.{◌≡◌, refl, ◌∙◌}
use mathlib.Core.Logic.{◌≢◌, inl, inr}
use mathlib.Core.Bool.{Bool, true, ◌&&◌}
use mathlib.Core.List.{List, [], ◌∷◌, ◌++◌}
use native.Mathlib.Omega.{arith}
use native.Mathlib.Nat.{pow-suc}
use oprofile.Base.Lists.{length, length-append}
use oprofile.Base.Tests.{leb, ◌==◌, if◌then◌else◌, Bool-cases}

abbrev pub is_digit : ℕ → Bool
is_digit c = leb b'0' c && leb c b'9'

-- The numeral of a number below 10 ^ k.
unfoldable pub decimal_from : ℕ → ℕ → List ℕ
decimal_from zero n = []
decimal_from (suc k) n =
    let more = decimal_from k (n / 10) in
    if n / 10 == 0 then (b'0' + n % 10) ∷ [] else more ++ ((b'0' + n % 10) ∷ [])

unfoldable pub decimal : ℕ → List ℕ
unfolding decimal_from
decimal n = decimal_from 20 n

-- The number that a list of digits stands for, behind those that stand for `acc`.
unfoldable pub value_from : ℕ → List ℕ → ℕ
value_from acc [] = acc
value_from acc (c ∷ s) = value_from (acc * 10 + (c - b'0')) s

abbrev pub AllDigits : List ℕ → Type 0
AllDigits [] = Unit
AllDigits (c ∷ s) = (is_digit c ≡ true) × AllDigits s

value_from-append :
    (acc : ℕ) (s : List ℕ) (c : ℕ)
    → value_from acc (s ++ (c ∷ [])) ≡ value_from acc s * 10 + (c - b'0')
unfolding value_from
value_from-append acc [] c = refl
value_from-append acc (d ∷ s) c = value_from-append (acc * 10 + (d - b'0')) s c

digits_snoc : (s : List ℕ) (c : ℕ) → AllDigits s → is_digit c ≡ true → AllDigits (s ++ (c ∷ []))
digits_snoc [] c all h = (h, tt)
digits_snoc (d ∷ s) c (h', all) h = (h', digits_snoc s c all h)

digit_of : (n : ℕ) → is_digit (b'0' + n % 10) ≡ true
digit_of n = ground arith

decimal_from-AllDigits : (k n : ℕ) → AllDigits (decimal_from k n)
unfolding decimal_from
decimal_from-AllDigits zero n = tt
decimal_from-AllDigits (suc k) n = elim (Bool-cases (n / 10 == 0)) [
  | inl t ↦ rw t (digit_of n, tt)
  | inr f ↦
      rw f
        (digits_snoc (decimal_from k (n / 10)) _ (decimal_from-AllDigits k (n / 10)) (digit_of n))
]

tenth : (k n : ℕ) → n < 10 ^ suc k → n / 10 < 10 ^ k
tenth k n h = omega (arith, pow-suc 10 k)

value-decimal_from : (k n : ℕ) → n < 10 ^ k → value_from 0 (decimal_from k n) ≡ n
unfolding decimal_from value_from
value-decimal_from zero n h = omega arith
value-decimal_from (suc k) n h = elim (Bool-cases (n / 10 == 0)) [
  | inl t ↦ rw t (ground arith)
  | inr f ↦ rw f (
      value_from-append 0 (decimal_from k (n / 10)) _
      ∙ omega (arith, value-decimal_from k (n / 10) (tenth k n h)))
]

append-ne-nil : (s : List ℕ) (c : ℕ) → s ++ (c ∷ []) ≢ []
append-ne-nil [] c e = cc
append-ne-nil (d ∷ s) c e = cc

pub decimal-AllDigits : (n : ℕ) → AllDigits (decimal n)
unfolding decimal
decimal-AllDigits n = decimal_from-AllDigits 20 n

pub value-decimal : (n : ℕ) → n < 10 ^ 20 → value_from 0 (decimal n) ≡ n
unfolding decimal
value-decimal n h = value-decimal_from 20 n h

decimal_from-ne-nil : (k n : ℕ) → decimal_from (suc k) n ≢ []
unfolding decimal_from
decimal_from-ne-nil k n e = elim (Bool-cases (n / 10 == 0)) [
  | inl t ↦ let e' : (b'0' + n % 10) ∷ [] ≡ [] = rw t at e in cc
  | inr f ↦ append-ne-nil (decimal_from k (n / 10)) _ (rw f at e)
]

decimal-ne-nil : (n : ℕ) → decimal n ≢ []
unfolding decimal
decimal-ne-nil n = decimal_from-ne-nil 19 n

-- A numeral begins with a digit.
pub decimal_cons :
    (n : ℕ) → (c : ℕ) × (s : List ℕ) × (decimal n ≡ c ∷ s) × (is_digit c ≡ true) × AllDigits s
decimal_cons n = split (decimal n) (decimal-AllDigits n) (decimal-ne-nil n)
  where
    split :
        (l : List ℕ)
        → AllDigits l
        → l ≢ []
        → (c : ℕ) × (s : List ℕ) × (l ≡ c ∷ s) × (is_digit c ≡ true) × AllDigits s
    split [] all ne = absurd (ne refl)
    split (c ∷ s) (h, all) ne = (c, s, refl, h, all)

length-decimal_from : (k n : ℕ) → length (decimal_from k n) ≤ k
unfolding decimal_from
length-decimal_from zero n = omega arith
length-decimal_from (suc k) n = elim (Bool-cases (n / 10 == 0)) [
  | inl t ↦ rw t (omega arith)
  | inr f ↦ rw f (
      omega (
        arith,
        length-append (decimal_from k (n / 10)) ((b'0' + n % 10) ∷ []),
        length-decimal_from k (n / 10),
      ))
]

pub length-decimal : (n : ℕ) → length (decimal n) ≤ 20
unfolding decimal
length-decimal n = length-decimal_from 20 n
