-- ===== src/ParseEvent.antt =====
-- The events given on the command line (libop/op_parse_event.c, libop/op_parse_event.h).
mod Laws
mod Tests
use oprofile.Base.Digits.{is_digit}
use oprofile.Base.{
  ℕ, zero, suc, ◌+◌, ◌%◌, ◌<◌, Bool, true, false, not, ◌&&◌, ◌||◌, Option, some, none, List, [],
  ◌∷◌, length, ltb, leb, ◌==◌, if◌then◌else◌, u32,
}

-- `struct parsed_event`; an `int` is kept as its 32 bits.
pub record ParsedEvent : Type 0 where
  pub name : List ℕ
  pub count : ℕ
  pub unit_mask : ℕ
  pub unit_mask_name : Option (List ℕ)
  pub kernel : ℕ
  pub user : ℕ
  pub unit_mask_valid : ℕ

-- The messages with which the program exits.
pub data Failure : Type 0 where
  too_many_events invalid_event invalid_count invalid_part timer_combined : Failure

pub data Parsed {ℓ} (A : Type ℓ) : Type ℓ where
  ok : A → Parsed A
  exit_failure : Failure → Parsed A

infixl 5 ◌>>=◌
abbrev pub ◌>>=◌ {ℓ κ} : {A : Type ℓ} {B : Type κ} → Parsed A → (A → Parsed B) → Parsed B
ok a >>= f = f a
exit_failure e >>= f = exit_failure e

-- The characters before the next colon, and the rest from it on.
pub before_colon : List ℕ → List ℕ × List ℕ
before_colon [] = ([], [])
before_colon (c ∷ str) =
    let (part, rest) = before_colon str in if c == b':' then ([], c ∷ str) else (c ∷ part, rest)

abbrev pub skip_colon : List ℕ → List ℕ
skip_colon [] = []
skip_colon (c ∷ str) = if c == b':' then str else c ∷ str

abbrev pub non_empty : List ℕ × List ℕ → Option (List ℕ) × List ℕ
non_empty ([], rest) = (none, rest)
non_empty (c ∷ part, rest) = (some (c ∷ part), rest)

-- The next part of the string, if there is one, and what follows it.
pub next_part : List ℕ → Option (List ℕ) × List ℕ
unfolding before_colon
next_part str = non_empty (before_colon (skip_colon str))

abbrev pub timer_event_name : List ℕ
timer_event_name = b'T' ∷ b'I' ∷ b'M' ∷ b'E' ∷ b'R' ∷ []

pub is_same : List ℕ → List ℕ → Bool
is_same [] [] = true
is_same [] (c ∷ t) = false
is_same (c ∷ s) [] = false
is_same (c ∷ s) (d ∷ t) = let rest = is_same s t in if c == d then rest else false

abbrev pub starts_with_digit : List ℕ → Bool
starts_with_digit [] = false
starts_with_digit (c ∷ s) = is_digit c

-- `strtoul` in base 0: the value, and the rest that is not of the number.
module _ (strtoul : List ℕ → ℕ × List ℕ) where
  abbrev whole_number : ℕ × List ℕ → Parsed ℕ
  whole_number (value, []) = ok (value % u32)
  whole_number (value, c ∷ rest) = exit_failure invalid_part

  pub parse_ulong : List ℕ → Parsed ℕ
  parse_ulong str = whole_number (strtoul str)

  -- A part that may be missing.
  pub parse_optional : ℕ → Option (List ℕ) → Parsed ℕ
  unfolding parse_ulong
  parse_optional default none = ok default
  parse_optional default (some part) = parse_ulong part

  pub parse_count : Bool → ParsedEvent → List ℕ → Parsed (ParsedEvent × List ℕ)
  unfolding parse_ulong
  parse_count false event cp = ok (event, cp)
  parse_count true event cp =
      let (part, rest) = next_part cp in
      elim part [
        | none ↦ exit_failure invalid_count
        | some p ↦ (parse_ulong p >>= λ count. ok (record event { count = count }, rest))
      ]

  -- A unit mask by number or by name.
  pub parse_unit_mask : ParsedEvent → Option (List ℕ) → Parsed ParsedEvent
  unfolding parse_ulong
  parse_unit_mask event none = ok (record event { unit_mask = 0 })
  parse_unit_mask event (some part) =
      if starts_with_digit part
      then (parse_ulong part >>= λ mask.
          ok (record event { unit_mask = mask; unit_mask_valid = 1 }))
      else ok (record event { unit_mask = 0; unit_mask_valid = 1; unit_mask_name = some part })

  -- What follows the name of an event.
  pub parse_rest : Bool → ParsedEvent → List ℕ → Parsed ParsedEvent
  unfolding parse_count parse_unit_mask parse_optional
  parse_rest check_count event cp = do
    (counted, cp₁) ← parse_count check_count event cp
    let (mask, cp₂) = next_part cp₁
    masked ← parse_unit_mask counted mask
    let (part, cp₃) = next_part cp₂
    kernel ← parse_optional 1 part
    let (part', cp₄) = next_part cp₃
    user ← parse_optional 1 part'
    ok (record masked { kernel = kernel; user = user })

  -- One event, in the place of what the array held, and whether it is the timer's.
  pub parse_event : Bool → ParsedEvent → List ℕ → Parsed (ParsedEvent × Bool)
  unfolding parse_rest is_same
  parse_event check_count old str =
      let (part, cp) = next_part str in
      elim part [
        | none ↦ exit_failure invalid_event
        | some name ↦
            (parse_rest check_count (record old { name = name }) cp >>= λ event.
            ok (event, is_same name timer_event_name))
      ]

  -- The `while`, over the array from `i` on; whether the timer was among the events.
  pub parse_from : Bool → List ParsedEvent → List (List ℕ) → Parsed (List ParsedEvent × Bool)
  unfolding parse_event
  parse_from check_count array [] = ok ([], false)
  parse_from check_count [] (str ∷ events) = exit_failure too_many_events
  parse_from check_count (old ∷ array) (str ∷ events) = do
    (event, timer) ← parse_event check_count old str
    (rest, timer') ← parse_from check_count array events
    ok (event ∷ rest, timer || timer')

  -- The events parsed, of which the source returns the number.
  pub parse_events : Bool → List ParsedEvent → List (List ℕ) → Parsed (List ParsedEvent)
  unfolding parse_from
  parse_events check_count array events = do
    (parsed, timer) ← parse_from check_count array events
    if ltb 1 (length parsed) && timer then exit_failure timer_combined else ok parsed
