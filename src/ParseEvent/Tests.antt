-- ===== src/ParseEvent/Tests.antt =====
-- Runs of the parser of events, with a decimal `strtoul`, and the theorems at inputs.
use oprofile.Base.Digits.{
  is_digit, decimal, value_from, AllDigits, decimal-AllDigits, value-decimal,
}
use oprofile.Base.{
  ℕ, ◌+◌, ◌-◌, ◌*◌, ◌<◌, ◌≡◌, refl, ◌∙◌, true, none, List, [], ◌∷◌, map, if◌then◌else◌, u32, arith,
}
use oprofile.ParseEvent.{
  ParsedEvent, ok, exit_failure, too_many_events, invalid_part, invalid_count, before_colon,
  next_part, is_same, parse_ulong, parse_optional, parse_count, parse_unit_mask, parse_rest,
  parse_event, parse_from, parse_events,
}
use oprofile.ParseEvent.Laws.{
  EventSpec, by_number, by_name, print_event, fill, has_timer, AllPrintable, parse_events-print,
  parse_events-many,
}

-- The digits at the front of a text, of base 10.
scan : ℕ → List ℕ → ℕ × List ℕ
scan acc [] = (acc, [])
scan acc (c ∷ s) =
    let rest = scan (acc * 10 + (c - b'0')) s in if is_digit c then rest else (acc, c ∷ s)

scan-digits : (acc : ℕ) (s : List ℕ) → AllDigits s → scan acc s ≡ (value_from acc s, [])
unfolding scan value_from
scan-digits acc [] all = refl
scan-digits acc (c ∷ s) (d, all) = rw d (scan-digits (acc * 10 + (c - b'0')) s all)

reads_decimal : (n : ℕ) → n < u32 → scan 0 (decimal n) ≡ (n, [])
reads_decimal n h =
    scan-digits 0 (decimal n) (decimal-AllDigits n) ∙ rw (value-decimal n (omega arith)) refl

abbrev blank : ParsedEvent
blank = record {
  name = [];
  count = 0;
  unit_mask = 0;
  unit_mask_name = none;
  kernel = 0;
  user = 0;
  unit_mask_valid = 0;
}

-- CPU:6000:1:0:1 and LLC:500:all:1:1
abbrev specs : List EventSpec
specs =
    record {
      name = b'C' ∷ b'P' ∷ b'U' ∷ [];
      count = 6000;
      unit_mask = by_number 1;
      kernel = 0;
      user = 1;
    }
    ∷ record {
      name = b'L' ∷ b'L' ∷ b'C' ∷ [];
      count = 500;
      unit_mask = by_name (b'a' ∷ b'l' ∷ b'l' ∷ []);
      kernel = 1;
      user = 1;
    }
    ∷ []

program : Unit {0}
unfolding parse_events parse_from parse_event parse_rest parse_unit_mask parse_count parse_optional
    parse_ulong is_same next_part before_colon scan
program = tt

-- `A::3` has no count, and `A:12x` a malformed one.
missing_run :
    parse_events (scan 0) true (blank ∷ []) ((b'A' ∷ b':' ∷ b':' ∷ b'3' ∷ []) ∷ [])
    ≡ exit_failure invalid_count
unfolding program
missing_run = refl

malformed_run :
    parse_events (scan 0) true (blank ∷ []) ((b'A' ∷ b':' ∷ b'1' ∷ b'x' ∷ []) ∷ [])
    ≡ exit_failure invalid_part
unfolding program
malformed_run = refl

specs-AllPrintable : AllPrintable specs
specs-AllPrintable = (
  ((refl, (refl, (refl, tt))), omega arith, omega arith, omega arith, omega arith),
  (
    (
      (refl, (refl, (refl, tt))),
      omega arith,
      ((refl, (refl, (refl, tt))), refl),
      omega arith,
      omega arith,
    ),
    tt,
  ),
)

parse_events-print_example :
    parse_events (scan 0) true (blank ∷ blank ∷ blank ∷ []) (map print_event specs)
    ≡ ok (fill (blank ∷ blank ∷ blank ∷ []) specs)
unfolding has_timer is_same
parse_events-print_example =
    parse_events-print (scan 0) reads_decimal specs (blank ∷ blank ∷ blank ∷ []) specs-AllPrintable
      (omega arith)

parse_events-many_example :
    parse_events (scan 0) true (blank ∷ []) (map print_event specs) ≡ exit_failure too_many_events
parse_events-many_example =
    parse_events-many (scan 0) reads_decimal specs (blank ∷ []) specs-AllPrintable (omega arith)
