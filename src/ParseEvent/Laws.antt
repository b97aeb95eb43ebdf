-- ===== src/ParseEvent/Laws.antt =====
-- Events that are written out part by part and parsed again (libop/op_parse_event.c).
use oprofile.Base.Digits.{decimal, AllDigits, decimal_cons}
use mathlib.Core.List.{append-nil}
use oprofile.Base.{
  ℕ, ◌%◌, ◌≤◌, ◌<◌, ◌≡◌, refl, sym, ap, ◌∙◌, Bool, true, false, ◌&&◌, ◌||◌, some, List, [], ◌∷◌,
  ◌++◌, map, length, ltb, ◌==◌, if◌then◌else◌, u32, arith,
}
use oprofile.ParseEvent.{
  ParsedEvent, ok, exit_failure, too_many_events, timer_combined, before_colon, next_part,
  timer_event_name, is_same, starts_with_digit, parse_ulong, parse_optional, parse_count,
  parse_unit_mask, parse_rest, parse_event, parse_from, parse_events,
}

-- A unit mask by number or by name.
pub data UnitMask : Type 0 where
  by_number : ℕ → UnitMask
  by_name : List ℕ → UnitMask

pub record EventSpec : Type 0 where
  pub name : List ℕ
  pub count : ℕ
  pub unit_mask : UnitMask
  pub kernel : ℕ
  pub user : ℕ

abbrev pub print_mask : UnitMask → List ℕ
print_mask (by_number n) = decimal n
print_mask (by_name s) = s

-- name:count:unitmask:kernel:user
pub print_event : EventSpec → List ℕ
print_event e =
    e.name
    ++ (b':'
        ∷ (decimal e.count
            ++ (b':'
                ∷ (print_mask e.unit_mask
                    ++ (b':' ∷ (decimal e.kernel ++ (b':' ∷ decimal e.user)))))))

-- What an event sets in the place of the array.
abbrev pub fill_mask : ParsedEvent → UnitMask → ParsedEvent
fill_mask old (by_number n) = record old { unit_mask = n; unit_mask_valid = 1 }
fill_mask old (by_name s) = record old {
  unit_mask = 0;
  unit_mask_valid = 1;
  unit_mask_name = some s;
}

abbrev pub fill_event : ParsedEvent → EventSpec → ParsedEvent
fill_event old e =
    let masked = fill_mask (record old { name = e.name; count = e.count }) e.unit_mask in
    record masked { kernel = e.kernel; user = e.user }

pub fill : List ParsedEvent → List EventSpec → List ParsedEvent
fill array [] = []
fill [] (e ∷ specs) = []
fill (old ∷ array) (e ∷ specs) = fill_event old e ∷ fill array specs

unfoldable pub has_timer : List EventSpec → Bool
has_timer [] = false
has_timer (e ∷ specs) = is_same e.name timer_event_name || has_timer specs

-- Text without a colon.
abbrev pub IsPlain : List ℕ → Type 0
IsPlain [] = Unit
IsPlain (c ∷ s) = ((c == b':') ≡ false) × IsPlain s

abbrev pub IsPart : List ℕ → Type 0
IsPart [] = ⊥
IsPart (c ∷ s) = IsPlain (c ∷ s)

abbrev pub IsMask : UnitMask → Type 0
IsMask (by_number n) = n < u32
IsMask (by_name s) = IsPart s × (starts_with_digit s ≡ false)

abbrev pub IsPrintable : EventSpec → Type 0
IsPrintable e =
    IsPart e.name × (e.count < u32) × IsMask e.unit_mask × (e.kernel < u32) × (e.user < u32)

abbrev pub AllPrintable : List EventSpec → Type 0
AllPrintable [] = Unit
AllPrintable (e ∷ specs) = IsPrintable e × AllPrintable specs

-- The end of the text, or a colon.
abbrev AtColon : List ℕ → Type 0
AtColon [] = Unit
AtColon (c ∷ s) = c ≡ b':'

before_colon-part :
    (part rest : List ℕ) → IsPlain part → AtColon rest → before_colon (part ++ rest) ≡ (part, rest)
unfolding before_colon
before_colon-part [] [] p at = refl
before_colon-part [] (c ∷ rest) p at = rw at refl
before_colon-part (c ∷ part) rest (f, p) at = rw (before_colon-part part rest p at, f) refl

-- A part at the front of the text, and one behind a colon.
next_part-first :
    (part rest : List ℕ) → IsPart part → AtColon rest → next_part (part ++ rest) ≡ (some part, rest)
unfolding next_part
next_part-first [] rest p at = absurd p
next_part-first (c ∷ part) rest (f, p) at = rw (f, before_colon-part (c ∷ part) rest (f, p) at) refl

next_part-colon :
    (part rest : List ℕ)
    → IsPart part
    → AtColon rest
    → next_part (b':' ∷ (part ++ rest)) ≡ (some part, rest)
unfolding next_part
next_part-colon [] rest p at = absurd p
next_part-colon (c ∷ part) rest p at = rw (before_colon-part (c ∷ part) rest p at) refl

digits-IsPlain : (s : List ℕ) → AllDigits s → IsPlain s
digits-IsPlain [] all = tt
digits-IsPlain (c ∷ s) (d, all) = (ground arith, digits-IsPlain s all)

decimal-IsPart : (n : ℕ) → IsPart (decimal n)
decimal-IsPart n = let (c, s, e, d, all) = decimal_cons n in rw e (digits-IsPlain (c ∷ s) (d, all))

-- What stands behind the name.
abbrev after_name : EventSpec → List ℕ
after_name e =
    b':'
    ∷ (decimal e.count
        ++ (b':'
            ∷ (print_mask e.unit_mask ++ (b':' ∷ (decimal e.kernel ++ (b':' ∷ decimal e.user))))))

module _ (strtoul : List ℕ → ℕ × List ℕ)
    (reads : (n : ℕ) → n < u32 → strtoul (decimal n) ≡ (n, [])) where
  parse_ulong-decimal : (n : ℕ) → n < u32 → parse_ulong strtoul (decimal n) ≡ ok n
  unfolding parse_ulong
  parse_ulong-decimal n h = let m : n % u32 ≡ n = omega arith in rw (reads n h, m) refl

  parse_unit_mask-print :
      (old : ParsedEvent) (mask : UnitMask)
      → IsMask mask
      → parse_unit_mask strtoul old (some (print_mask mask)) ≡ ok (fill_mask old mask)
  unfolding parse_unit_mask
  parse_unit_mask-print old (by_number n) h =
      let (c, s, e, d, all) = decimal_cons n in
      let first : starts_with_digit (decimal n) ≡ true = rw e d in
      rw (first, parse_ulong-decimal n h) refl
  parse_unit_mask-print old (by_name s) (p, f) = rw f refl

  print_mask-IsPart : (mask : UnitMask) → IsMask mask → IsPart (print_mask mask)
  print_mask-IsPart (by_number n) h = decimal-IsPart n
  print_mask-IsPart (by_name s) (p, f) = p

  parse_count-print :
      (event : ParsedEvent) (n : ℕ) (rest : List ℕ)
      → n < u32
      → AtColon rest
      → parse_count strtoul true event (b':' ∷ (decimal n ++ rest))
        ≡ ok (record event { count = n }, rest)
  unfolding parse_count
  parse_count-print event n rest h at =
      let p = next_part-colon (decimal n) rest (decimal-IsPart n) at in
      rw (parse_count, p, parse_ulong-decimal n h, p) refl

  next_part-last : (part : List ℕ) → IsPart part → next_part (b':' ∷ part) ≡ (some part, [])
  next_part-last part p =
      ap (λ (t : List ℕ). next_part (b':' ∷ t)) (sym (append-nil part))
      ∙ next_part-colon part [] p tt

  parse_optional-print :
      (default n : ℕ) → n < u32 → parse_optional strtoul default (some (decimal n)) ≡ ok n
  unfolding parse_optional
  parse_optional-print default n h = parse_ulong-decimal n h

  parse_rest-print :
      (event : ParsedEvent) (e : EventSpec)
      → IsPrintable e
      → parse_rest strtoul true event (after_name e)
        ≡ ok (
            let masked = fill_mask (record event { count = e.count }) e.unit_mask in
            record masked { kernel = e.kernel; user = e.user })
  unfolding parse_rest
  parse_rest-print event e (n, c, m, k, u) =
      rw
        (
          parse_count-print event e.count _ c refl,
          next_part-colon (print_mask e.unit_mask) _ (print_mask-IsPart e.unit_mask m) refl,
          parse_unit_mask-print (record event { count = e.count }) e.unit_mask m,
          next_part-colon (decimal e.kernel) _ (decimal-IsPart e.kernel) refl,
          parse_optional-print 1 e.kernel k,
          next_part-last (decimal e.user) (decimal-IsPart e.user),
          parse_optional-print 1 e.user u,
        )
        refl

  next_part-print :
      (e : EventSpec) → IsPart e.name → next_part (print_event e) ≡ (some e.name, after_name e)
  unfolding print_event
  next_part-print e n = next_part-first e.name (after_name e) n refl

  parse_event-print :
      (old : ParsedEvent) (e : EventSpec)
      → IsPrintable e
      → parse_event strtoul true old (print_event e)
        ≡ ok (fill_event old e, is_same e.name timer_event_name)
  unfolding parse_event
  parse_event-print old e (n, c, m, k, u) =
      rw
        (
          parse_event,
          next_part-print e n,
          next_part-print e n,
          parse_rest-print (record old { name = e.name }) e (n, c, m, k, u),
        )
        refl

  parse_from-print :
      (specs : List EventSpec) (array : List ParsedEvent)
      → AllPrintable specs
      → length specs ≤ length array
      → parse_from strtoul true array (map print_event specs)
        ≡ ok (fill array specs, has_timer specs)
  unfolding parse_from fill has_timer
  parse_from-print [] array all h = (elim array [ [] ↦ refl | old ∷ more ↦ refl ])
  parse_from-print (e ∷ specs) [] all h = absurd (omega arith)
  parse_from-print (e ∷ specs) (old ∷ array) (p, all) h =
      rw (parse_event-print old e p, parse_from-print specs array all (omega arith)) refl

  parse_from-many :
      (specs : List EventSpec) (array : List ParsedEvent)
      → AllPrintable specs
      → length array < length specs
      → parse_from strtoul true array (map print_event specs) ≡ exit_failure too_many_events
  unfolding parse_from
  parse_from-many [] array all h = absurd (omega arith)
  parse_from-many (e ∷ specs) [] all h = refl
  parse_from-many (e ∷ specs) (old ∷ array) (p, all) h =
      rw (parse_event-print old e p, parse_from-many specs array all (omega arith)) refl

  length-fill :
      (specs : List EventSpec) (array : List ParsedEvent)
      → length specs ≤ length array
      → length (fill array specs) ≡ length specs
  unfolding fill
  length-fill [] array h = (elim array [ [] ↦ refl | old ∷ more ↦ refl ])
  length-fill (e ∷ specs) [] h = absurd (omega arith)
  length-fill (e ∷ specs) (old ∷ array) h = omega (arith, length-fill specs array (omega arith))

  -- Of events written as name, count, unit mask, kernel and user flag with colons between (no name
  -- is empty or has a colon, a named unit mask begins with no digit, the numbers are below 2^32)
  -- and an array with room for them, parse_events with a check of counts fills the array's first
  -- places with the events (a place keeps its old unit mask name under a numeric unit mask), or
  -- fails when there are several and one is the timer's; strtoul reads a decimal number below 2^32
  -- whole.
  pub parse_events-print :
      (specs : List EventSpec) (array : List ParsedEvent)
      → AllPrintable specs
      → length specs ≤ length array
      → parse_events strtoul true array (map print_event specs) ≡ (
          if ltb 1 (length specs) && has_timer specs
          then exit_failure timer_combined
          else ok (fill array specs))
  unfolding parse_events
  parse_events-print specs array all h =
      rw (parse_from-print specs array all h, length-fill specs array h) refl

  -- Of more events than the array has room for, each of the form of the round trip, parse_events
  -- with a check of counts fails with the message on too many events.
  pub parse_events-many :
      (specs : List EventSpec) (array : List ParsedEvent)
      → AllPrintable specs
      → length array < length specs
      → parse_events strtoul true array (map print_event specs) ≡ exit_failure too_many_events
  unfolding parse_events
  parse_events-many specs array all h = rw (parse_from-many specs array all h) refl
