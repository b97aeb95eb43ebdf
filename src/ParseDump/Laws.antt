-- ===== src/ParseDump/Laws.antt =====
-- One round of the parser of dumps (opjitconv/parse_dump.c).
use native.Mathlib.Decide.{ℕ_discrete}
use oprofile.ParseDump.{Dump, parsed, fault, unfinished, c_string, parse_record, parse_entries}
use oprofile.JitDump.{get32}
use oprofile.Base.{
  ℕ, zero, suc, ◌<◌, ◌≤◌, ◌≡◌, ◌≢◌, refl, sym, ap, ◌∙◌, inl, inr, Bool, false, ◌&&◌, Bool-cases,
  some, Option-cases, List, [], ◌∷◌, ◌++◌, length, drop, length-drop, ltb, ltb→lt, lt→ltb,
  not_lt→ltb, ==_ne, ◌==◌, arith,
}

-- The names that C can pass: no zero in them.
unfoldable pub IsText : List ℕ → Type 0
IsText [] = Unit
IsText (c ∷ name) = (c ≢ 0) × IsText name

pub c_string-IsText :
    (name rest : List ℕ) → IsText name → c_string ((name ++ (0 ∷ [])) ++ rest) ≡ some name
unfolding c_string IsText
c_string-IsText [] rest h = refl
c_string-IsText (c ∷ name) rest (ne, h) = rw (==_ne c 0 ne, c_string-IsText name rest h) refl

-- A round that reads a whole record.
pub parse_entries-step :
    (n id total end_time : ℕ) (rec : List ℕ) (rc ok : Bool) (d d' : Dump)
    → 8 < length rec
    → get32 rec ≡ some id
    → get32 (drop 4 rec) ≡ some total
    → total ≤ length rec
    → parse_record id rec total end_time d ≡ some (d', ok)
    → parse_entries (suc n) rec end_time rc d
      ≡ parse_entries n (drop total rec) end_time (rc && ok) d'
unfolding parse_entries
parse_entries-step n id total end_time rec rc ok d d' long i t fits r =
    rw (lt→ltb 8 (length rec) long, i, t, not_lt→ltb (length rec) total (omega (arith, fits)), r)
      refl

-- Nothing is left.
pub parse_entries-end :
    (n end_time : ℕ) (rc : Bool) (d : Dump) → parse_entries n [] end_time rc d ≡ parsed d rc
unfolding parse_entries
parse_entries-end zero end_time rc d = refl
parse_entries-end (suc n) end_time rc d = refl

parse_record-stalls :
    (id end_time : ℕ) (rec : List ℕ) (d : Dump)
    → 2 ≤ id
    → parse_record id rec 0 end_time d ≡ some (d, id == 2)
unfolding parse_record
parse_record-stalls id end_time rec d h =
    rw
      (
        ==_ne id 0 (λ e. absurd (omega (arith, h, e))),
        ==_ne id 1 (λ e. absurd (omega (arith, h, e))),
      )
      (ground arith)

-- At a record of total_size 0 of a kind other than load and unload, with more than 8 bytes before
-- the end, the loop of parse_entries does not end, whatever the number of rounds.
pub parse_entries-stalls :
    (rounds id end_time : ℕ) (rec : List ℕ) (rc : Bool) (d : Dump)
    → 8 < length rec
    → get32 rec ≡ some id
    → get32 (drop 4 rec) ≡ some 0
    → 2 ≤ id
    → parse_entries rounds rec end_time rc d ≡ unfinished
unfolding parse_entries
parse_entries-stalls zero id end_time rec rc d long i t h = rw (lt→ltb 8 (length rec) long) refl
parse_entries-stalls (suc n) id end_time rec rc d long i t h =
    parse_entries-step n id 0 end_time rec rc (id == 2) d d long i t (omega arith)
      (parse_record-stalls id end_time rec d h)
    ∙ parse_entries-stalls n id end_time rec (rc && (id == 2)) d long i t h

-- The loop stands at a record of size 0, now or after whole records.
pub data Stuck : List ℕ → Type 0 where
  here : (rec : List ℕ) → get32 (drop 4 rec) ≡ some 0 → Stuck rec
  there : (rec : List ℕ) (n : ℕ) → get32 (drop 4 rec) ≡ some n → Stuck (drop n rec) → Stuck rec

-- A round that does not end the loop has read a whole record.
parse_entries-goes_on :
    (n end_time : ℕ) (rec : List ℕ) (rc : Bool) (d : Dump)
    → parse_entries (suc n) rec end_time rc d ≡ unfinished
    → (8 < length rec)
      × (total : ℕ) × (get32 (drop 4 rec) ≡ some total)
      × (rc' : Bool) × (d' : Dump) × (parse_entries n (drop total rec) end_time rc' d' ≡ unfinished)
unfolding parse_entries
parse_entries-goes_on n end_time rec rc d h = elim (Bool-cases (ltb 8 (length rec))) [
  | inr e ↦
      let stop : parse_entries (suc n) rec end_time rc d ≡ parsed d rc = rw e refl in
      let bad : ⊥ = cc in absurd bad
  | inl e ↦ elim (Option-cases (get32 rec)) [
    | inl i ↦
        let stop : parse_entries (suc n) rec end_time rc d ≡ fault = rw (e, i) refl in
        let bad : ⊥ = cc in absurd bad
    | inr (id, i) ↦ elim (Option-cases (get32 (drop 4 rec))) [
      | inl t ↦
          let stop : parse_entries (suc n) rec end_time rc d ≡ fault = rw (e, i, t) refl in
          let bad : ⊥ = cc in absurd bad
      | inr (total, t) ↦ elim (Bool-cases (ltb (length rec) total)) [
        | inl l ↦
            let stop : parse_entries (suc n) rec end_time rc d ≡ parsed d false =
              rw (e, i, t, l) refl in
            let bad : ⊥ = cc in absurd bad
        | inr l ↦ elim (Option-cases (parse_record id rec total end_time d)) [
          | inl r ↦
              let stop : parse_entries (suc n) rec end_time rc d ≡ fault =
                rw (e, i, t, l, r) refl in
              let bad : ⊥ = cc in absurd bad
          | inr ((d', ok), r) ↦
              let next : parse_entries (suc n) rec end_time rc d
                  ≡ parse_entries n (drop total rec) end_time (rc && ok) d' =
                rw (e, i, t, l, r) refl in
              (ltb→lt 8 (length rec) e, total, t, rc && ok, d', sym next ∙ h)
        ]
      ]
    ]
  ]
]

-- When the loop of parse_entries has not ended within as many rounds as the dump has bytes, a
-- record of total_size 0 is reached from the first record by the total_size of the records.
pub parse_entries-Stuck :
    (rounds end_time : ℕ) (rec : List ℕ) (rc : Bool) (d : Dump)
    → length rec ≤ rounds
    → parse_entries rounds rec end_time rc d ≡ unfinished
    → Stuck rec
unfolding parse_entries
parse_entries-Stuck zero end_time rec rc d fuel h =
    let short = not_lt→ltb 8 (length rec) (λ l. absurd (omega (arith, fuel, l))) in
    let stop : parse_entries zero rec end_time rc d ≡ parsed d rc = rw short refl in
    let bad : ⊥ = cc in absurd bad
parse_entries-Stuck (suc n) end_time rec rc d fuel h =
    let (long, total, t, rc', d', h') = parse_entries-goes_on n end_time rec rc d h in
    elim (ℕ_discrete total 0) [
      | yes e ↦ here rec (t ∙ ap some e)
      | no ne ↦ there rec total t (
          parse_entries-Stuck n end_time (drop total rec) rc' d'
            (omega (arith, length-drop total rec, fuel, ne, long)) h')
    ]
