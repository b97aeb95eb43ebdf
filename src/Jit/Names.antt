-- ===== src/Jit/Names.antt =====
-- `disambiguate_symbol_names` of opjitconv/jitsymbol.c.
use oprofile.Base.Digits.{decimal}
use oprofile.Base.{
  ℕ, zero, suc, ◌+◌, ◌-◌, ◌%◌, ◌^◌, u32, ltb, Bool, true, false, Option, some, none, List, [], ◌∷◌,
  ◌++◌, length, take, ◌==◌, if◌then◌else◌,
}
use oprofile.Jit.{JitEntry}

-- Whether `strcmp` gives 0.
unfoldable pub same_name : List ℕ → List ℕ → Bool
same_name [] [] = true
same_name [] (d ∷ t) = false
same_name (c ∷ s) [] = false
same_name (c ∷ s) (d ∷ t) = let rest = same_name s t in if c == d then rest else false

-- The digits of an `int`, given by its 32 bits: those that `j = j/10` counts, and `%i`.
abbrev pub magnitude : ℕ → List ℕ
magnitude i = if ltb i (2 ^ 31) then decimal i else decimal (u32 - i)

abbrev pub percent_i : ℕ → List ℕ
percent_i i = if ltb i (2 ^ 31) then decimal i else b'-' ∷ decimal (u32 - i)

-- The text cut by `snprintf` to the memory for it.
unfoldable pub replacement_name : List ℕ → ℕ → List ℕ
replacement_name s i = take (length s + 1 + length (magnitude i)) (s ++ (b'~' ∷ percent_i i))

abbrev pub with_name : List ℕ → JitEntry → JitEntry
with_name name e = record e { symbol_name = name }

-- The entries behind `a`, with whether one was renamed; the `int` that counts wraps around.
unfoldable pub rename_from : JitEntry → ℕ → List JitEntry → List JitEntry × Bool
unfolding same_name replacement_name
rename_from a cnt [] = ([], false)
rename_from a cnt (b ∷ entries) =
    let (others, rep) = rename_from a ((cnt + 1) % u32) entries in
    let (next, rep') = rename_from b 1 entries in
    if same_name a.symbol_name b.symbol_name
    then (with_name (replacement_name a.symbol_name cnt) b ∷ others, true)
    else (b ∷ next, rep')

unfoldable pub rename_all : List JitEntry → List JitEntry × Bool
unfolding rename_from
rename_all [] = ([], false)
rename_all (a ∷ entries) = let (others, rep) = rename_from a 1 entries in (a ∷ others, rep)

-- `qsort` by name, and at most `rounds` recursions; `none` when they do not suffice.
module _ (qsort : List JitEntry → List JitEntry) where
  unfoldable pub disambiguate_symbol_names : ℕ → List JitEntry → Option (List JitEntry)
  unfolding rename_all
  disambiguate_symbol_names zero entries = none
  disambiguate_symbol_names (suc rounds) entries =
      let (renamed, rep) = rename_all entries in
      elim rep [ true ↦ disambiguate_symbol_names rounds (qsort renamed) | false ↦ some renamed ]
