-- ===== src/Jit.antt =====
-- The symbols of a JIT dump and the removal of their overlaps (opjitconv/opjitconv.h,
-- opjitconv/jitsymbol.c).
mod Entries
pub mod Names
mod Distinct
mod Chains
mod Disambiguate
mod Eliminate
mod Region
mod Scan
mod Resolve
mod Stall
mod Select
mod Tests
use mathlib.Core.Option
use oprofile.Base.Digits.{decimal}
use oprofile.Base.{
  ℕ, zero, suc, ◌+◌, ◌-◌, ◌*◌, ◌/◌, ◌%◌, ◌^◌, Bool, true, false, ◌&&◌, Option, some, none, List, [],
  ◌∷◌, ◌++◌, length, get_elem?, set, take, ◌||◌, ltb, leb, ◌==◌, if◌then◌else◌, u32, u64,
}

-- `if (end_addr2 > end_addr) end_addr = end_addr2;`
abbrev pub max_of : ℕ → ℕ → ℕ
max_of a b = if ltb a b then b else a

-- `struct jitentry` without its links, its code and its section; a size is kept as its 32 bits.
pub record JitEntry : Type 0 where
  pub vma : ℕ
  pub code_size : ℕ
  pub symbol_name : List ℕ
  pub life_start : ℕ
  pub life_end : ℕ

-- An `int` added to an address is extended by its sign.
pub end_addr : JitEntry → ℕ
end_addr e =
    (e.vma + (if ltb e.code_size (2 ^ 31) then e.code_size else e.code_size + u64 - u32)) % u64

pub lifetime : JitEntry → ℕ
lifetime e = (e.life_end + u64 - e.life_start) % u64

abbrev pub invalidate_entry : JitEntry → JitEntry
invalidate_entry e = record e { vma = 0 }

-- The entries alive at the start of the sampling stay; the flag says whether there was another.
pub invalidate_earlybirds : ℕ → List JitEntry → List JitEntry × Bool
invalidate_earlybirds start_time [] = ([], false)
invalidate_earlybirds start_time (a ∷ entries) =
    let (rest, flag) = invalidate_earlybirds start_time entries in
    if ltb a.life_end start_time then (invalidate_entry a ∷ rest, true) else (a ∷ rest, flag)

-- The loop of `select_one` behind its first round, at index `i`.
select_from : List JitEntry → ℕ → ℕ → ℕ → ℕ
select_from [] i candidate best = candidate
select_from (e ∷ entries) i candidate best =
    if ltb best (lifetime e)
    then select_from entries (i + 1) i (lifetime e)
    else select_from entries (i + 1) candidate best

-- The index of the symbol that lives longest, in a region of at least one.
pub select_one : JitEntry → List JitEntry → ℕ
unfolding select_from
select_one e entries = select_from entries 1 0 (lifetime e)

-- The part of `split` behind `keep`, if there is one.
pub right_part : JitEntry → JitEntry → List JitEntry
right_part split keep =
    if ltb (end_addr keep) (end_addr split)
    then record {
      vma = end_addr keep;
      code_size = (end_addr split - end_addr keep) % u32;
      symbol_name = split.symbol_name ++ (b'#' ∷ b'1' ∷ []);
      life_start = split.life_start;
      life_end = split.life_end;
    }
      ∷ []
    else []

-- The part of `split` before `keep`, in its place; or it is invalidated.
pub left_part : JitEntry → JitEntry → JitEntry
left_part split keep =
    if ltb split.vma keep.vma
    then record split {
      code_size = (keep.vma - split.vma) % u32;
      symbol_name = split.symbol_name ++ (b'#' ∷ b'0' ∷ []);
    }
    else invalidate_entry split

-- `split_entry`: the entry in its place, and the one appended to the array.
pub split_entry : JitEntry → JitEntry → JitEntry × List JitEntry
unfolding left_part right_part
split_entry split keep = (left_part split keep, right_part split keep)

pub is_overlapping : JitEntry → JitEntry → Bool
is_overlapping keep e = ltb e.vma (end_addr keep) && ltb keep.vma (end_addr e)

-- What `eliminate_overlaps` has come to: the entries of the range, those appended, and the span of
-- the lives.
pub record Eliminated : Type 0 where
  pub range : List JitEntry
  pub added : List JitEntry
  pub min_start : ℕ
  pub max_end : ℕ

-- The asserts of a debugging run.
is_sound : Bool → JitEntry → JitEntry → Bool
is_sound debug keep e =
    if debug then leb e.vma (end_addr e) && leb keep.vma (end_addr keep) else true

-- One entry that is not the one to keep, with what the loop makes of the later ones.
eliminate_one : JitEntry → JitEntry → Eliminated → Eliminated
unfolding split_entry is_overlapping
eliminate_one keep e rest =
    let (left, right) = split_entry e keep in
    if is_overlapping keep e
    then record {
      range = left ∷ rest.range;
      added = right ++ rest.added;
      min_start = if ltb e.life_start rest.min_start then e.life_start else rest.min_start;
      max_end = if ltb rest.max_end e.life_end then e.life_end else rest.max_end;
    }
    else record rest { range = e ∷ rest.range }

-- The loop of `eliminate_overlaps` from index `i` on; `none` when an assert fails.
pub eliminate_from : Bool → JitEntry → ℕ → ℕ → List JitEntry → Option Eliminated
unfolding eliminate_one is_sound
eliminate_from debug keep keep_idx i [] =
    some (record { range = []; added = []; min_start = keep.life_start; max_end = keep.life_end })
eliminate_from debug keep keep_idx i (e ∷ entries) =
    let rest = eliminate_from debug keep keep_idx (i + 1) entries in
    if i == keep_idx
    then Option.map (λ (r : Eliminated). record r { range = e ∷ r.range }) rest
    else if is_sound debug keep e
    then Option.map (eliminate_one keep e) rest
    else none

-- `ULONG_MAX` where an assert fails.
abbrev pub ulong_max : ℕ
ulong_max = u64 - 1

-- The digits counted by `while ((j = j/10)) cnt++` on an `int`.
int_digits : ℕ → ℕ
int_digits n = let j = n % u32 in length (decimal (if ltb j (2 ^ 31) then j else u32 - j))

-- The name with the share of the whole life, in percent, cut by `snprintf` to the memory for it.
pub percent_name : JitEntry → ℕ → List ℕ
unfolding int_digits
percent_name e totaltime =
    let pct = if totaltime == 0 then 100 else (lifetime e * 100 % u64) / totaltime in
    take (length e.symbol_name + 2 + int_digits pct) (e.symbol_name ++ (b'%' ∷ decimal pct))

abbrev pub renamed : JitEntry → ℕ → JitEntry
renamed e totaltime = record e { symbol_name = percent_name e totaltime }

-- What an overlap has become: the entries in place, and those appended.
pub record Handled : Type 0 where
  pub range : List JitEntry
  pub added : List JitEntry

-- What follows `eliminate_overlaps` in `handle_overlap_region`; `none` for OP_JIT_CONV_FAIL.
pub finish_region : JitEntry → ℕ → Eliminated → Option Handled
finish_region keep idx r =
    let totaltime = (r.max_end + u64 - r.min_start) % u64 in
    if totaltime == ulong_max
    then none
    else some (record { range = set r.range idx (renamed keep totaltime); added = r.added })

pub keep_at : Bool → ℕ → List JitEntry → Option JitEntry → Option Handled
unfolding finish_region
keep_at debug idx region none = none
keep_at debug idx region (some keep) = elim (eliminate_from debug keep idx 0 region) [
  | some r ↦ finish_region keep idx r
  | none ↦ none
]

-- `handle_overlap_region` of a region, by its first entry and the others.
pub handle_overlap_region : Bool → JitEntry → List JitEntry → Option Handled
unfolding keep_at
handle_overlap_region debug e entries =
    let idx = select_one e entries in keep_at debug idx (e ∷ entries) (get_elem? (e ∷ entries) idx)

-- The array behind a scan: what stands in place, what is appended, and whether there was an overlap.
pub record Scanned : Type 0 where
  pub range : List JitEntry
  pub added : List JitEntry
  pub found : Bool

-- The end of a region: of one entry, or of several that overlap.
pub close_region : Bool → JitEntry → List JitEntry → Option Scanned
close_region debug first [] = some (record { range = first ∷ []; added = []; found = false })
close_region debug first (e ∷ entries) =
    Option.map (λ (h : Handled). record { range = h.range; added = h.added; found = true })
      (handle_overlap_region debug first (e ∷ entries))

abbrev pub join : Scanned → Scanned → Scanned
join s t = record {
  range = s.range ++ t.range;
  added = s.added ++ t.added;
  found = s.found || t.found;
}

abbrev pub both : Option Scanned → Option Scanned → Option Scanned
both (some s) (some t) = some (join s t)
both (some s) none = none
both none t = none

-- The loop of `scan_overlaps`: a region of `first` and `members` so far, the end of all up to here,
-- and the entries from `j` on.
pub scan_from : Bool → JitEntry → List JitEntry → ℕ → List JitEntry → Option Scanned
unfolding close_region
scan_from debug first members end [] = close_region debug first members
scan_from debug first members end (b ∷ rest) =
    let end' = max_of end (end_addr b) in
    let closed = both (close_region debug first members) (scan_from debug b [] end' rest) in
    let longer = scan_from debug first (members ++ (b ∷ [])) end' rest in
    if leb end b.vma then closed else longer

pub scan_overlaps : Bool → List JitEntry → Option Scanned
unfolding scan_from
scan_overlaps debug [] = some (record { range = []; added = []; found = false })
scan_overlaps debug (a ∷ entries) = scan_from debug a [] (max_of 0 (end_addr a)) entries

-- The invalidated entries at the front of a sorted array.
pub drop_invalid : List JitEntry → List JitEntry
drop_invalid [] = []
drop_invalid (e ∷ entries) =
    let rest = drop_invalid entries in if e.vma == 0 then rest else e ∷ entries

pub data Resolved : Type 0 where
  resolved : List JitEntry → Resolved
  conv_fail : Resolved
  -- the rounds given do not suffice
  unfinished : Resolved

-- `qsort` by address
module _ (qsort : List JitEntry → List JitEntry) where
  pub resort_address : List JitEntry → List JitEntry
  unfolding drop_invalid
  resort_address entries = drop_invalid (qsort entries)

  -- The `while` of `resolve_overlaps`, with rounds.
  pub resolve_loop : ℕ → Bool → List JitEntry → Resolved
  resolve_loop zero debug entries = unfinished
  resolve_loop (suc rounds) debug entries = elim (scan_overlaps debug entries) [
    | none ↦ conv_fail
    | some s ↦ elim s.found [
      | true ↦ resolve_loop rounds debug (resort_address (s.range ++ s.added))
      | false ↦ resolved s.range
    ]
  ]

  pub resolve_overlaps : ℕ → Bool → ℕ → List JitEntry → Resolved
  unfolding resolve_loop resort_address
  resolve_overlaps rounds debug start_time entries =
      let (marked, flag) = invalidate_earlybirds start_time entries in
      resolve_loop rounds debug (if flag then resort_address marked else marked)
