-- ===== src/AllocCounter.antt =====
-- Allocation of hardware counters to events (libop/op_alloc_counter.c).
mod Arcs
mod Search
mod Assignment
mod Map
mod Tests
use mathlib.Core.Option
use oprofile.Base.{
  u32, ℕ, zero, suc, ◌+◌, ◌-◌, ◌*◌, ◌%◌, ◌^◌, bit_and, bit_or, Bool, true, false, Option, none,
  some, List, [], ◌∷◌, length, ltb, leb, ◌==◌, if◌then◌else◌, map,
}

-- `1 << j` as a `u32`, and its complement
abbrev pub shifted : ℕ → ℕ
shifted j = 2 ^ j

abbrev pub cleared : ℕ → ℕ → ℕ
cleared mask j = bit_and mask (2 ^ 32 - 1 - shifted j)

-- The part of `struct op_event` that the allocation reads; `ext` says whether it is not NULL.
pub record OpEvent : Type 0 where
  pub counter_mask : ℕ
  pub ext : Bool

-- The inner loop of `build_counter_arc` from `j` on: the counters of the mask, in increasing order.
-- The rounds bound `j`, since a shift by 32 or more is undefined.
pub mask_arcs : ℕ → ℕ → ℕ → List ℕ
mask_arcs zero j mask = []
mask_arcs (suc rounds) j mask =
    let hit = j ∷ mask_arcs rounds (suc j) (cleared mask j) in
    let miss = mask_arcs rounds (suc j) mask in
    if mask == 0 then [] else if bit_and mask (shifted j) == 0 then miss else hit

pub build_counter_arc : List OpEvent → List (List ℕ)
unfolding mask_arcs
build_counter_arc [] = []
build_counter_arc (e ∷ pev) = mask_arcs 32 0 e.counter_mask ∷ build_counter_arc pev

-- `counter_map[depth] = -1`, a `size_t`
abbrev pub no_counter : ℕ
no_counter = 2 ^ 64 - 1

-- The `list_for_each` of `allocate_counter`: `deeper` allocates the levels below.
pub try_counters : (ℕ → Option (List ℕ)) → ℕ → List ℕ → Option (List ℕ)
try_counters deeper allocated_mask [] = none
try_counters deeper allocated_mask (counter ∷ arcs) =
    let next = try_counters deeper allocated_mask arcs in
    if bit_and allocated_mask (shifted counter) == 0
    then elim (deeper (bit_or allocated_mask (shifted counter))) [
      | some counter_map ↦ some (counter ∷ counter_map)
      | none ↦ next
    ]
    else next

-- `allocate_counter`: the part of `counter_map` from this depth on, or `none` for 0.
pub allocate_counter : List (List ℕ) → ℕ → Option (List ℕ)
unfolding try_counters
allocate_counter [] allocated_mask = some []
allocate_counter ([] ∷ ctr_arc) allocated_mask =
    Option.map (λ counter_map. no_counter ∷ counter_map) (allocate_counter ctr_arc allocated_mask)
allocate_counter ((counter ∷ arcs) ∷ ctr_arc) allocated_mask =
    try_counters (allocate_counter ctr_arc) allocated_mask (counter ∷ arcs)

-- What `op_get_counter_mask` finds: the numbers of the directories of /dev/oprofile (`none` when
-- `scandir` fails), whether a timer file system is there, and the counters of the native cpu.
pub record Counters : Type 0 where
  pub counterlist : Option (List ℕ)
  pub has_timer_fs : Bool
  pub native_nr_counters : ℕ

pub available_of : ℕ → List ℕ → ℕ
available_of available [] = available
available_of available (n ∷ names) = available_of (bit_or available (shifted n)) names

-- The number of counters (`none` for -1) and the mask of those that are not available.
pub op_get_counter_mask : Counters → Option (ℕ × ℕ)
unfolding available_of
op_get_counter_mask sys = elim sys.counterlist [
  | none ↦ none
  | some names ↦
      let available =
        if sys.has_timer_fs
        then bit_or (available_of 0 names) (shifted (sys.native_nr_counters - 1))
        else available_of 0 names in
      let count = if sys.has_timer_fs then length names + 1 else length names in
      some (count, 2 ^ 32 - 1 - available % u32)
]

-- The number of counters and the unavailable ones that `map_event_to_counter` starts from; a native
-- cpu asks the system, and no counters there mean those of the cpu's type.
pub counters_for : Bool → ℕ → Option (ℕ × ℕ) → ℕ × ℕ
counters_for false nr_counters found =
    if nr_counters == 0
    then (nr_counters, ((2 ^ 32 - 1) * 2 ^ nr_counters) % u32)
    else (nr_counters, 0)
counters_for true nr_counters none = (nr_counters, ((2 ^ 32 - 1) * 2 ^ nr_counters) % u32)
counters_for true nr_counters (some (count, unavailable)) =
    if count == 0
    then (nr_counters, ((2 ^ 32 - 1) * 2 ^ nr_counters) % u32)
    else (count, unavailable)

-- The loop that counts the events which want a physical counter: whether they fit.
pub enough_counters : List OpEvent → ℕ → ℕ → Bool
enough_counters [] nr_pmc_events nr_counters = true
enough_counters (e ∷ pev) nr_pmc_events nr_counters =
    let taken = enough_counters pev (nr_pmc_events + 1) nr_counters in
    let other = enough_counters pev nr_pmc_events nr_counters in
    if e.ext then other else if ltb nr_counters (nr_pmc_events + 1) then false else taken

-- `map_event_to_counter`; `native` says whether the cpu type is that of the machine.
pub map_event_to_counter : Bool → ℕ → Counters → List OpEvent → Option (List ℕ)
unfolding counters_for
map_event_to_counter native nr_counters sys pev =
    let (count, unavailable) = counters_for native nr_counters (op_get_counter_mask sys) in
    if enough_counters pev 0 count
    then allocate_counter (build_counter_arc pev) unavailable
    else none
