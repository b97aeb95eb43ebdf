-- ===== src/AllocCounter/Map.antt =====
-- `map_event_to_counter` (libop/op_alloc_counter.c): the counters that the events are given.
use oprofile.Base.{
  ℕ, ◌+◌, ◌≤◌, ◌<◌, ◌≡◌, ◌⊎◌, inl, inr, Bool, true, false, some, none, List, [], ◌∷◌, arith,
  Bool-cases, if◌then◌else◌,
}
use mathlib.Core.Option.{none-ne-some}
use oprofile.AllocCounter.{
  OpEvent, Counters, build_counter_arc, enough_counters, counters_for, op_get_counter_mask,
  map_event_to_counter,
}
use oprofile.AllocCounter.Search.{allocate_counter-IsAllocation}
use oprofile.AllocCounter.Assignment.{
  IsAssignment, shown, Available, number_of, counters_for-IsLimits, IsAllocation-IsAssignment,
}

-- The events that want a physical counter.
abbrev pub pmc_events : List OpEvent → ℕ
pmc_events [] = 0
pmc_events (e ∷ pev) = (if e.ext then 0 else 1) + pmc_events pev

enough_counters_iff :
    (pev : List OpEvent) (taken count : ℕ)
    → taken ≤ count
    → (enough_counters pev taken count ≡ true → taken + pmc_events pev ≤ count)
      × (enough_counters pev taken count ≡ false → count < taken + pmc_events pev)
unfolding enough_counters
enough_counters_iff [] taken count h = ground arith
enough_counters_iff (e ∷ pev) taken count h =
    ground (arith, enough_counters_iff pev taken count h, enough_counters_iff pev (taken + 1) count)

-- A counter map that map_event_to_counter returns gives each event a counter below 32 whose bit is
-- set in the event's mask, that is available and that no other event has, or -1 when no bit is
-- set; and the events that want a physical counter are no more than the counters. When it returns
-- none they are more than that, or no such map exists. The counters are those of the directories
-- and the timer where the native cpu has any, else the numbers below the count of the cpu's type;
-- on another cpu every number is available if its count is not 0.
pub map_event_to_counter-IsAssignment :
    (native : Bool) (nr_counters : ℕ) (sys : Counters) (pev : List OpEvent)
    → ((counter_map : List ℕ)
        → map_event_to_counter native nr_counters sys pev ≡ some counter_map
        → IsAssignment (Available native nr_counters (shown sys)) pev counter_map
          × (pmc_events pev ≤ number_of native nr_counters (shown sys)))
      × (map_event_to_counter native nr_counters sys pev ≡ none
          → (number_of native nr_counters (shown sys) < pmc_events pev)
            ⊎ ((counter_map : List ℕ)
                → ¬ IsAssignment (Available native nr_counters (shown sys)) pev counter_map))
unfolding map_event_to_counter
map_event_to_counter-IsAssignment native nr_counters sys pev =
    let limits = counters_for native nr_counters (op_get_counter_mask sys) in
    let (counted, masked) = counters_for-IsLimits native nr_counters sys in
    let arcs = build_counter_arc pev in
    let fits = enough_counters_iff pev 0 limits.0 (omega arith) in
    let iff =
      IsAllocation-IsAssignment (Available native nr_counters (shown sys)) limits.1 masked pev in
    let (sound, complete) = allocate_counter-IsAllocation arcs limits.1 in
    elim (Bool-cases (enough_counters pev 0 limits.0)) [
      | inl t ↦ rw t (
        λ m h. ((iff m).0 (sound m h), omega (arith, fits.0 t, counted)),
        λ h. inr (λ m a. complete h m ((iff m).1 a)),
      )
      | inr f ↦ rw f (λ m h. absurd (none-ne-some m h), λ h. inl (omega (arith, fits.1 f, counted)))
    ]
