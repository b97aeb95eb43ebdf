-- ===== src/AllocCounter/Tests.antt =====
-- Runs of the counter allocation on small machines, and the theorems at inputs.
use oprofile.Base.{ℕ, ◌≤◌, ◌<◌, ◌≡◌, ◌⊎◌, refl, true, false, some, none, List, [], ◌∷◌}
use oprofile.AllocCounter.{
  OpEvent, Counters, no_counter, mask_arcs, build_counter_arc, allocate_counter, enough_counters,
  op_get_counter_mask, map_event_to_counter,
}
use oprofile.AllocCounter.Search.{IsAllocation, allocate_counter-IsAllocation}
use oprofile.AllocCounter.Assignment.{IsAssignment, shown, Available, number_of}
use oprofile.AllocCounter.Map.{pmc_events, map_event_to_counter-IsAssignment}

abbrev event_of : ℕ → OpEvent
event_of mask = record { counter_mask = mask; ext = false }

-- Two events of one counter only, behind one that can go to either.
abbrev crowded : List OpEvent
crowded = event_of 0b11 ∷ event_of 0b01 ∷ record { counter_mask = 0; ext = true } ∷ []

abbrev four_counters : Counters
four_counters = record {
  counterlist = some (0 ∷ 1 ∷ 2 ∷ 3 ∷ []);
  has_timer_fs = false;
  native_nr_counters = 4;
}

abbrev no_oprofilefs : Counters
no_oprofilefs = record { counterlist = none; has_timer_fs = false; native_nr_counters = 2 }

program : Unit {0}
unfolding mask_arcs build_counter_arc allocate_counter enough_counters op_get_counter_mask
    map_event_to_counter
program = tt

-- The search gives the first event its second counter, since the other event has no choice.
crowded_runs : map_event_to_counter true 4 four_counters crowded ≡ some (1 ∷ 0 ∷ no_counter ∷ [])
unfolding program
crowded_runs = refl

clash_runs : map_event_to_counter true 2 no_oprofilefs (event_of 0b10 ∷ event_of 0b10 ∷ []) ≡ none
unfolding program
clash_runs = refl

abbrev two_levels : List (List ℕ)
two_levels = (0 ∷ 1 ∷ []) ∷ (0 ∷ []) ∷ []

allocate_counter-IsAllocation_example :
    ((counter_map : List ℕ)
      → allocate_counter two_levels 4 ≡ some counter_map
      → IsAllocation two_levels 4 counter_map)
    × (allocate_counter two_levels 4 ≡ none
        → (counter_map : List ℕ) → ¬ IsAllocation two_levels 4 counter_map)
allocate_counter-IsAllocation_example = allocate_counter-IsAllocation two_levels 4

map_event_to_counter-IsAssignment_example :
    ((counter_map : List ℕ)
      → map_event_to_counter true 4 four_counters crowded ≡ some counter_map
      → IsAssignment (Available true 4 (shown four_counters)) crowded counter_map
        × (pmc_events crowded ≤ number_of true 4 (shown four_counters)))
    × (map_event_to_counter true 4 four_counters crowded ≡ none
        → (number_of true 4 (shown four_counters) < pmc_events crowded)
          ⊎ ((counter_map : List ℕ)
              → ¬ IsAssignment (Available true 4 (shown four_counters)) crowded counter_map))
map_event_to_counter-IsAssignment_example =
    map_event_to_counter-IsAssignment true 4 four_counters crowded
