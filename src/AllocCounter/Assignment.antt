-- ===== src/AllocCounter/Assignment.antt =====
-- What the events are to be given, with no regard to masks and lists of arcs, and how the lists and
-- masks of libop/op_alloc_counter.c stand for it.
use native.Mathlib.Decide.{ℕ_discrete, dec_lt}
use oprofile.Base.{
  ℕ, u32, ◌+◌, ◌-◌, ◌*◌, ◌%◌, ◌^◌, ◌<◌, ◌≡◌, refl, sym, subst, ◌∙◌, ◌↔◌, ◌⊎◌, inl, inr, bit_or,
  Bool, true, false, Option, some, none, List, [], ◌∷◌, length, arith, ◌==◌, if◌then◌else◌,
  Bool-cases, ==_ne,
}
use oprofile.Base.Bits.{bit, bit-lt, bit-zero, bit-bit_or, bit-pow_self, bit-pow_ne, bit-complement}
use oprofile.Base.Masks.{bit-cut, bit-shifted, bit-unshifted}
use oprofile.AllocCounter.{
  OpEvent, Counters, no_counter, mask_arcs, build_counter_arc, available_of, op_get_counter_mask,
  counters_for,
}
use oprofile.AllocCounter.Arcs.{In, mask_arcs-In}
use oprofile.AllocCounter.Search.{Apart, IsAllocation}

-- An event has a counter of its own mask that is available and given to no later event, or no
-- counter if its mask has none.
abbrev pub IsAssignment : (ℕ → Type 0) → List OpEvent → List ℕ → Type 0
IsAssignment available [] [] = Unit
IsAssignment available [] (c ∷ counter_map) = ⊥
IsAssignment available (e ∷ pev) [] = ⊥
IsAssignment available (e ∷ pev) (c ∷ counter_map) =
    (((c < 32) × (bit e.counter_mask c ≡ 1) × available c × ¬ In c counter_map)
      ⊎ (((d : ℕ) → d < 32 → bit e.counter_mask d ≡ 0) × (c ≡ no_counter)))
    × IsAssignment available pev counter_map

-- The counters that the system shows: the directories, and the timer's.
abbrev pub shown : Counters → List ℕ
shown sys = elim sys.counterlist [
  | none ↦ []
  | some names ↦ if sys.has_timer_fs then (sys.native_nr_counters - 1) ∷ names else names
]

-- Whether a counter is available, and how many there are: those shown to a native cpu, or those
-- of its type if none is; on another cpu all, if it has any.
abbrev pub Available : Bool → ℕ → List ℕ → ℕ → Type 0
Available false nr_counters found c = 0 < nr_counters
Available true nr_counters [] c = c < nr_counters
Available true nr_counters (n ∷ found) c = In c (n ∷ found)

abbrev pub number_of : Bool → ℕ → List ℕ → ℕ
number_of false nr_counters found = nr_counters
number_of true nr_counters [] = nr_counters
number_of true nr_counters (n ∷ found) = length (n ∷ found)

bit-added : (mask n c : ℕ) → bit (bit_or mask (2 ^ n)) c ≡ 1 ↔ ((bit mask c ≡ 1) ⊎ (c ≡ n))
bit-added mask n c = elim (ℕ_discrete c n) [
  | yes e ↦
      let one : bit (2 ^ n) c ≡ 1 = subst (λ k. bit (2 ^ n) k ≡ 1) (sym e) (bit-pow_self n) in
      (λ h. inr e, λ h. omega (arith, bit-bit_or c mask (2 ^ n), one, bit-lt c mask))
  | no ne ↦
      let zero_bit = bit-pow_ne n c (λ e. ne (sym e)) in
      (
        λ h. inl (omega (arith, bit-bit_or c mask (2 ^ n), zero_bit)),
        λ h. elim h [
          | inl b ↦ omega (arith, bit-bit_or c mask (2 ^ n), zero_bit, b)
          | inr e ↦ absurd (ne e)
        ],
      )
]

-- The bits of the directories' mask.
bit-available_of :
    (names : List ℕ) (available c : ℕ)
    → bit (available_of available names) c ≡ 1 ↔ ((bit available c ≡ 1) ⊎ In c names)
unfolding available_of
bit-available_of [] available c = (λ h. inl h, λ h. elim h [ inl b ↦ b | inr i ↦ absurd i ])
bit-available_of (n ∷ names) available c =
    let (to, from) = bit-available_of names (bit_or available (2 ^ n)) c in
    let (set, unset) = bit-added available n c in
    (
      λ h. elim (to h) [
        | inl b ↦ elim (set b) [ inl b' ↦ inl b' | inr e ↦ inr (inl e) ]
        | inr i ↦ inr (inr i)
      ],
      λ h. elim h [
        | inl b ↦ from (inl (unset (inl b)))
        | inr i ↦ elim i [ inl e ↦ from (inl (unset (inr e))) | inr i' ↦ from (inr i') ]
      ],
    )

-- The masks of the counters that are not available.
abbrev IsMaskOf : (ℕ → Type 0) → ℕ → Type 0
IsMaskOf available mask = (c : ℕ) → c < 32 → bit mask c ≡ 0 ↔ available c

-- `(~0) << nr_counters`
low-IsMaskOf : (nr : ℕ) → IsMaskOf (λ c. c < nr) ((2 ^ 32 - 1) * 2 ^ nr % u32)
low-IsMaskOf nr c b =
    let cut = bit-cut ((2 ^ 32 - 1) * 2 ^ nr) c b in
    elim (dec_lt c nr) [
      | yes q ↦ (λ h. q, λ h. cut ∙ bit-shifted nr (2 ^ 32 - 1) c q)
      | no n ↦
          let one : bit (2 ^ 32 - 1) (c - nr) ≡ 1 =
            omega (
              arith,
              bit-complement 32 (c - nr) 0 (omega arith) (omega arith),
              bit-zero (c - nr),
            ) in
          let up = bit-unshifted nr (2 ^ 32 - 1) c (omega arith) in
          (λ h. absurd (omega (arith, h, cut, up, one)), λ h. absurd (n h))
    ]

-- The complement of the mask that the directories and the timer give.
listed-IsMaskOf :
    (names : List ℕ) (available : ℕ)
    → ((c : ℕ) → c < 32 → bit available c ≡ 1 ↔ In c names)
    → IsMaskOf (λ c. In c names) (2 ^ 32 - 1 - available % u32)
listed-IsMaskOf names available iff c b =
    let (to, from) = iff c b in
    let flip = bit-complement 32 c (available % u32) b (omega arith) in
    let cut = bit-cut available c b in
    (
      λ h. to (omega (arith, h, flip, cut, bit-lt c available)),
      λ h. omega (arith, flip, cut, from h),
    )

-- What `map_event_to_counter` starts from is the number of counters and the mask of the others.
abbrev IsLimits : Bool → ℕ → List ℕ → ℕ × ℕ → Type 0
IsLimits native nr found limits =
    (limits.0 ≡ number_of native nr found) × IsMaskOf (Available native nr found) limits.1

foreign-IsLimits :
    (nr : ℕ) (found : List ℕ) (mask : Option (ℕ × ℕ))
    → IsLimits false nr found (counters_for false nr mask)
unfolding counters_for
foreign-IsLimits nr found mask = elim (Bool-cases (nr == 0)) [
  | inl z ↦ rw z (
    refl,
    λ c b.
        let (to, from) = low-IsMaskOf nr c b in
        (λ h. absurd (ground (arith, to h)), λ h. absurd (ground arith)),
  )
  | inr nz ↦ rw nz (refl, λ c b. (λ h. ground arith, λ h. bit-zero c))
]

-- The counters that are listed, if there are any.
native-IsLimits :
    (nr count available : ℕ) (found : List ℕ)
    → count ≡ length found
    → ((c : ℕ) → c < 32 → bit available c ≡ 1 ↔ In c found)
    → IsLimits true nr found (counters_for true nr (some (count, 2 ^ 32 - 1 - available % u32)))
unfolding counters_for
native-IsLimits nr count available [] e iff = rw e (refl, low-IsMaskOf nr)
native-IsLimits nr count available (n ∷ found) e iff =
    rw (==_ne count 0 (λ z. absurd (omega (arith, e, z))))
      (e, listed-IsMaskOf (n ∷ found) available iff)

plain_directories :
    (names : List ℕ) (c : ℕ) → c < 32 → bit (available_of 0 names) c ≡ 1 ↔ In c names
plain_directories names c b =
    let (to, from) = bit-available_of names 0 c in
    (
      λ h. elim (to h) [ inl z ↦ absurd (omega (arith, z, bit-zero c)) | inr i ↦ i ],
      λ i. from (inr i),
    )

with_timer :
    (names : List ℕ) (timer c : ℕ)
    → c < 32
    → bit (bit_or (available_of 0 names) (2 ^ timer)) c ≡ 1 ↔ In c (timer ∷ names)
with_timer names timer c b =
    let (set, unset) = bit-added (available_of 0 names) timer c in
    let (to, from) = plain_directories names c b in
    (
      λ h. elim (set h) [ inl z ↦ inr (to z) | inr e ↦ inl e ],
      λ i. elim i [ inl e ↦ unset (inr e) | inr i' ↦ unset (inl (from i')) ],
    )

pub counters_for-IsLimits :
    (native : Bool) (nr : ℕ) (sys : Counters)
    → IsLimits native nr (shown sys) (counters_for native nr (op_get_counter_mask sys))
unfolding op_get_counter_mask counters_for
counters_for-IsLimits false nr sys = foreign-IsLimits nr (shown sys) (op_get_counter_mask sys)
counters_for-IsLimits true nr sys = go sys.counterlist refl
  where
    timer : ℕ
    timer = sys.native_nr_counters - 1

    go :
        (l : Option (List ℕ))
        → sys.counterlist ≡ l
        → IsLimits true nr (shown sys) (counters_for true nr (op_get_counter_mask sys))
    go none e = rw e (refl, low-IsMaskOf nr)
    go (some names) e = rw e (elim (Bool-cases sys.has_timer_fs) [
      | inl t ↦ rw t (
          native-IsLimits nr (length names + 1) (bit_or (available_of 0 names) (2 ^ timer))
            (timer ∷ names) (omega arith) (with_timer names timer))
      | inr f ↦ rw f (
          native-IsLimits nr (length names) (available_of 0 names) names refl
            (plain_directories names))
    ])

-- In an allocation, a counter is apart from the events when it is not in the map.
Apart-In :
    (ctr_arc : List (List ℕ)) (mask c : ℕ) (counter_map : List ℕ)
    → c < 32
    → IsAllocation ctr_arc mask counter_map
    → Apart c ctr_arc counter_map ↔ ¬ In c counter_map
Apart-In [] mask c [] b a = (λ _ i. i, λ _. tt)
Apart-In [] mask c (d ∷ m) b a = absurd a
Apart-In (arcs ∷ ctr_arc) mask c [] b a = absurd a
Apart-In ([] ∷ ctr_arc) mask c (d ∷ m) b (z, a) =
    let (to, from) = Apart-In ctr_arc mask c m b a in
    (
      λ h i. elim i [ inl e ↦ absurd (omega (arith, e, z, b)) | inr i' ↦ to h i' ],
      λ h. from (λ i. h (inr i)),
    )
Apart-In ((x ∷ xs) ∷ ctr_arc) mask c (d ∷ m) b (_, _, _, a) =
    let (to, from) = Apart-In ctr_arc mask c m b a in
    (
      λ (ne, h) i. elim i [ inl e ↦ ne e | inr i' ↦ to h i' ],
      λ h. (λ e. h (inl e), from (λ i. h (inr i))),
    )

module _ (available : ℕ → Type 0) (mask : ℕ) (limits : IsMaskOf available mask) where
  -- One event, of which the arcs list the counters.
  event_iff :
      (arcs : List ℕ) (e : OpEvent) (pev : List OpEvent) (ctr_arc : List (List ℕ)) (c : ℕ)
      (counter_map : List ℕ)
      → ((d : ℕ) → In d arcs ↔ ((d < 32) × (bit e.counter_mask d ≡ 1)))
      → IsAllocation ctr_arc mask counter_map ↔ IsAssignment available pev counter_map
      → IsAllocation (arcs ∷ ctr_arc) mask (c ∷ counter_map)
        ↔ IsAssignment available (e ∷ pev) (c ∷ counter_map)
  event_iff [] e pev ctr_arc c m listed (to, from) = (
    λ (z, a). (inr (none_listed, z), to a),
    λ (h, a). elim h [
      | inl (b, one, _, _) ↦ absurd ((listed c).1 (b, one))
      | inr (_, z) ↦ (z, from a)
    ],
  )
    where
      none_listed : (d : ℕ) → d < 32 → bit e.counter_mask d ≡ 0
      none_listed d b = elim (ℕ_discrete (bit e.counter_mask d) 1) [
        | yes one ↦ absurd ((listed d).1 (b, one))
        | no n ↦ omega (arith, n, bit-lt d e.counter_mask)
      ]
  event_iff (x ∷ xs) e pev ctr_arc c m listed (to, from) = (
    λ (i, z, apart, a).
        let (b, one) = (listed c).0 i in
        (inl (b, one, (limits c b).0 z, (Apart-In ctr_arc mask c m b a).0 apart), to a),
    λ (h, a). elim h [
      | inl (b, one, free, new) ↦ (
        (listed c).1 (b, one),
        (limits c b).1 free,
        (Apart-In ctr_arc mask c m b (from a)).1 new,
        from a,
      )
      | inr (zeros, _) ↦
          let (b, one) = (listed x).0 (inl refl) in absurd (omega (arith, one, zeros x b))
    ],
  )

  -- The search's allocations are the assignments.
  pub IsAllocation-IsAssignment :
      (pev : List OpEvent) (counter_map : List ℕ)
      → IsAllocation (build_counter_arc pev) mask counter_map
        ↔ IsAssignment available pev counter_map
  unfolding build_counter_arc
  IsAllocation-IsAssignment [] [] = (λ h. h, λ h. h)
  IsAllocation-IsAssignment [] (c ∷ m) = (λ h. h, λ h. h)
  IsAllocation-IsAssignment (e ∷ pev) [] = (λ h. absurd h, λ h. h)
  IsAllocation-IsAssignment (e ∷ pev) (c ∷ m) =
      event_iff (mask_arcs 32 0 e.counter_mask) e pev (build_counter_arc pev) c m
        (mask_arcs-In e.counter_mask).1 (IsAllocation-IsAssignment pev m)
