-- ===== src/Jit/Stall.antt =====
-- Where the loop of `resolve_overlaps` (opjitconv/jitsymbol.c) does not end: a symbol of a negative
-- size inside another.
use oprofile.Base.{
  ℕ, zero, suc, ◌+◌, ◌-◌, ◌%◌, ◌^◌, ◌≤◌, ◌<◌, ◌≡◌, refl, true, false, inl, inr, some, List, [], ◌∷◌,
  ltb, leb, u64, arith, Bool-cases, ==_ne, lt→ltb,
}
use oprofile.Jit.{
  JitEntry, end_addr, lifetime, is_overlapping, is_sound, eliminate_one, eliminate_from, ulong_max,
  max_of, select_from, select_one, renamed, finish_region, keep_at, handle_overlap_region,
  close_region, scan_from, scan_overlaps, drop_invalid, unfinished, resort_address, resolve_loop,
}

-- A symbol, and inside it the start of one whose size, an `int`, is negative, so that it ends no
-- later than the first starts.
pub record IsStuck (a b : JitEntry) : Type 0 where
  pub placed : 0 < a.vma
  pub later : a.vma < b.vma
  pub inside : b.vma < a.vma + a.code_size
  pub small : a.code_size < 2 ^ 31
  pub fits : a.vma + a.code_size < u64
  pub backward : end_addr b ≤ a.vma
  pub lives : (a.life_start ≤ a.life_end) × (a.life_end < ulong_max)
  pub lives' : (b.life_start ≤ b.life_end) × (b.life_end < ulong_max)

module _ (a b : JitEntry) (s : IsStuck a b) where
  end_a : end_addr a ≡ a.vma + a.code_size
  unfolding end_addr
  end_a = rw (lt→ltb a.code_size (2 ^ 31) s.small) (omega (arith, s.fits))

  -- Neither overlaps the other by the test of `eliminate_overlaps`.
  apart_ab : is_overlapping a b ≡ false
  unfolding is_overlapping
  apart_ab = ground (arith, s.backward)

  apart_ba : is_overlapping b a ≡ false
  unfolding is_overlapping
  apart_ba = ground (arith, s.backward)

  -- Whichever is kept, the other stays as it is.
  keeps_first :
      eliminate_from false a 0 0 (a ∷ b ∷ [])
      ≡ some (record {
        range = a ∷ b ∷ [];
        added = [];
        min_start = a.life_start;
        max_end = a.life_end;
      })
  unfolding eliminate_from eliminate_one is_sound
  keeps_first = rw (apart_ab) refl

  keeps_second :
      eliminate_from false b 1 0 (a ∷ b ∷ [])
      ≡ some (record {
        range = a ∷ b ∷ [];
        added = [];
        min_start = b.life_start;
        max_end = b.life_end;
      })
  unfolding eliminate_from eliminate_one is_sound
  keeps_second = rw (apart_ba) refl

  -- The share of the life that a name gets.
  abbrev renamed_first : JitEntry
  renamed_first = renamed a ((a.life_end + u64 - a.life_start) % u64)

  abbrev renamed_second : JitEntry
  renamed_second = renamed b ((b.life_end + u64 - b.life_start) % u64)

  first_handled :
      keep_at false 0 (a ∷ b ∷ []) (some a)
      ≡ some (record { range = renamed_first ∷ b ∷ []; added = [] })
  unfolding keep_at finish_region
  first_handled =
      let (le, lt) = s.lives in
      rw
        (
          keep_at,
          keeps_first,
          ==_ne ((a.life_end + u64 - a.life_start) % u64) ulong_max (omega arith),
        )
        refl

  second_handled :
      keep_at false 1 (a ∷ b ∷ []) (some b)
      ≡ some (record { range = a ∷ renamed_second ∷ []; added = [] })
  unfolding keep_at finish_region
  second_handled =
      let (le, lt) = s.lives' in
      rw
        (
          keep_at,
          keeps_second,
          ==_ne ((b.life_end + u64 - b.life_start) % u64) ulong_max (omega arith),
        )
        refl

  IsStuck-first : IsStuck renamed_first b
  unfolding end_addr
  IsStuck-first = record {
    placed = s.placed;
    later = s.later;
    inside = s.inside;
    small = s.small;
    fits = s.fits;
    backward = s.backward;
    lives = s.lives;
    lives' = s.lives';
  }

  IsStuck-second : IsStuck a renamed_second
  unfolding end_addr
  IsStuck-second = record {
    placed = s.placed;
    later = s.later;
    inside = s.inside;
    small = s.small;
    fits = s.fits;
    backward = s.backward;
    lives = s.lives;
    lives' = s.lives';
  }

  -- The scan finds an overlap, and leaves two such symbols.
  handled-IsStuck :
      (a' b' : JitEntry) × (handle_overlap_region false a (b ∷ [])
        ≡ some (record { range = a' ∷ b' ∷ []; added = [] }))
      × IsStuck a' b'
  unfolding handle_overlap_region select_one select_from
  handled-IsStuck = elim (Bool-cases (ltb (lifetime a) (lifetime b))) [
    | inl t ↦ (a, renamed_second, rw t second_handled, IsStuck-second)
    | inr f ↦ (renamed_first, b, rw f first_handled, IsStuck-first)
  ]

  scan-IsStuck :
      (a' b' : JitEntry) × (scan_overlaps false (a ∷ b ∷ [])
        ≡ some (record { range = a' ∷ b' ∷ []; added = []; found = true }))
      × IsStuck a' b'
  unfolding scan_overlaps scan_from close_region
  scan-IsStuck =
      let (a', b', run, s') = handled-IsStuck in
      let below : leb (max_of 0 (a.vma + a.code_size)) b.vma ≡ false = ground (arith, s.inside) in
      (a', b', rw (end_a, below, run) refl, s')

-- The addresses increase, each of them above the one before.
abbrev pub Increasing : ℕ → List JitEntry → Type 0
Increasing lo [] = Unit
Increasing lo (e ∷ entries) = (lo < e.vma) × Increasing e.vma entries

module _ (qsort : List JitEntry → List JitEntry)
    (sorted : (entries : List JitEntry) → Increasing 0 entries → qsort entries ≡ entries) where
  resorted : (a b : JitEntry) → IsStuck a b → resort_address qsort (a ∷ b ∷ []) ≡ a ∷ b ∷ []
  unfolding resort_address drop_invalid
  resorted a b s =
      rw (sorted (a ∷ b ∷ []) (s.placed, (s.later, tt)), ==_ne a.vma 0 (omega (arith, s.placed)))
        refl

  -- For a qsort that leaves entries of strictly increasing addresses as they are, without
  -- debugging, and two symbols, the first at an address that is not 0, of a size below 2^31 and of
  -- an end below 2^64, the second at a higher address inside the first and of a negative size, so
  -- that it ends no later than the first starts, whose lives end no earlier than they start and
  -- before ULONG_MAX: whatever the rounds, the loop of resolve_overlaps does not come to an end.
  pub resolve_loop-stalls :
      (rounds : ℕ) (a b : JitEntry)
      → IsStuck a b
      → resolve_loop qsort rounds false (a ∷ b ∷ []) ≡ unfinished
  unfolding resolve_loop
  resolve_loop-stalls zero a b s = refl
  resolve_loop-stalls (suc rounds) a b s =
      let (a', b', run, s') = scan-IsStuck a b s in
      rw (resolve_loop, run, resorted a' b' s') (resolve_loop-stalls rounds a' b' s')
