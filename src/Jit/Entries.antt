-- ===== src/Jit/Entries.antt =====
-- Entries of opjitconv/jitsymbol.c by the addresses that they cover, and what a split does to them.
use oprofile.Base.{
  ℕ, ◌+◌, ◌-◌, ◌%◌, ◌^◌, ◌≤◌, ◌<◌, ◌≡◌, refl, ◌∙◌, Bool, true, false, ◌&&◌, inl, inr, List, [], ◌∷◌,
  ◌++◌, ltb, leb, ◌==◌, if◌then◌else◌, u32, u64, arith, Bool-cases, lt→ltb,
}
use oprofile.Jit.{
  JitEntry, end_addr, invalidate_entry, right_part, left_part, is_overlapping, ulong_max,
}

-- The entries' values of a function, added up.
unfoldable pub sum : (JitEntry → ℕ) → List JitEntry → ℕ
sum f [] = 0
sum f (e ∷ entries) = f e + sum f entries

-- Whether a live entry's code stands at the address `x`, as 0 or 1; an invalidated entry has address 0.
abbrev pub covers : ℕ → JitEntry → Bool
covers x e = leb e.vma x && ltb x (e.vma + e.code_size)

abbrev pub cover : ℕ → JitEntry → ℕ
cover x e = if e.vma == 0 then 0 else if covers x e then 1 else 0

abbrev pub live_size : JitEntry → ℕ
live_size e = if e.vma == 0 then 0 else e.code_size

-- Code that has an address and a size, within the address space, and a life.
pub record IsSane (e : JitEntry) : Type 0 where
  pub placed : 0 < e.vma
  pub sized : 0 < e.code_size
  pub small : e.code_size < 2 ^ 31
  pub fits : e.vma + e.code_size < u64
  pub lives : e.life_start ≤ e.life_end
  pub ends : e.life_end < ulong_max

abbrev is_sane : JitEntry → Bool
is_sane e =
    ltb 0 e.code_size
    && (ltb e.code_size (2 ^ 31)
        && (ltb (e.vma + e.code_size) u64
            && (leb e.life_start e.life_end && ltb e.life_end ulong_max)))

-- 1 for an entry that is neither invalidated nor sane.
abbrev pub faulty : JitEntry → ℕ
faulty e = if e.vma == 0 then 0 else if is_sane e then 0 else 1

pub faulty-IsSane : (e : JitEntry) → faulty e ≡ 0 → 0 < e.vma → IsSane e
faulty-IsSane e h p = ground arith

pub IsSane-faulty : (e : JitEntry) → IsSane e → faulty e ≡ 0
IsSane-faulty e s = ground arith

pub end_addr-sane : (e : JitEntry) → IsSane e → end_addr e ≡ e.vma + e.code_size
unfolding end_addr
end_addr-sane e s = rw (lt→ltb e.code_size (2 ^ 31) s.small) (omega arith)

module _ (e keep : JitEntry) (s : IsSane e) (k : IsSane keep)
    (overlap : is_overlapping keep e ≡ true) where
  overlaps : (e.vma < keep.vma + keep.code_size) × (keep.vma < e.vma + e.code_size)
  unfolding is_overlapping
  overlaps =
      let h : ltb e.vma (keep.vma + keep.code_size) && ltb keep.vma (e.vma + e.code_size) ≡ true =
        rw (end_addr-sane e s, end_addr-sane keep k) at overlap in
      ground arith

  left_size : ltb e.vma keep.vma ≡ true → (keep.vma - e.vma) % u32 ≡ keep.vma - e.vma
  left_size t = let (o₁, o₂) = overlaps in omega (arith, s.small)

  right_size :
      (e.vma + e.code_size - (keep.vma + keep.code_size)) % u32
      ≡ e.vma + e.code_size - (keep.vma + keep.code_size)
  right_size = let (o₁, o₂) = overlaps in omega (arith, s.small)

  abbrev kept_left : JitEntry
  kept_left = record e {
    code_size = keep.vma - e.vma;
    symbol_name = e.symbol_name ++ (b'#' ∷ b'0' ∷ []);
  }

  abbrev new_right : JitEntry
  new_right = record e {
    vma = keep.vma + keep.code_size;
    code_size = e.vma + e.code_size - (keep.vma + keep.code_size);
    symbol_name = e.symbol_name ++ (b'#' ∷ b'1' ∷ []);
  }

  left-lt : ltb e.vma keep.vma ≡ true → left_part e keep ≡ kept_left
  unfolding left_part
  left-lt t = rw (t, left_size t) refl

  left-ge : ltb e.vma keep.vma ≡ false → left_part e keep ≡ invalidate_entry e
  unfolding left_part
  left-ge f = rw f refl

  abbrev sticks_out : Bool
  sticks_out = ltb (keep.vma + keep.code_size) (e.vma + e.code_size)

  right-lt : sticks_out ≡ true → right_part e keep ≡ new_right ∷ []
  unfolding right_part
  right-lt t = rw (end_addr-sane e s, end_addr-sane keep k, t, right_size) refl

  right-ge : sticks_out ≡ false → right_part e keep ≡ []
  unfolding right_part
  right-ge f = rw (end_addr-sane e s, end_addr-sane keep k, f) refl

  -- A function of the parts, by the two tests.
  split_cases :
      (f : JitEntry → ℕ) (P : ℕ → Type 0)
      → (ltb e.vma keep.vma ≡ true → sticks_out ≡ true → P (f kept_left + (f new_right + 0)))
      → (ltb e.vma keep.vma ≡ true → sticks_out ≡ false → P (f kept_left + 0))
      → (ltb e.vma keep.vma ≡ false
          → sticks_out ≡ true
          → P (f (invalidate_entry e) + (f new_right + 0)))
      → (ltb e.vma keep.vma ≡ false → sticks_out ≡ false → P (f (invalidate_entry e) + 0))
      → P (f (left_part e keep) + sum f (right_part e keep))
  unfolding sum
  split_cases f P a b c d = elim (Bool-cases (ltb e.vma keep.vma)) [
    | inl t ↦ elim (Bool-cases sticks_out) [
      | inl t' ↦ rw (left-lt t, right-lt t') (a t t')
      | inr f' ↦ rw (left-lt t, right-ge f') (b t f')
    ]
    | inr g ↦ elim (Bool-cases sticks_out) [
      | inl t' ↦ rw (left-ge g, right-lt t') (c g t')
      | inr f' ↦ rw (left-ge g, right-ge f') (d g f')
    ]
  ]

  -- Of two overlapping symbols whose addresses are not 0, whose sizes are from 1 to 2^31 - 1 and
  -- whose ends stay below 2^64, and whose lives end no earlier than they start and before
  -- ULONG_MAX, the parts that splitting one leaves cover, each once, the addresses that it covers
  -- and the other does not.
  pub split-cover :
      (x : ℕ)
      → cover x (left_part e keep) + sum (cover x) (right_part e keep)
        ≡ (if covers x keep then 0 else cover x e)
  split-cover x =
      let (o₁, o₂) = overlaps in
      split_cases (cover x) (λ n. n ≡ (if covers x keep then 0 else cover x e))
        (λ t t'. ground arith) (λ t t'. ground arith) (λ t t'. ground arith) (λ t t'. ground arith)

  pub split-cover_le :
      (x : ℕ) → cover x (left_part e keep) + sum (cover x) (right_part e keep) ≤ cover x e
  split-cover_le x = ground (arith, split-cover x)

  pub split-cover_eq :
      (x : ℕ)
      → covers x keep ≡ false
      → cover x (left_part e keep) + sum (cover x) (right_part e keep) ≡ cover x e
  split-cover_eq x h = split-cover x ∙ rw h refl

  -- The parts are smaller than the entry.
  pub split-live_size :
      live_size (left_part e keep) + sum live_size (right_part e keep) < live_size e
  split-live_size =
      let (o₁, o₂) = overlaps in
      split_cases live_size (λ n. n < live_size e) (λ t t'. ground arith) (λ t t'. ground arith)
        (λ t t'. ground arith) (λ t t'. ground arith)

  pub split-faulty : faulty (left_part e keep) + sum faulty (right_part e keep) ≡ 0
  split-faulty =
      let (o₁, o₂) = overlaps in
      split_cases faulty (λ n. n ≡ 0) (λ t t'. ground arith) (λ t t'. ground arith)
        (λ t t'. ground arith) (λ t t'. ground arith)
