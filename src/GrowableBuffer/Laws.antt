-- ===== src/GrowableBuffer/Laws.antt =====
-- The growable buffer (libutil/op_growable_buffer.c) holds the bytes added, one piece behind the
-- other.
use mathlib.Core.List.{append-nil, append_assoc}
use oprofile.Base.{
  ℕ, zero, suc, ◌+◌, ◌*◌, ◌%◌, ◌≤◌, ◌<◌, ◌≡◌, refl, sym, ap, ◌∙◌, true, false, inl, inr, List, [],
  ◌∷◌, ◌++◌, length, length-append, Option, some, none, ltb, ◌==◌, if◌then◌else◌, u64, arith,
  Bool-cases, not_lt→ltb, ltb→lt, lt→ltb, ltb→lt, ==_ne, ==_refl,
}
use oprofile.GrowableBuffer.{GrowableBuffer, init_buffer, xrealloc, grow_buffer, memcpy, add_data}

-- The `n` bytes from an address on.
unfoldable pub bytes : (ℕ → ℕ) → ℕ → ℕ → List ℕ
bytes p from zero = []
bytes p from (suc n) = p from ∷ bytes p (from + 1) n

abbrev pub contents : GrowableBuffer → List ℕ
contents b = bytes b.p 0 b.size

-- The bytes held fit the memory, which is at most four times as long.
abbrev pub IsWithin : GrowableBuffer → Type 0
IsWithin b = (b.size ≤ b.max_size) × (b.max_size ≤ 4 * b.size)

bytes_congr :
    (p q : ℕ → ℕ) (from n : ℕ)
    → ((i : ℕ) → from ≤ i → i < from + n → p i ≡ q i)
    → bytes p from n ≡ bytes q from n
unfolding bytes
bytes_congr p q from zero h = refl
bytes_congr p q from (suc n) h =
    let e = h from (omega arith) (omega arith) in
    let r = bytes_congr p q (from + 1) n (λ i a b. h i (omega arith) (omega arith)) in
    rw (e, r) refl

bytes-append :
    (p : ℕ → ℕ) (from m n : ℕ) → bytes p from (m + n) ≡ bytes p from m ++ bytes p (from + m) n
unfolding bytes
bytes-append p from zero n =
    let z : 0 + n ≡ n = omega arith in let z' : from + 0 ≡ from = omega arith in rw (z, z') refl
bytes-append p from (suc m) n =
    let a : suc m + n ≡ suc (m + n) = omega arith in
    let b : from + suc m ≡ from + 1 + m = omega arith in
    rw (a, b, bytes-append p (from + 1) m n) refl

memcpy-below : (p : ℕ → ℕ) (to : ℕ) (data' : List ℕ) (i : ℕ) → i < to → memcpy p to data' i ≡ p i
unfolding memcpy
memcpy-below p to [] i h = refl
memcpy-below p to (c ∷ data') i h =
    memcpy-below (λ j. if j == to then c else p j) (to + 1) data' i (omega arith)
    ∙ rw (==_ne i to (omega arith)) refl

bytes-memcpy :
    (p : ℕ → ℕ) (to : ℕ) (data' : List ℕ) → bytes (memcpy p to data') to (length data') ≡ data'
unfolding bytes memcpy
bytes-memcpy p to [] = refl
bytes-memcpy p to (c ∷ data') =
    let q : ℕ → ℕ = λ j. if j == to then c else p j in
    let first : memcpy q (to + 1) data' to ≡ c =
      memcpy-below q (to + 1) data' to (omega arith) ∙ rw (==_refl to) refl in
    rw (first, bytes-memcpy q (to + 1) data') refl

-- Bytes copied behind those held.
copied :
    (p q : ℕ → ℕ) (n : ℕ) (data' : List ℕ)
    → ((i : ℕ) → i < n → q i ≡ p i)
    → bytes (memcpy q n data') 0 (n + length data') ≡ bytes p 0 n ++ data'
copied p q n data' h =
    let z : 0 + n ≡ n = omega arith in
    rw
      (
        bytes-append (memcpy q n data') 0 n (length data'),
        bytes_congr (memcpy q n data') p 0 n
            (λ i a b. memcpy-below q n data' i (omega arith) ∙ h i (omega arith)),
        z,
        bytes-memcpy q n data',
      )
      refl

module _ (memory : ℕ → ℕ) (b : GrowableBuffer) (within : IsWithin b) (data' : List ℕ)
    (few : 10 * (b.size + length data') < u64) where
  abbrev Added : GrowableBuffer → Type 0
  Added b' = IsWithin b' × (contents b' ≡ contents b ++ data') × (b'.size ≡ b.size + length data')

  abbrev sized : ℕ
  sized = b.size + length data'

  abbrev kept : GrowableBuffer
  kept = record { p = memcpy b.p b.size data'; size = sized; max_size = b.max_size }

  abbrev grown : GrowableBuffer
  grown = record {
    p = memcpy (xrealloc memory b.max_size b.p) b.size data';
    size = sized;
    max_size = (b.max_size + sized) * 2;
  }

  no_wrap : sized % u64 ≡ sized
  no_wrap = omega arith

  add_data-kept : ltb b.max_size sized ≡ false → add_data memory b data' ≡ some kept
  unfolding add_data
  add_data-kept f = rw (no_wrap, f, f) refl

  add_data-grown : ltb b.max_size sized ≡ true → add_data memory b data' ≡ some grown
  unfolding add_data grow_buffer
  add_data-grown t =
      let m : (b.max_size + sized) * 2 % u64 ≡ (b.max_size + sized) * 2 = omega arith in
      rw (no_wrap, t, m, not_lt→ltb ((b.max_size + sized) * 2) sized (λ h. absurd (omega arith)))
        refl

  pub add_data-Added : (b' : GrowableBuffer) × (add_data memory b data' ≡ some b') × Added b'
  add_data-Added = elim (Bool-cases (ltb b.max_size sized)) [
    | inl t ↦
        let lt : b.max_size < sized = ltb→lt b.max_size sized t in
        (
          grown,
          add_data-grown t,
          (
            (omega arith, omega arith),
            copied b.p (xrealloc memory b.max_size b.p) b.size data'
                (λ i h. rw (lt→ltb i b.max_size (omega arith)) refl),
            refl,
          ),
        )
    | inr f ↦ (
      kept,
      add_data-kept f,
      ((ground arith, omega arith), copied b.p b.p b.size data' (λ i h. refl), refl),
    )
  ]

-- Pieces added one after the other.
unfoldable pub add_all : (ℕ → ℕ) → GrowableBuffer → List (List ℕ) → Option GrowableBuffer
add_all memory b [] = some b
add_all memory b (data' ∷ rest) = elim (add_data memory b data') [
  | some b' ↦ add_all memory b' rest
  | none ↦ none
]

unfoldable pub concat : List (List ℕ) → List ℕ
concat [] = []
concat (data' ∷ rest) = data' ++ concat rest

add_all-IsWithin :
    (memory : ℕ → ℕ) (pieces : List (List ℕ)) (b : GrowableBuffer)
    → IsWithin b
    → 10 * (b.size + length (concat pieces)) < u64
    → (b' : GrowableBuffer) × (add_all memory b pieces ≡ some b')
      × IsWithin b'
      × (contents b' ≡ contents b ++ concat pieces)
unfolding add_all concat
add_all-IsWithin memory [] b within few = (b, refl, within, sym (append-nil (contents b)))
add_all-IsWithin memory (data' ∷ rest) b within few =
    let l = length-append data' (concat rest) in
    let (b₁, run, (within₁, held, size)) =
      add_data-Added memory b within data' (omega (arith, l)) in
    let (b₂, run', within₂, held') = add_all-IsWithin memory rest b₁ within₁ (omega (arith, l)) in
    (
      b₂,
      rw (add_all, run) run',
      within₂,
      held' ∙ ap (λ x. x ++ concat rest) held ∙ append_assoc (contents b) data' (concat rest),
    )

-- Pieces of data, together less than a tenth of 2^64 bytes, added one after the other to a buffer
-- just initialised: no byte is written behind the allocated memory, and the buffer holds the
-- pieces, one behind the other, whatever fresh memory contains.
pub add_all-concat :
    (memory : ℕ → ℕ) (p : ℕ → ℕ) (pieces : List (List ℕ))
    → 10 * length (concat pieces) < u64
    → (b : GrowableBuffer) × (add_all memory (init_buffer p) pieces ≡ some b)
      × (b.size ≤ b.max_size)
      × (contents b ≡ concat pieces)
unfolding bytes
add_all-concat memory p pieces few =
    let (b, run, (fits, _), held) =
      add_all-IsWithin memory pieces (init_buffer p) (omega arith, omega arith) (omega arith) in
    (b, run, fits, held)
