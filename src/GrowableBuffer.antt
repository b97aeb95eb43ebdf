-- ===== src/GrowableBuffer.antt =====
-- The growable buffer (libutil/op_growable_buffer.c).
mod Laws
mod Tests
use oprofile.Base.{
  ℕ, zero, suc, ◌+◌, ◌*◌, ◌%◌, List, [], ◌∷◌, length, Option, some, none, ltb, ◌==◌, if◌then◌else◌,
  u64,
}

-- `struct growable_buffer`, with the bytes that `p` points to.
pub record GrowableBuffer : Type 0 where
  pub p : ℕ → ℕ
  pub size : ℕ
  pub max_size : ℕ

abbrev pub init_buffer : (ℕ → ℕ) → GrowableBuffer
init_buffer p = record { p = p; size = 0; max_size = 0 }

-- `xrealloc` keeps the bytes that were allocated; the others are as the allocator left them.
abbrev pub xrealloc : (ℕ → ℕ) → ℕ → (ℕ → ℕ) → ℕ → ℕ
xrealloc memory old_size p i = if ltb i old_size then p i else memory i

pub grow_buffer : (ℕ → ℕ) → GrowableBuffer → GrowableBuffer
grow_buffer memory b = record b {
  p = xrealloc memory b.max_size b.p;
  max_size = (b.max_size + b.size) * 2 % u64;
}

pub memcpy : (ℕ → ℕ) → ℕ → List ℕ → ℕ → ℕ
memcpy p to [] = p
memcpy p to (c ∷ data') = memcpy (λ i. if i == to then c else p i) (to + 1) data'

-- `none` for bytes written behind the memory allocated.
pub add_data : (ℕ → ℕ) → GrowableBuffer → List ℕ → Option GrowableBuffer
unfolding grow_buffer
add_data memory b bytes =
    let old_size = b.size in
    let b₁ = record b { size = (b.size + length bytes) % u64 } in
    let b₂ = if ltb b₁.max_size b₁.size then grow_buffer memory b₁ else b₁ in
    if ltb b₂.max_size (old_size + length bytes)
    then none
    else some (record b₂ { p = memcpy b₂.p old_size bytes })
