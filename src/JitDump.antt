-- ===== src/JitDump.antt =====
-- The records of a JIT dump, byte by byte (libopagent/jitdump.h), on a 64-bit little-endian machine.
pub mod Laws
use mathlib.Core.Option
use oprofile.Base.{
  ℕ, zero, suc, ◌+◌, ◌-◌, ◌*◌, ◌/◌, ◌%◌, ◌^◌, bit_and, bit_xor, Option, some, none, List, [], ◌∷◌,
  ◌++◌, length, drop, u32, u64,
}

infixl 5 ◌>>=◌
abbrev pub ◌>>=◌ {ℓ κ} : {A : Type ℓ} {B : Type κ} → Option A → (A → Option B) → Option B
some a >>= f = f a
none >>= f = none

abbrev pub jitheader_magic : ℕ
jitheader_magic = 0x4F74496A

abbrev pub jitheader_version : ℕ
jitheader_version = 1

-- `PADDING_8ALIGNED`
pub padding_8aligned : ℕ → ℕ
padding_8aligned x = bit_xor (bit_and (x + 7) 7) 7

abbrev pub jit_code_load : ℕ
jit_code_load = 0

abbrev pub jit_code_unload : ℕ
jit_code_unload = 1

abbrev pub jit_code_close : ℕ
jit_code_close = 2

abbrev pub jit_code_debug_info : ℕ
jit_code_debug_info = 3

-- The bytes of a `u32` and of a `u64`, before others.
abbrev pub put32 : ℕ → List ℕ → List ℕ
put32 n rest = (n % 256) ∷ (n / 256 % 256) ∷ (n / 65536 % 256) ∷ (n / 16777216 % 256) ∷ rest

abbrev pub put64 : ℕ → List ℕ → List ℕ
put64 n rest = put32 (n % u32) (put32 (n / u32) rest)

-- What stands at the front of the bytes; `none` behind their end.
unfoldable pub get32 : List ℕ → Option ℕ
get32 (a ∷ b ∷ c ∷ d ∷ rest) = some (a + 256 * b + 65536 * c + 16777216 * d)
get32 _ = none

combine : Option ℕ → Option ℕ → Option ℕ
combine (some low) (some high) = some (low + u32 * high)
combine (some low) none = none
combine none _ = none

pub get64 : List ℕ → Option ℕ
get64 bytes = combine (get32 bytes) (get32 (drop 4 bytes))

-- `struct jitheader`, up to `bfd_target`; `gap` is the padding before the time stamp.
pub record JitHeader : Type 0 where
  pub magic : ℕ
  pub version : ℕ
  pub totalsize : ℕ
  pub bfd_arch : ℕ
  pub bfd_mach : ℕ
  pub gap : ℕ
  pub timestamp : ℕ

abbrev pub sizeof_jitheader : ℕ
sizeof_jitheader = 32

unfoldable pub put_jitheader : JitHeader → List ℕ → List ℕ
put_jitheader h rest = put32 h.magic (
    put32 h.version (
      put32 h.totalsize
        (put32 h.bfd_arch (put32 h.bfd_mach (put32 h.gap (put64 h.timestamp rest))))))

-- `struct jr_prefix`, which every record begins with
abbrev pub sizeof_jr_prefix : ℕ
sizeof_jr_prefix = 8

pub record CodeLoad : Type 0 where
  pub id : ℕ
  pub total_size : ℕ
  pub timestamp : ℕ
  pub vma : ℕ
  pub code_addr : ℕ
  pub code_size : ℕ
  pub align : ℕ

abbrev pub sizeof_code_load : ℕ
sizeof_code_load = 40

unfoldable pub put_code_load : CodeLoad → List ℕ → List ℕ
put_code_load r rest = put32 r.id (
    put32 r.total_size (
      put64 r.timestamp (put64 r.vma (put64 r.code_addr (put32 r.code_size (put32 r.align rest))))))

pub record CodeUnload : Type 0 where
  pub id : ℕ
  pub total_size : ℕ
  pub timestamp : ℕ
  pub vma : ℕ

abbrev pub sizeof_code_unload : ℕ
sizeof_code_unload = 24

unfoldable pub put_code_unload : CodeUnload → List ℕ → List ℕ
put_code_unload r rest = put32 r.id (put32 r.total_size (put64 r.timestamp (put64 r.vma rest)))

pub record CodeClose : Type 0 where
  pub id : ℕ
  pub total_size : ℕ
  pub timestamp : ℕ

abbrev pub sizeof_code_close : ℕ
sizeof_code_close = 16

unfoldable pub put_code_close : CodeClose → List ℕ → List ℕ
put_code_close r rest = put32 r.id (put32 r.total_size (put64 r.timestamp rest))

pub record CodeDebugInfo : Type 0 where
  pub id : ℕ
  pub total_size : ℕ
  pub timestamp : ℕ
  pub code_addr : ℕ
  pub nr_entry : ℕ
  pub align : ℕ

abbrev pub sizeof_code_debug_info : ℕ
sizeof_code_debug_info = 32

unfoldable pub put_code_debug_info : CodeDebugInfo → List ℕ → List ℕ
put_code_debug_info r rest = put32 r.id (
    put32 r.total_size
      (put64 r.timestamp (put64 r.code_addr (put32 r.nr_entry (put32 r.align rest)))))

-- The fields read from the front of the bytes; `none` when they reach behind the end.
pub get_code_load : List ℕ → Option CodeLoad
get_code_load bytes = do
  id ← get32 bytes
  total_size ← get32 (drop 4 bytes)
  timestamp ← get64 (drop 8 bytes)
  vma ← get64 (drop 16 bytes)
  code_addr ← get64 (drop 24 bytes)
  code_size ← get32 (drop 32 bytes)
  align ← get32 (drop 36 bytes)
  some (record {
    id = id;
    total_size = total_size;
    timestamp = timestamp;
    vma = vma;
    code_addr = code_addr;
    code_size = code_size;
    align = align;
  })

pub get_code_unload : List ℕ → Option CodeUnload
get_code_unload bytes = do
  id ← get32 bytes
  total_size ← get32 (drop 4 bytes)
  timestamp ← get64 (drop 8 bytes)
  vma ← get64 (drop 16 bytes)
  some (record { id = id; total_size = total_size; timestamp = timestamp; vma = vma })
