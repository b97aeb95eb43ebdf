-- ===== src/Agent.antt =====
-- The agent library that a virtual machine writes its JIT dump with (libopagent/opagent.c). The
-- handles are open ones; what the system calls answer, and what stands in the bytes of a record
-- that are not set, are parameters.
pub mod DebugLines
pub mod Laws
mod Locks
mod Tests
use oprofile.JitDump.{
  jitheader_magic, jitheader_version, padding_8aligned, jit_code_load, jit_code_unload,
  jit_code_close, jit_code_debug_info, put32, put64, sizeof_jitheader, put_jitheader, CodeLoad,
  sizeof_code_load, CodeUnload, CodeClose, put_code_load, sizeof_code_unload, put_code_unload,
  sizeof_code_close, put_code_close, CodeDebugInfo, put_code_debug_info,
}
use oprofile.Base.{
  ℕ, zero, suc, ◌+◌, ◌-◌, ◌*◌, ◌%◌, Bool, true, false, not, Option, some, none, List, [], ◌∷◌, ◌++◌,
  length, take, drop, ◌==◌, leb, if◌then◌else◌, u32, u64,
}

-- The answers of the system: the seconds of `gettimeofday`, whether `fileno` gives a descriptor,
-- whether an attempt at the lock succeeds, how many bytes of a write are stored, and whether a
-- call of `ftell` or `fseek` succeeds.
pub record Os : Type 0 where
  pub gettimeofday : Option ℕ
  pub fileno : Bool
  pub flock : ℕ → Bool
  pub stored : ℕ → List ℕ → ℕ
  pub ftell : ℕ → Bool
  pub fseek : ℕ → Bool

-- The dump file, before and behind the position, whether this process holds its lock, and whether
-- `fclose` has freed the handle, behind which no call may use it.
pub record DumpFile : Type 0 where
  pub before : List ℕ
  pub behind : List ℕ
  pub locked : Bool
  pub closed : Bool

abbrev pub lock : DumpFile → DumpFile
lock f = record f { locked = true }

abbrev pub unlock : DumpFile → DumpFile
unlock f = record f { locked = false }

-- The bytes that reach the file; `fwrite` gives 1 when that is all of them.
unfoldable pub write_prefix : ℕ → List ℕ → DumpFile → DumpFile
write_prefix k bytes f = record f {
  before = f.before ++ take k bytes;
  behind = drop (length (take k bytes)) f.behind;
}

unfoldable pub fwrite : Os → ℕ → List ℕ → DumpFile → DumpFile × Bool
unfolding write_prefix
fwrite os n bytes f =
    (write_prefix (os.stored n bytes) bytes f, leb (length bytes) (os.stored n bytes))

unfoldable pub seek : ℕ → DumpFile → DumpFile
seek pos f = record f {
  before = take pos (f.before ++ f.behind);
  behind = drop pos (f.before ++ f.behind);
}

-- The attempts from one on, when so many are left behind it.
pub lock_attempts : (ℕ → Bool) → ℕ → ℕ → Bool
lock_attempts flock zero n = flock n
lock_attempts flock (suc left) n = if flock n then true else lock_attempts flock left (n + 1)

-- `goto again` until 1000 microseconds are waited, 100 at a time
pub obtain_lock : Os → Bool
obtain_lock os = lock_attempts os.flock 10 0

abbrev pub pad_bytes : List ℕ
pad_bytes = 0 ∷ 0 ∷ 0 ∷ 0 ∷ 0 ∷ 0 ∷ 0 ∷ []

-- Padding is written when there is some.
pub write_padding : Os → ℕ → ℕ → DumpFile → DumpFile × Bool
write_padding os n pad_cnt f =
    if pad_cnt == 0 then (f, true) else fwrite os n (take pad_cnt pad_bytes) f

-- What `define_bfd_vars` finds of the running program.
pub record BfdVars : Type 0 where
  pub target_name : List ℕ
  pub arch : ℕ
  pub mach : ℕ

abbrev pub with_zero : List ℕ → List ℕ
with_zero name = name ++ (0 ∷ [])

-- The header's size, with its padding.
unfoldable pub header_size : List ℕ → ℕ
header_size name =
    let size = (sizeof_jitheader + length name + 1) % u32 in (size + padding_8aligned size) % u32

pub write_header : Os → ℕ → ℕ → BfdVars → DumpFile → Option DumpFile
write_header os gap now vars f₀ =
    let size = (sizeof_jitheader + length vars.target_name + 1) % u32 in
    let header =
      put_jitheader
        (record {
          magic = jitheader_magic;
          version = jitheader_version;
          totalsize = header_size vars.target_name;
          bfd_arch = vars.arch;
          bfd_mach = vars.mach;
          gap = gap;
          timestamp = now;
        })
        [] in
    let (f₁, ok₁) = fwrite os 0 header f₀ in
    let (f₂, ok₂) = fwrite os 1 (with_zero vars.target_name) f₁ in
    let (f₃, ok₃) = write_padding os 2 (padding_8aligned size) f₂ in
    if not ok₁ then none else if not ok₂ then none else if not ok₃ then none else some (unlock f₃)

-- From the lock of the new file on; `none` for a null handle.
pub op_open_agent : Os → ℕ → Option BfdVars → Option DumpFile
op_open_agent os gap vars = if not (obtain_lock os) then none else elim vars [
  | none ↦ none
  | some vars ↦ elim os.gettimeofday [
    | none ↦ none
    | some now ↦
        write_header os gap now vars
          (record { before = []; behind = []; locked = true; closed = false })
  ]
]

-- The size of a record of loaded code before padding, as a `u32`; `code` is null at address 0.
unfoldable pub load_size : List ℕ → ℕ → ℕ → ℕ
load_size name code_addr size =
    if code_addr == 0
    then (sizeof_code_load + length name + 1) % u32
    else (sizeof_code_load + length name + 1 + size) % u32

unfoldable pub load_record : ℕ → List ℕ → ℕ → ℕ → ℕ → ℕ → CodeLoad
load_record align name vma code_addr size now = record {
  id = jit_code_load;
  total_size =
      (load_size name code_addr size + padding_8aligned (load_size name code_addr size)) % u32;
  timestamp = now;
  vma = vma;
  code_addr = code_addr;
  code_size = size;
  align = align;
}

-- The code and the padding, whose writes are not tested.
pub write_code : Os → ℕ → ℕ → List ℕ → ℕ → DumpFile → DumpFile
write_code os code_addr size code pad_cnt f =
    let (f₁, ok₁) = if code_addr == 0 then (f, true) else fwrite os 2 (take size code) f in
    let (f₂, ok₂) = write_padding os 3 pad_cnt f₁ in f₂

-- `code` is the memory at the address; the flag says that 0 is returned.
pub op_write_native_code : Os → ℕ → List ℕ → ℕ → ℕ → List ℕ → ℕ → DumpFile → DumpFile × Bool
op_write_native_code os align name vma code_addr code size f = elim os.gettimeofday [
  | none ↦ (f, false)
  | some now ↦
      let (f₁, ok₁) =
        fwrite os 0 (put_code_load (load_record align name vma code_addr size now) []) (lock f) in
      let (f₂, ok₂) = fwrite os 1 (with_zero name) f₁ in
      let pad_cnt = padding_8aligned (load_size name code_addr size) in
      if not os.fileno
      then (f, false)
      else if not (obtain_lock os)
      then (f, false)
      else if not ok₁
      then (unlock f₁, false)
      else if not ok₂
      then (unlock f₂, false)
      else (unlock (write_code os code_addr size code pad_cnt f₂), true)
]

-- The branch of a failed write does not unlock.
pub op_unload_native_code : Os → ℕ → DumpFile → DumpFile × Bool
op_unload_native_code os vma f = elim os.gettimeofday [
  | none ↦ (f, false)
  | some now ↦
      let rec : CodeUnload = record {
        id = jit_code_unload;
        total_size = sizeof_code_unload;
        timestamp = now;
        vma = vma;
      } in
      let (f₁, ok₁) = fwrite os 0 (put_code_unload rec []) (lock f) in
      if not os.fileno
      then (f, false)
      else if not (obtain_lock os)
      then (f, false)
      else if not ok₁
      then (f₁, false)
      else (unlock f₁, true)
]

-- The file that is locked here is not determined, so the flag of the lock is left alone.
pub op_close_agent : Os → DumpFile → DumpFile × Bool
op_close_agent os f = elim os.gettimeofday [
  | none ↦ (f, false)
  | some now ↦
      let rec : CodeClose = record {
        id = jit_code_close;
        total_size = sizeof_code_close;
        timestamp = now;
      } in
      let (f₁, ok₁) = fwrite os 0 (put_code_close rec []) f in
      if not (obtain_lock os)
      then (f, false)
      else if not ok₁
      then (f₁, false)
      else (record f₁ { closed = true }, true)
]
