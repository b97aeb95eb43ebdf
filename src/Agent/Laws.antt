-- ===== src/Agent/Laws.antt =====
-- The bytes that the agent library leaves in the dump file when every call of the system succeeds.
use mathlib.Core.List.{append_assoc, append-nil}
use oprofile.Agent.{
  Os, DumpFile, write_prefix, fwrite, lock_attempts, obtain_lock, pad_bytes, write_padding, BfdVars,
  with_zero, header_size, write_header, op_open_agent, load_size, load_record, write_code,
  op_write_native_code, op_unload_native_code, op_close_agent,
}
use oprofile.JitDump.{
  padding_8aligned, CodeLoad, JitHeader, jitheader_magic, jitheader_version, sizeof_jitheader,
  put_jitheader, jit_code_unload, jit_code_close, sizeof_code_unload, sizeof_code_close,
  put_code_load, put_code_unload, put_code_close,
}
use oprofile.Base.{
  ℕ, zero, suc, ◌+◌, ◌%◌, ◌≡◌, refl, sym, ap, ◌∙◌, inl, inr, Bool, true, false, Bool-cases, some,
  List, [], ◌++◌, length, take, take_all, drop_nil, leb, ◌==◌, if◌then◌else◌, u32, arith,
}

-- Every call succeeds, at the time `now`.
abbrev pub working : ℕ → Os
working now = record {
  gettimeofday = some now;
  fileno = true;
  flock = λ _. true;
  stored = λ _ bytes. length bytes;
  ftell = λ _. true;
  fseek = λ _. true;
}

-- A file with the position at its end.
abbrev pub at_end : List ℕ → Bool → DumpFile
at_end bytes locked = record { before = bytes; behind = []; locked = locked; closed = false }

leb_refl : (n : ℕ) → leb n n ≡ true
leb_refl n = ground arith

pub fwrite_lem :
    (now n : ℕ) (bytes file : List ℕ) (l : Bool)
    → fwrite (working now) n bytes (at_end file l) ≡ (at_end (file ++ bytes) l, true)
unfolding fwrite write_prefix
fwrite_lem now n bytes file l =
    rw (take_all bytes, drop_nil (length bytes), leb_refl (length bytes))

pub obtain_lock_lem : (now : ℕ) → obtain_lock (working now) ≡ true
unfolding obtain_lock lock_attempts
obtain_lock_lem now = refl

abbrev pub padding_bytes : ℕ → List ℕ
padding_bytes x = take (padding_8aligned x) pad_bytes

pub write_padding_lem :
    (now n pad : ℕ) (file : List ℕ) (l : Bool)
    → write_padding (working now) n pad (at_end file l)
      ≡ (at_end (file ++ take pad pad_bytes) l, true)
unfolding write_padding
write_padding_lem now n zero file l = λ i. (at_end (sym (append-nil file) i) l, true)
write_padding_lem now n (suc pad) file l =
    let ne : (suc pad == 0) ≡ false = ground arith in
    rw (write_padding, ne) (fwrite_lem now n (take (suc pad) pad_bytes) file l)

-- The code of a record, which is null at address 0.
unfoldable pub code_bytes : ℕ → ℕ → List ℕ → List ℕ
code_bytes code_addr size code = if code_addr == 0 then [] else take size code

pub write_code_lem :
    (now code_addr size pad : ℕ) (code file : List ℕ) (l : Bool)
    → write_code (working now) code_addr size code pad (at_end file l)
      ≡ at_end ((file ++ code_bytes code_addr size code) ++ take pad pad_bytes) l
unfolding write_code code_bytes
write_code_lem now code_addr size pad code file l = elim (Bool-cases (code_addr == 0)) [
  | inl h ↦ rw (write_code, h, append-nil file, write_padding_lem now 3 pad file l)
  | inr h ↦ rw (
    write_code,
    h,
    fwrite_lem now 2 (take size code) file l,
    write_padding_lem now 3 pad (file ++ take size code) l,
  )
]

pub append_assoc₄ : (a b c d : List ℕ) → ((a ++ b) ++ c) ++ d ≡ a ++ (b ++ (c ++ d))
append_assoc₄ a b c d = append_assoc (a ++ b) c d ∙ append_assoc a b (c ++ d)

-- The bytes of a record of loaded code.
unfoldable pub load_bytes : ℕ → List ℕ → ℕ → ℕ → List ℕ → ℕ → ℕ → List ℕ
load_bytes align name vma code_addr code size now =
    put_code_load (load_record align name vma code_addr size now) (
      with_zero name
      ++ (code_bytes code_addr size code ++ padding_bytes (load_size name code_addr size)))

put_code_load-append : (r : CodeLoad) (xs : List ℕ) → put_code_load r [] ++ xs ≡ put_code_load r xs
unfolding put_code_load
put_code_load-append r xs = refl

-- One of the writes of a call, behind those before it.
pub op_write_native_code-load_bytes :
    (now align : ℕ) (name : List ℕ) (vma code_addr : ℕ) (code : List ℕ) (size : ℕ) (file : List ℕ)
    → op_write_native_code (working now) align name vma code_addr code size (at_end file false)
      ≡ (at_end (file ++ load_bytes align name vma code_addr code size now) false, true)
unfolding op_write_native_code load_bytes
op_write_native_code-load_bytes now align name vma code_addr code size file =
    let rec = put_code_load (load_record align name vma code_addr size now) [] in
    let pad = padding_bytes (load_size name code_addr size) in
    let tail = with_zero name ++ (code_bytes code_addr size code ++ pad) in
    let joined : (((file ++ rec) ++ with_zero name) ++ code_bytes code_addr size code) ++ pad
        ≡ file ++ load_bytes align name vma code_addr code size now =
      append_assoc₄ (file ++ rec) (with_zero name) (code_bytes code_addr size code) pad
      ∙ append_assoc file rec tail
      ∙ ap (λ x. file ++ x)
          (put_code_load-append (load_record align name vma code_addr size now) tail) in
    rw
      (
        op_write_native_code,
        fwrite_lem now 0 rec file true,
        fwrite_lem now 1 (with_zero name) (file ++ rec) true,
        write_code_lem now code_addr size (padding_8aligned (load_size name code_addr size)) code
            ((file ++ rec) ++ with_zero name) true,
        obtain_lock_lem now,
      )
      (λ i. (at_end (joined i) false, true))

unfoldable pub unload_bytes : ℕ → ℕ → List ℕ
unload_bytes vma now =
    put_code_unload
      (record { id = jit_code_unload; total_size = sizeof_code_unload; timestamp = now; vma = vma })
      []

pub op_unload_native_code-unload_bytes :
    (now vma : ℕ) (file : List ℕ)
    → op_unload_native_code (working now) vma (at_end file false)
      ≡ (at_end (file ++ unload_bytes vma now) false, true)
unfolding op_unload_native_code unload_bytes
op_unload_native_code-unload_bytes now vma file =
    rw (fwrite_lem now 0 (unload_bytes vma now) file true, obtain_lock_lem now) refl

unfoldable pub close_bytes : ℕ → List ℕ
close_bytes now =
    put_code_close (record { id = jit_code_close; total_size = sizeof_code_close; timestamp = now })
      []

pub op_close_agent-close_bytes :
    (now : ℕ) (file : List ℕ)
    → op_close_agent (working now) (at_end file false)
      ≡ (record (at_end (file ++ close_bytes now) false) { closed = true }, true)
unfolding op_close_agent close_bytes
op_close_agent-close_bytes now file =
    rw (fwrite_lem now 0 (close_bytes now) file false, obtain_lock_lem now) refl

unfoldable pub header_of : ℕ → ℕ → BfdVars → JitHeader
header_of gap now vars = record {
  magic = jitheader_magic;
  version = jitheader_version;
  totalsize = header_size vars.target_name;
  bfd_arch = vars.arch;
  bfd_mach = vars.mach;
  gap = gap;
  timestamp = now;
}

put_jitheader-append : (h : JitHeader) (xs : List ℕ) → put_jitheader h [] ++ xs ≡ put_jitheader h xs
unfolding put_jitheader
put_jitheader-append h xs = refl

unfoldable pub header_bytes : ℕ → ℕ → BfdVars → List ℕ
header_bytes gap now vars = put_jitheader (header_of gap now vars) (
    with_zero vars.target_name
    ++ padding_bytes ((sizeof_jitheader + length vars.target_name + 1) % u32))

pub op_open_agent-header_bytes :
    (gap now : ℕ) (vars : BfdVars)
    → op_open_agent (working now) gap (some vars) ≡ some (at_end (header_bytes gap now vars) false)
unfolding op_open_agent write_header header_bytes header_of
op_open_agent-header_bytes gap now vars =
    let h = put_jitheader (header_of gap now vars) [] in
    let pad = padding_bytes ((sizeof_jitheader + length vars.target_name + 1) % u32) in
    let joined : (h ++ with_zero vars.target_name) ++ pad ≡ header_bytes gap now vars =
      append_assoc h (with_zero vars.target_name) pad
      ∙ put_jitheader-append (header_of gap now vars) (with_zero vars.target_name ++ pad) in
    rw
      (
        write_header,
        obtain_lock_lem now,
        fwrite_lem now 0 h [] true,
        fwrite_lem now 1 (with_zero vars.target_name) h true,
        write_padding_lem now 2
            (padding_8aligned ((sizeof_jitheader + length vars.target_name + 1) % u32))
            (h ++ with_zero vars.target_name) true,
      )
      (λ i. some (at_end (joined i) false))
