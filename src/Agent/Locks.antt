-- ===== src/Agent/Locks.antt =====
-- The lock of the dump file on the paths of libopagent/opagent.c.
use oprofile.Agent.{
  Os, DumpFile, write_prefix, fwrite, obtain_lock, op_write_native_code, op_unload_native_code,
}
use oprofile.Agent.DebugLines.{DebugLineInfo, op_write_debug_line_info}
use oprofile.Base.{ℕ, ◌↔◌, ◌≡◌, ◌≢◌, true, false, none, List, [], ◌∷◌, arith}

op_write_native_code-locked :
    (os : Os) (align : ℕ) (name : List ℕ) (vma code_addr : ℕ) (code : List ℕ) (size : ℕ)
    (f : DumpFile)
    → f.locked ≡ false
    → (op_write_native_code os align name vma code_addr code size f).0.locked ≡ false
unfolding op_write_native_code
op_write_native_code-locked os align name vma code_addr code size f h = ground arith

op_write_debug_line_info-locked :
    (os : Os) (align code_addr : ℕ) (lines : List DebugLineInfo) (f : DumpFile)
    → f.locked ≡ false
    → (op_write_debug_line_info os align code_addr lines f).0.locked ≡ false
unfolding op_write_debug_line_info
op_write_debug_line_info-locked os align code_addr [] f h = h
op_write_debug_line_info-locked os align code_addr (line ∷ lines) f h = ground arith

op_unload_native_code-locked :
    (os : Os) (vma : ℕ) (f : DumpFile)
    → f.locked ≡ false
    → ((op_unload_native_code os vma f).0.locked ≡ true) ↔ (
        ((op_unload_native_code os vma f).1 ≡ false)
        × (os.gettimeofday ≢ none)
        × (os.fileno ≡ true)
        × (obtain_lock os ≡ true))
unfolding op_unload_native_code fwrite write_prefix
op_unload_native_code-locked os vma f h =
    (λ e. (ground arith, ground arith, ground arith, ground arith), λ e. ground arith)

-- Whatever the system calls answer, op_write_native_code and op_write_debug_line_info, called
-- without the lock of the dump file, return without it, on success and on every failure;
-- op_unload_native_code returns with it exactly when it fails after it has the time, the
-- descriptor and the lock, that is, when its write fails.
pub calls-locked :
    (os : Os) (align : ℕ) (name : List ℕ) (vma code_addr : ℕ) (code : List ℕ) (size : ℕ)
    (lines : List DebugLineInfo) (f : DumpFile)
    → f.locked ≡ false
    → ((op_write_native_code os align name vma code_addr code size f).0.locked ≡ false)
      × ((op_write_debug_line_info os align code_addr lines f).0.locked ≡ false)
      × (((op_unload_native_code os vma f).0.locked ≡ true) ↔ (
          ((op_unload_native_code os vma f).1 ≡ false)
          × (os.gettimeofday ≢ none)
          × (os.fileno ≡ true)
          × (obtain_lock os ≡ true)))
calls-locked os align name vma code_addr code size lines f h = (
  op_write_native_code-locked os align name vma code_addr code size f h,
  op_write_debug_line_info-locked os align code_addr lines f h,
  op_unload_native_code-locked os vma f h,
)
