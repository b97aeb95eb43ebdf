-- ===== src/Agent/DebugLines.antt =====
-- `op_write_debug_line_info` of libopagent/opagent.c.
pub mod Laws
use oprofile.Agent.{Os, DumpFile, lock, unlock, fwrite, seek, obtain_lock, write_padding, with_zero}
use oprofile.JitDump.{
  padding_8aligned, jit_code_debug_info, put32, put64, CodeDebugInfo, put_code_debug_info,
}
use oprofile.Base.{
  ℕ, ◌+◌, ◌-◌, ◌*◌, ◌%◌, Bool, true, false, not, Option, some, none, List, [], ◌∷◌, ◌++◌, length,
  ◌==◌, if◌then◌else◌, u32,
}

-- `struct debug_line_info`
pub record DebugLineInfo : Type 0 where
  pub vma : ℕ
  pub lineno : ℕ
  pub filename : List ℕ

-- The loop over the entries, from write `n` on, three writes for each.
pub write_lines : Os → ℕ → List DebugLineInfo → DumpFile → DumpFile × Bool
write_lines os n [] f = (f, true)
write_lines os n (line ∷ compile_map) f =
    let (f₁, ok₁) = fwrite os n (put64 line.vma []) f in
    let (f₂, ok₂) = fwrite os (n + 1) (put32 line.lineno []) f₁ in
    let (f₃, ok₃) = fwrite os (n + 2) (with_zero line.filename) f₂ in
    let rest = write_lines os (n + 3) compile_map f₃ in
    if not ok₁
    then (f₁, false)
    else if not ok₂
    then (f₂, false)
    else if not ok₃
    then (f₃, false)
    else rest

-- What follows the last entry: the padding, and the record again with its size.
pub finish_lines : Os → ℕ → ℕ → CodeDebugInfo → DumpFile → DumpFile × Bool
finish_lines os n cur_pos rec f =
    let last_pos = length f.before in
    let size = (last_pos - cur_pos) % u32 in
    let padding_count = padding_8aligned size in
    let (f₁, ok₁) = write_padding os n padding_count f in
    let f₂ = seek cur_pos f₁ in
    let (f₃, ok₃) =
      fwrite os (n + 1)
        (put_code_debug_info (record rec { total_size = (size + padding_count) % u32 }) []) f₂ in
    if not (os.ftell 1)
    then (f, false)
    else if not ok₁
    then (f₁, false)
    else if not (os.fseek 0)
    then (f₁, false)
    else if not ok₃
    then (f₃, false)
    else if not (os.fseek 1)
    then (f₃, false)
    else (seek (last_pos + padding_count) f₃, true)

-- The writes between the locks.
pub write_debug_record : Os → CodeDebugInfo → List DebugLineInfo → DumpFile → DumpFile × Bool
write_debug_record os rec compile_map f =
    let (f₁, ok₁) = fwrite os 0 (put_code_debug_info rec []) f in
    let (f₂, ok₂) = write_lines os 1 compile_map f₁ in
    let finished = finish_lines os (1 + 3 * length compile_map) (length f.before) rec f₂ in
    if not (os.ftell 0)
    then (f, false)
    else if not ok₁
    then (f₁, false)
    else if not ok₂
    then (f₂, false)
    else finished

abbrev unlock_first : DumpFile × Bool → DumpFile × Bool
unlock_first (f, ok) = (unlock f, ok)

-- All of the entries are written.
unfoldable pub op_write_debug_line_info :
    Os → ℕ → ℕ → List DebugLineInfo → DumpFile → DumpFile × Bool
op_write_debug_line_info os align code_addr [] f = (f, true)
op_write_debug_line_info os align code_addr (line ∷ compile_map) f = elim os.gettimeofday [
  | none ↦ (f, false)
  | some now ↦
      let rec : CodeDebugInfo = record {
        id = jit_code_debug_info;
        total_size = 0;
        timestamp = now;
        code_addr = code_addr;
        nr_entry = length (line ∷ compile_map) % u32;
        align = align;
      } in
      let written = write_debug_record os rec (line ∷ compile_map) (lock f) in
      if not os.fileno
      then (f, false)
      else if not (obtain_lock os)
      then (f, false)
      else unlock_first written
]
