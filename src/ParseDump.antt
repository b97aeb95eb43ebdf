-- ===== src/ParseDump.antt =====
-- The parser of JIT dumps (opjitconv/parse_dump.c). The memory from a pointer to the end of the
-- dump is the list of its bytes; a read behind that end is a fault.
mod Laws
mod LoadBytes
mod Loads
mod Records
mod Header
mod Roundtrip
mod Tests
use oprofile.Jit.{JitEntry}
use oprofile.JitDump.{
  ◌>>=◌, jitheader_magic, jitheader_version, padding_8aligned, jit_code_load, jit_code_unload,
  jit_code_close, jit_code_debug_info, get32, get64, sizeof_jitheader, sizeof_jr_prefix, CodeLoad,
  sizeof_code_load, CodeUnload, get_code_load, get_code_unload,
}
use oprofile.Base.{
  ℕ, zero, suc, ◌+◌, ◌-◌, ◌%◌, ◌^◌, Bool, true, false, not, ◌&&◌, Option, some, none, List, [], ◌∷◌,
  length, take, drop, ltb, leb, ◌==◌, if◌then◌else◌, u32, u64,
}

-- `struct jitentry`: the symbol, and the bytes of its code, if the dump has them.
pub record DumpEntry : Type 0 where
  pub symbol : JitEntry
  pub code : Option (List ℕ)

-- `struct jitentry_debug_line`; `data` with `end`: the memory from the one to the other.
pub record DebugLine : Type 0 where
  pub data_to_end : List ℕ
  pub life_start : ℕ
  pub life_end : ℕ

-- The variables that the parser sets, its lists last entry first.
pub record Dump : Type 0 where
  pub dump_bfd_arch : ℕ
  pub dump_bfd_mach : ℕ
  pub dump_bfd_target_name : Option (List ℕ)
  pub jitentry_list : List DumpEntry
  pub jitentry_debug_line_list : List DebugLine

-- The string there; `none` when it does not end within the dump.
pub c_string : List ℕ → Option (List ℕ)
c_string [] = none
c_string (c ∷ bytes) =
    let rest = c_string bytes in if c == 0 then some [] else (rest >>= λ name. some (c ∷ name))

-- An `int` in 32 bits, in an address of 64.
abbrev pub sign_extended : ℕ → ℕ
sign_extended n = if ltb n (2 ^ 31) then n else n + u64 - u32

-- Whether the sizes of a record agree, when it has code.
pub size_agrees : CodeLoad → List ℕ → ℕ → Bool
size_agrees rec name size =
    let behind = sizeof_code_load + length name + 1 in
    let padding_count = padding_8aligned ((behind + sign_extended rec.code_size) % u64) in
    if rec.code_addr == 0
    then true
    else (behind + sign_extended rec.code_size + padding_count) % u64 == sign_extended size

pub loaded_entry : CodeLoad → List ℕ → List ℕ → ℕ → DumpEntry
loaded_entry rec name code end_time = record {
  symbol = record {
    vma = rec.vma;
    code_size = rec.code_size;
    symbol_name = name;
    life_start = rec.timestamp;
    life_end = end_time;
  };
  code = if rec.code_addr == 0 then none else some (take rec.code_size code);
}

-- The entry is linked in even when the sizes do not agree; the flag says that they do.
pub parse_code_load : List ℕ → ℕ → ℕ → Dump → Option (Dump × Bool)
parse_code_load ptr size end_time d = do
  rec ← get_code_load ptr
  name ← c_string (drop sizeof_code_load ptr)
  let entry = loaded_entry rec name (drop (length name + 1) (drop sizeof_code_load ptr)) end_time
  some (record d { jitentry_list = entry ∷ d.jitentry_list }, size_agrees rec name size)

-- The first entry at the address that still lives to the end gets the time stamp.
pub end_life : ℕ → ℕ → ℕ → List DumpEntry → List DumpEntry
end_life vma timestamp end_time [] = []
end_life vma timestamp end_time (entry ∷ entries) =
    let rest = end_life vma timestamp end_time entries in
    if (entry.symbol.vma == vma) && (entry.symbol.life_end == end_time)
    then record entry { symbol = record (entry.symbol) { life_end = timestamp } } ∷ entries
    else entry ∷ rest

pub parse_code_unload : List ℕ → ℕ → Dump → Option Dump
parse_code_unload ptr end_time d = do
  rec ← get_code_unload ptr
  some (
      if ltb 0 rec.timestamp && not (rec.vma == 0)
      then record d { jitentry_list = end_life rec.vma rec.timestamp end_time d.jitentry_list }
      else d)

pub parse_code_debug_info : List ℕ → ℕ → Dump → Option Dump
parse_code_debug_info ptr end_time d = do
  life_start ← get64 (drop 8 ptr)
  let line : DebugLine = record { data_to_end = ptr; life_start = life_start; life_end = end_time }
  some (record d { jitentry_debug_line_list = line ∷ d.jitentry_debug_line_list })

-- The `switch` on the record's id; the flag is false where `rc` becomes OP_JIT_CONV_FAIL.
pub parse_record : ℕ → List ℕ → ℕ → ℕ → Dump → Option (Dump × Bool)
parse_record id rec total_size end_time d =
    if id == jit_code_load
    then parse_code_load rec total_size end_time d
    else if id == jit_code_unload
    then (parse_code_unload rec end_time d >>= λ d'. some (d', true))
    else if id == jit_code_close
    then some (d, true)
    else if not (id == jit_code_debug_info)
    then some (d, false)
    else if total_size == 0
    then some (d, false)
    else (parse_code_debug_info rec end_time d >>= λ d'. some (d', true))

-- The loop ends, with whether `rc` is OP_JIT_CONV_OK; or reads behind the end; or goes on.
pub data Parsed : Type 0 where
  parsed : Dump → Bool → Parsed
  fault : Parsed
  unfinished : Parsed

-- At most `rounds` rounds of the loop, with `rc` so far.
pub parse_entries : ℕ → List ℕ → ℕ → Bool → Dump → Parsed
parse_entries zero rec end_time rc d =
    if ltb sizeof_jr_prefix (length rec) then unfinished else parsed d rc
parse_entries (suc rounds) rec end_time rc d =
    if ltb sizeof_jr_prefix (length rec)
    then elim (get32 rec) [
      | none ↦ fault
      | some id ↦ elim (get32 (drop 4 rec)) [
        | none ↦ fault
        | some total_size ↦
            if ltb (length rec) total_size
            then parsed d false
            else elim (parse_record id rec total_size end_time d) [
              | none ↦ fault
              | some (d', ok) ↦ parse_entries rounds (drop total_size rec) end_time (rc && ok) d'
            ]
      ]
    ]
    else parsed d rc

-- The fields of the header, and the entries' bytes; `none` for OP_JIT_CONV_FAIL.
read_header : List ℕ → Dump → Option (Dump × List ℕ)
read_header ptr d = do
  magic ← get32 ptr
  version ← get32 (drop 4 ptr)
  totalsize ← get32 (drop 8 ptr)
  bfd_arch ← get32 (drop 12 ptr)
  bfd_mach ← get32 (drop 16 ptr)
  let d' = record d {
    dump_bfd_arch = bfd_arch;
    dump_bfd_mach = bfd_mach;
    dump_bfd_target_name = c_string (drop sizeof_jitheader ptr);
  }
  (if not (magic == jitheader_magic)
      then none
      else if not (version == jitheader_version)
      then none
      else if ltb (length ptr) totalsize
      then none
      else some (d', drop totalsize ptr))

-- Every field lies before the end where it is read.
pub parse_header : List ℕ → Dump → Option (Dump × List ℕ)
parse_header ptr d = if leb (length ptr) sizeof_jitheader then none else read_header ptr d

pub parse_all : ℕ → List ℕ → ℕ → Dump → Parsed
parse_all rounds start end_time d = elim (parse_header start d) [
  | none ↦ parsed d false
  | some (d', ptr) ↦ parse_entries rounds ptr end_time true d'
]
