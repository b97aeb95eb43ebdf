-- ===== src/ParseDump/Roundtrip.antt =====
-- A whole dump: what libopagent/opagent.c writes during a run, read by opjitconv/parse_dump.c.
use mathlib.Core.Option
use oprofile.ParseDump.{Dump}
use oprofile.ParseDump.LoadBytes.{Load, IsSaneLoad, bytes_of, entry_made}
use oprofile.ParseDump.Records.{unloaded, debugged}
use oprofile.Agent.{DumpFile, op_write_native_code, op_unload_native_code, op_close_agent}
use oprofile.Agent.Laws.{working, unload_bytes, close_bytes}
use oprofile.Agent.DebugLines.{DebugLineInfo, op_write_debug_line_info}
use oprofile.Agent.DebugLines.Laws.{lines_bytes, debug_bytes, debug_record}
use oprofile.Base.{ℕ, ◌+◌, ◌<◌, ◌≡◌, Bool, List, [], ◌∷◌, ◌++◌, length, u32, u64}

-- The calls of the virtual machine on an open file, each at its time.
pub data Call : Type 0 where
  load : Load → Call
  unload : (now vma : ℕ) → Call
  debug : (now align code_addr : ℕ) → List DebugLineInfo → Call
  close : (now : ℕ) → Call

unfoldable pub IsSane : Call → Type 0
IsSane (load c) = IsSaneLoad c
IsSane (unload now vma) = (now < u64) × (vma < u64)
IsSane (debug now align code_addr lines) = (now < u64) × (length (lines_bytes lines) + 48 < u32)
IsSane (close now) = Unit

-- Nothing comes behind the end, where the handle is freed.
unfoldable pub MayFollow : Call → List Call → Type 0
MayFollow (load c) calls = Unit
MayFollow (unload now vma) calls = Unit
MayFollow (debug now align code_addr lines) calls = Unit
MayFollow (close now) calls = calls ≡ []

unfoldable pub AllSane : List Call → Type 0
AllSane [] = Unit
AllSane (c ∷ calls) = IsSane c × MayFollow c calls × AllSane calls

pub made : Call → DumpFile → DumpFile × Bool
made (load c) f =
    op_write_native_code (working c.now) c.align c.name c.vma c.code_addr c.code c.size f
made (unload now vma) f = op_unload_native_code (working now) vma f
made (debug now align code_addr lines) f =
    op_write_debug_line_info (working now) align code_addr lines f
made (close now) f = op_close_agent (working now) f

-- The file after the calls.
pub run : List Call → DumpFile → DumpFile
run [] f = f
run (c ∷ calls) f = let (f', ok) = made c f in run calls f'

-- The bytes of a call.
pub written : Call → List ℕ
written (load c) = bytes_of c
written (unload now vma) = unload_bytes vma now
written (debug now align code_addr []) = []
written (debug now align code_addr (line ∷ lines)) =
    debug_bytes (debug_record align code_addr now (line ∷ lines)) (line ∷ lines)
written (close now) = close_bytes now

pub all_written : List Call → List ℕ
all_written [] = []
all_written (c ∷ calls) = written c ++ all_written calls

-- What a call is to the parser, with the bytes of the later calls.
pub noted : ℕ → List ℕ → Call → Dump → Dump
noted end_time rest (load c) d = record d {
  jitentry_list = entry_made end_time c ∷ d.jitentry_list;
}
noted end_time rest (unload now vma) d = unloaded vma now end_time d
noted end_time rest (debug now align code_addr []) d = d
noted end_time rest (debug now align code_addr (line ∷ lines)) d =
    debugged (debug_record align code_addr now (line ∷ lines)) (line ∷ lines) rest end_time d
noted end_time rest (close now) d = d

pub noted_all : ℕ → List Call → Dump → Dump
noted_all end_time [] d = d
noted_all end_time (c ∷ calls) d = noted_all end_time calls (noted end_time (all_written calls) c d)
