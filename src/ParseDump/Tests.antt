-- ===== src/ParseDump/Tests.antt =====
-- Dumps that are written and read.
use mathlib.Core.Option
use oprofile.ParseDump.{Dump, unfinished, parse_entries}
use oprofile.ParseDump.Laws.{Stuck, parse_entries-stalls, parse_entries-Stuck}
use oprofile.ParseDump.LoadBytes.{Load}
use oprofile.ParseDump.Roundtrip.{Call, load, unload, debug, close}
use oprofile.Agent.{BfdVars}
use oprofile.JitDump.{get32}
use oprofile.Base.{ℕ, ◌≡◌, refl, true, none, List, [], ◌∷◌, arith}

abbrev empty : Dump
empty = record {
  dump_bfd_arch = 0;
  dump_bfd_mach = 0;
  dump_bfd_target_name = none;
  jitentry_list = [];
  jitentry_debug_line_list = [];
}

abbrev elf : BfdVars
elf = record { target_name = b'e' ∷ b'l' ∷ b'f' ∷ []; arch = 9; mach = 8 }

abbrev two_bytes : Load
two_bytes = record {
  now = 5;
  align = 0;
  name = b'f' ∷ [];
  vma = 4096;
  code_addr = 4096;
  code = 144 ∷ 195 ∷ [];
  size = 2;
}

abbrev no_code : Load
no_code = record {
  now = 6;
  align = 0;
  name = b'g' ∷ [];
  vma = 8192;
  code_addr = 0;
  code = [];
  size = 7;
}

abbrev session : List Call
session =
    load two_bytes
    ∷ debug 5 0 4096 (record { vma = 4096; lineno = 3; filename = b'F' ∷ [] } ∷ [])
    ∷ load no_code
    ∷ unload 9 4096
    ∷ close 10
    ∷ []

-- A record of size 0, of an unknown kind.
abbrev size_zero : List ℕ
size_zero = 9 ∷ 0 ∷ 0 ∷ 0 ∷ 0 ∷ 0 ∷ 0 ∷ 0 ∷ 0 ∷ []

parse_entries-stalls_example : parse_entries 100 size_zero 20 true empty ≡ unfinished
unfolding get32
parse_entries-stalls_example =
    parse_entries-stalls 100 9 20 size_zero true empty (omega arith) refl refl (omega arith)

parse_entries-Stuck_example : Stuck size_zero
parse_entries-Stuck_example =
    parse_entries-Stuck 100 20 size_zero true empty (omega arith) parse_entries-stalls_example
