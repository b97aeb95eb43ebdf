-- ===== src/Agent/Tests.antt =====
-- Calls on a dump file, with writes that succeed and fail.
use oprofile.Agent.{Os, DumpFile, op_write_native_code, op_unload_native_code, obtain_lock}
use oprofile.Agent.DebugLines.{DebugLineInfo, op_write_debug_line_info}
use oprofile.Agent.Locks.{calls-locked}
use oprofile.Base.{◌↔◌, ◌≡◌, ◌≢◌, refl, true, false, some, none, List, [], ◌∷◌}

-- No byte is stored.
abbrev full_disk : Os
full_disk = record {
  gettimeofday = some 5;
  fileno = true;
  flock = λ _. true;
  stored = λ _ _. 0;
  ftell = λ _. true;
  fseek = λ _. true;
}

abbrev fresh : DumpFile
fresh = record { before = []; behind = []; locked = false; closed = false }

abbrev lines : List DebugLineInfo
lines = record { vma = 4096; lineno = 3; filename = b'F' ∷ [] } ∷ []

calls-locked_example :
    ((op_write_native_code full_disk 0 (b'f' ∷ []) 4096 4096 (144 ∷ []) 1 fresh).0.locked ≡ false)
    × ((op_write_debug_line_info full_disk 0 4096 lines fresh).0.locked ≡ false)
    × (((op_unload_native_code full_disk 4096 fresh).0.locked ≡ true) ↔ (
        ((op_unload_native_code full_disk 4096 fresh).1 ≡ false)
        × (full_disk.gettimeofday ≢ none)
        × (full_disk.fileno ≡ true)
        × (obtain_lock full_disk ≡ true)))
calls-locked_example = calls-locked full_disk 0 (b'f' ∷ []) 4096 4096 (144 ∷ []) 1 lines fresh refl
