-- ===== src/Sfile/Tests/Clear.antt =====
-- Files cleared by a new reading of the modules, and the theorems at such a sequence.
use oprofile.Base.{ℕ, ◌≡◌, refl, false, Option, none, List, [], ◌∷◌, ◌++◌, map}
use oprofile.Trans.{user, kernel}
use oprofile.Cookie.{is_cookie_ignored, entry_of, create_cookie, find_entry, hash_cookie}
use oprofile.Kernel.{ModuleLine, find_kernel_image, find_module, contains}
use oprofile.Sfile.{
  Sfile, Sfiles, find_match, sfile_hash, common_bits, shifted, trans_match, do_match, is_same,
  new_sfile,
}
use oprofile.Sfile.Find.{
  sfile_find, locate, create_sfile, is_sf_ignored, is_dropped, find_cmdline, list_del,
}
use oprofile.Sfile.Clear.{
  kill_sfile, walk, for_each_sfile, is_sfile_kernel, is_sfile_anon, reached, sfile_lru_clear,
  opd_clear_modules, opd_reread_module_info,
}
use oprofile.Sfile.Members.{In}
use oprofile.Sfile.Sound.{IsSound}
use oprofile.Sfile.Reload.{Call, search, reload, clear_anon, lru_clear, calls, calls-IsSound}
use oprofile.Sfile.Tests.{options, start, sample, no_name, keep_all, no_mappings}

abbrev no_module : List ℕ → Option ModuleLine
no_module line = none

abbrev run : List Call → Sfiles → Sfiles
run = calls no_module no_name keep_all (λ p. none) no_mappings options false

-- A file of vmlinux, and one of a user's image.
abbrev two : List Call
two = search (sample kernel 1024 20 5000) ∷ search (sample user 1024 20 7) ∷ []

program : Unit {0}
unfolding sfile_find locate create_sfile is_sf_ignored is_dropped find_cmdline list_del find_match
    sfile_hash common_bits shifted trans_match do_match is_same new_sfile is_cookie_ignored entry_of
    create_cookie find_entry hash_cookie find_kernel_image find_module contains kill_sfile walk
    for_each_sfile is_sfile_kernel is_sfile_anon reached sfile_lru_clear opd_clear_modules
    opd_reread_module_info calls
program = tt

addresses : Sfiles → List ℕ
addresses w = map (λ (sf : Sfile). sf.address) w.lru_list

both_files : addresses (run two start) ≡ (1 ∷ 2 ∷ [])
unfolding program addresses
both_files = refl

-- The kernel's file is gone behind a reading of the modules.
reloaded : addresses (run (two ++ (reload none ∷ [])) start) ≡ (2 ∷ [])
unfolding program addresses
reloaded = refl

-- A file that is found again moves to the end.
moved : addresses (run (two ++ (search (sample kernel 1024 20 5001) ∷ [])) start) ≡ (2 ∷ 1 ∷ [])
unfolding program addresses
moved = refl

closed : addresses (run (two ++ (clear_anon 7 ∷ lru_clear ∷ [])) start) ≡ []
unfolding program addresses
closed = refl

start-IsSound : IsSound start
unfolding In
start-IsSound = record {
  listed = λ h sf m. m;
  unique = λ sf sf' m m' e. absurd m;
  fresh = λ sf m. absurd m;
  live = λ sf m. absurd m;
}

calls-IsSound_example : IsSound (run (two ++ (reload none ∷ [])) start)
calls-IsSound_example =
    calls-IsSound no_module no_name keep_all (λ p. none) no_mappings options false
      (two ++ (reload none ∷ [])) start start-IsSound
