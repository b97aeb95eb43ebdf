-- ===== src/Sfile/Clear.antt =====
-- The clearing of sample files (daemon/opd_sfile.c), and the new reading of the modules, which
-- needs it (daemon/opd_kernel.c).
use oprofile.Base.{
  ℕ, zero, suc, Bool, true, false, Option, some, none, List, [], ◌∷◌, ◌==◌, if◌then◌else◌,
}
use oprofile.Kernel.{ModuleLine, read_modules}
use oprofile.Sfile.{Sfile, Sfiles, is_some, is_same}
use oprofile.Sfile.Find.{list_del}

unfoldable pub kill_sfile : Sfile → Sfiles → Sfiles
unfolding list_del
kill_sfile sf w = record w {
  hashes = λ h. list_del sf.address (w.hashes h);
  lru_list = list_del sf.address w.lru_list;
}

abbrev pub for_one_sfile : (Sfile → Bool) → Sfile → Sfiles → Sfiles
for_one_sfile func sf w = if func sf then kill_sfile sf w else w

-- The walk along a list of files, each asked by `func` whether it goes.
unfoldable pub walk : (Sfile → Bool) → List Sfile → Sfiles → Sfiles
unfolding kill_sfile
walk func [] w = w
walk func (sf ∷ sfs) w = walk func sfs (for_one_sfile func sf w)

unfoldable pub for_each_sfile : (Sfile → Bool) → Sfiles → Sfiles
unfolding walk
for_each_sfile func w = walk func w.lru_list w

unfoldable pub is_sfile_kernel : Sfile → Bool
is_sfile_kernel sf = is_some sf.kernel

unfoldable pub is_sfile_anon : ℕ → Sfile → Bool
unfolding is_same
is_sfile_anon a sf = is_same sf.anon (some a)

abbrev pub sfile_clear_kernel : Sfiles → Sfiles
sfile_clear_kernel w = for_each_sfile is_sfile_kernel w

abbrev pub sfile_clear_anon : ℕ → Sfiles → Sfiles
sfile_clear_anon a w = for_each_sfile (is_sfile_anon a) w

abbrev pub lru_amount : ℕ
lru_amount = 256

-- The files that the loop of `sfile_lru_clear` reaches: the amount is lowered before it is tested.
unfoldable pub reached : ℕ → List Sfile → List Sfile
reached zero sfs = []
reached (suc amount) [] = []
reached (suc amount) (sf ∷ sfs) =
    let rest = reached amount sfs in if amount == 0 then [] else sf ∷ rest

abbrev pub always_true : Sfile → Bool
always_true sf = true

-- Whether there was nothing to clear, and what is left.
unfoldable pub sfile_lru_clear : Sfiles → Bool × Sfiles
unfolding walk reached
sfile_lru_clear w = elim w.lru_list [
  | [] ↦ (true, w)
  | sf ∷ sfs ↦ (false, walk always_true (reached lru_amount (sf ∷ sfs)) w)
]

unfoldable pub opd_clear_modules : Sfiles → Sfiles
unfolding for_each_sfile is_sfile_kernel
opd_clear_modules w = sfile_clear_kernel (record w { images = record (w.images) { modules = [] } })

-- `/proc/modules` by its lines, `none` when it cannot be opened.
module _ (sscanf_module : List ℕ → Option ModuleLine) where
  abbrev pub with_modules : Option (List (List ℕ)) → Sfiles → Sfiles
  with_modules none w = w
  with_modules (some lines) w = record w { images = read_modules sscanf_module lines w.images }

  unfoldable pub opd_reread_module_info : Bool → Option (List (List ℕ)) → Sfiles → Sfiles
  unfolding opd_clear_modules
  opd_reread_module_info no_vmlinux proc_modules w =
      if no_vmlinux then w else with_modules proc_modules (opd_clear_modules w)
