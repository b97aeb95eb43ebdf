-- ===== src/Sfile/Tests.antt =====
-- Samples of two tasks, and the theorems at them.
mod Clear
use oprofile.Base.{
  ℕ, ◌+◌, ◌-◌, ◌^◌, ◌≡◌, ◌↔◌, refl, Bool, true, false, Option, some, none, List, [], ◌∷◌, arith,
}
use oprofile.Trans.{InKernel, unknown, user, kernel, tracing_off}
use oprofile.Cookie.{is_cookie_ignored, entry_of, create_cookie, find_entry, hash_cookie}
use oprofile.Kernel.{KernelImage, find_kernel_image, find_module, contains}
use oprofile.Sfile.{
  AnonMapping, Separate, Sfile, Sfiles, Transient, find_match, sfile_hash, common_bits, shifted,
  trans_match, do_match, is_same, new_sfile, sfile_equal,
}
use oprofile.Sfile.Find.{
  sfile_find, locate, create_sfile, is_sf_ignored, is_dropped, find_cmdline, list_del,
}
use oprofile.Sfile.Keys.{IsSameKey}
use oprofile.Sfile.Laws.{IsFiled, matching}
use oprofile.Sfile.Runs.{IsOwned}
use oprofile.Sfile.Losses.{lost}
use oprofile.Sfile.Sequence.{AllOwned, find_all, find_all-lost, sfile_find-IsSameKey}

abbrev pub options : Separate
options = record { thread = false; kernel = false; lib = true; cpu = true }

abbrev pub vmlinux : KernelImage
vmlinux = record { name = []; start = 4096; end = 8192 }

abbrev pub start : Sfiles
start = record {
  hashes = λ h. [];
  lru_list = [];
  kernel_cmdlines = λ h. [];
  next = 1;
  cookies = λ h. [];
  images = record { image_at = λ p. vmlinux; modules = []; next = 2 };
  stats = record { no_ctx = 0; lost_kernel = 0; no_app_kernel_sample = 0; lost_no_mapping = 0 };
}

-- A sample of an image by a task.
abbrev pub sample : InKernel → ℕ → ℕ → ℕ → Transient
sample mode cookie tgid pc = record {
  tracing = tracing_off;
  current = none;
  last = none;
  anon = none;
  last_anon = none;
  cookie = cookie;
  app_cookie = 512;
  pc = pc;
  last_pc = 0;
  event = 0;
  in_kernel = mode;
  cpu = 1;
  tid = tgid;
  tgid = tgid;
}

abbrev pub no_name : ℕ → Option (List ℕ)
no_name cookie = none

abbrev pub keep_all : List ℕ → Bool
keep_all name = false

abbrev pub no_mappings : ℕ → AnonMapping
no_mappings a = record { start = 0; end = 0; tgid = 0; app_cookie = 0 }

abbrev pub file : ℕ → ℕ → Sfile
file address hash = record {
  address = address;
  hashval = hash;
  cookie = 1024;
  app_cookie = 512;
  tid = 2 ^ 32 - 1;
  tgid = 2 ^ 32 - 1;
  cpu = 1;
  kernel = none;
  anon = none;
  ignored = false;
}

-- Behind a sample of task 20: one of the kernel, one lost in the kernel, and one of no image.
abbrev others : List Transient
others =
    sample kernel 1024 20 5000
    ∷ sample kernel 1024 20 9000
    ∷ sample user 0 20 7
    ∷ sample unknown 0 20 7
    ∷ []

start-IsFiled : IsFiled options no_mappings start
unfolding matching
start-IsFiled = record { once = λ t ki c h. omega arith }

owned : (mode : InKernel) (cookie tgid pc : ℕ) → IsOwned no_mappings (sample mode cookie tgid pc)
owned mode cookie tgid pc a e = let bad : ⊥ = cc in absurd bad

others-AllOwned : AllOwned no_mappings others
others-AllOwned = (
  owned kernel 1024 20 5000,
  (owned kernel 1024 20 9000, (owned user 0 20 7, (owned unknown 0 20 7, tt))),
)

abbrev first : Option Sfile × Sfiles
first =
    sfile_find no_name keep_all (λ p. none) no_mappings options false (sample user 1024 20 7) start

abbrev behind : Sfiles
behind = (find_all no_name keep_all (λ p. none) no_mappings options false others first.1).1

abbrev second : Option Sfile × Sfiles
second =
    sfile_find no_name keep_all (λ p. none) no_mappings options false (sample user 1024 30 8) behind

program : Unit {0}
unfolding sfile_find locate create_sfile is_sf_ignored is_dropped find_cmdline list_del find_match
    sfile_hash common_bits shifted trans_match do_match is_same new_sfile find_all is_cookie_ignored
    entry_of create_cookie find_entry hash_cookie find_kernel_image find_module contains
program = tt

first_run : first.0 ≡ some (file 1 9)
unfolding program
first_run = refl

-- Another task, in the same image.
second_run : second.0 ≡ some (file 1 9)
unfolding program
second_run = refl

lost_run : lost behind.stats ≡ 3
unfolding program
lost_run = refl

call_graph : sfile_equal options (file 1 9) (record (file 1 9) { tgid = 30 }) ≡ true
unfolding sfile_equal do_match is_same
call_graph = refl

sfile_find-IsSameKey_example :
    (file 1 9 ≡ file 1 9)
    ↔ IsSameKey options (sample user 1024 20 7) none (sample user 1024 30 8) none
sfile_find-IsSameKey_example =
    sfile_find-IsSameKey no_name keep_all (λ p. none) no_mappings options false start
      (sample user 1024 20 7) others (sample user 1024 30 8) (file 1 9) (file 1 9) start-IsFiled
      (owned user 1024 20 7) others-AllOwned (owned user 1024 30 8) first_run second_run

find_all-lost_example :
    let (n, w) = find_all no_name keep_all (λ p. none) no_mappings options false others start in
    lost w.stats ≡ lost start.stats + n
find_all-lost_example =
    find_all-lost no_name keep_all (λ p. none) no_mappings options false others start start-IsFiled
      others-AllOwned
