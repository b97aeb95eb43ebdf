-- ===== src/Sfile.antt =====
-- The sample files of the daemon and the search for the one of a sample (daemon/opd_sfile.c,
-- daemon/opd_sfile.h).
mod Keys
pub mod Find
pub mod Clear
mod Hash
mod Losses
mod Laws
mod Runs
mod Sequence
pub mod Members
pub mod Sound
mod Moves
mod Reload
pub mod Tests
use oprofile.Base.{
  ℕ, ◌+◌, ◌-◌, ◌*◌, ◌/◌, ◌%◌, ◌^◌, bit_and, bit_xor, Bool, true, false, not, ◌&&◌, ◌||◌, Option,
  some, none, List, [], ◌∷◌, ◌++◌, ltb, ◌==◌, if◌then◌else◌, u32, u64,
}
use oprofile.Trans.{Context, InKernel, is_user}
use oprofile.Trans
use oprofile.Cookie
use oprofile.Cookie.{dcookie_shift, is_cookie_ignored}
use oprofile.Kernel.{KernelImage, Kernel, find_kernel_image}

-- `struct anon_mapping` without its name and links
pub record AnonMapping : Type 0 where
  pub start : ℕ
  pub end : ℕ
  pub tgid : ℕ
  pub app_cookie : ℕ

-- The options `separate_thread`, `separate_kernel`, `separate_lib` and `separate_cpu`.
pub record Separate : Type 0 where
  pub thread : Bool
  pub kernel : Bool
  pub lib : Bool
  pub cpu : Bool

-- `struct sfile` without its links, its opened files and its call graph; pointers are numbers, and
-- a null pointer is `none`.
pub record Sfile : Type 0 where
  pub address : ℕ
  pub hashval : ℕ
  pub cookie : ℕ
  pub app_cookie : ℕ
  pub tid : ℕ
  pub tgid : ℕ
  pub cpu : ℕ
  pub kernel : Option ℕ
  pub anon : Option ℕ
  pub ignored : Bool

pub record KernCmdline : Type 0 where
  pub kern_pid : ℕ
  pub has_cmdline : Bool

-- What of `opd_stats` is counted here.
pub record LostStats : Type 0 where
  pub no_ctx : ℕ
  pub lost_kernel : ℕ
  pub no_app_kernel_sample : ℕ
  pub lost_no_mapping : ℕ

-- The sample files' tables, with the other parts of the daemon that a search uses.
pub record Sfiles : Type 0 where
  pub hashes : ℕ → List Sfile
  pub lru_list : List Sfile
  pub kernel_cmdlines : ℕ → List KernCmdline
  pub next : ℕ
  pub cookies : Cookie.Hashes
  pub images : Kernel
  pub stats : LostStats

abbrev pub Transient : Type 0
Transient = Context Sfile ℕ

abbrev pub is_some : Option ℕ → Bool
is_some none = false
is_some (some p) = true

abbrev pub hash_bits : ℕ
hash_bits = 2048 - 1

abbrev pub vma_shift : ℕ
vma_shift = 13

-- `id << 2` of an `int`, as an `unsigned long`
pub shifted : ℕ → ℕ
shifted id = let v = id * 4 % u32 in if ltb v (2 ^ 31) then v else v + u64 - u32

-- The tests of pointers and options
unfoldable pub is_same : Option ℕ → Option ℕ → Bool
is_same none none = true
is_same none (some q) = false
is_same (some p) none = false
is_same (some p) (some q) = p == q

abbrev pub has_app : Separate → Option ℕ → Option ℕ → Bool
has_app separate anon ki = separate.kernel || ((is_some anon || separate.lib) && not (is_some ki))

abbrev pub image_bits : (ℕ → KernelImage) → ℕ → Option ℕ → ℕ
image_bits image_at val none = val
image_bits image_at val (some ki) =
    bit_xor (bit_xor val ((image_at ki).start / 2 ^ 14)) ((image_at ki).end / 2 ^ 7)

abbrev pub anon_bits : (ℕ → AnonMapping) → ℕ → Option ℕ → ℕ
anon_bits anon_at val none = val
anon_bits anon_at val (some a) =
    bit_xor (bit_xor val ((anon_at a).start / 2 ^ vma_shift))
      ((anon_at a).end / 2 ^ (vma_shift + 1))

module _ (separate : Separate) where
  -- The part of the hash that all samples have.
  pub common_bits : Transient → Option ℕ → ℕ
  common_bits t ki =
      let val₁ =
        if separate.thread then bit_xor (bit_xor 0 (shifted t.tid)) (shifted t.tgid) else 0 in
      let val₂ =
        if has_app separate t.anon ki
        then bit_xor val₁ (t.app_cookie / 2 ^ (dcookie_shift + 3))
        else val₁ in
      if separate.cpu then bit_xor val₂ t.cpu else val₂

  -- `sfile_hash`, over what the pointers name.
  pub sfile_hash : (ℕ → KernelImage) → (ℕ → AnonMapping) → Transient → Option ℕ → ℕ
  sfile_hash image_at anon_at t ki =
      let val = common_bits t ki in
      let val' = if not separate.thread then bit_xor val (shifted t.tgid) else val in
      if not (is_user t.in_kernel) && is_some ki
      then bit_and (image_bits image_at val ki) hash_bits
      else if not (t.cookie == Trans.no_cookie)
      then bit_and (bit_xor val (t.cookie / 2 ^ dcookie_shift)) hash_bits
      else bit_and (anon_bits anon_at val' t.anon) hash_bits

  -- The cpu is an `unsigned int`, here and in `sfile`, and an `unsigned long` in the context.
  pub do_match : Sfile → ℕ → ℕ → Option ℕ → Option ℕ → ℕ → ℕ → ℕ → Bool
  unfolding is_same
  do_match sf cookie app_cookie ki anon tgid tid cpu =
      if not (is_same sf.kernel ki)
      then false
      else if separate.thread && (not (sf.tid == tid) || not (sf.tgid == tgid))
      then false
      else if separate.cpu && not (sf.cpu == (cpu % u32))
      then false
      else if has_app separate anon ki && not (sf.app_cookie == app_cookie)
      then false
      else if is_some ki
      then true
      else if not (is_same sf.anon anon)
      then false
      else sf.cookie == cookie

  pub trans_match : Transient → Sfile → Option ℕ → Bool
  unfolding do_match
  trans_match t sf ki = do_match sf t.cookie t.app_cookie ki t.anon t.tgid t.tid t.cpu

  pub sfile_equal : Sfile → Sfile → Bool
  unfolding do_match
  sfile_equal sf sf2 =
      do_match sf sf2.cookie sf2.app_cookie sf2.kernel sf2.anon sf2.tgid sf2.tid sf2.cpu

  -- The walk along a list.
  pub find_match : Transient → Option ℕ → List Sfile → Option Sfile
  unfolding trans_match
  find_match t ki [] = none
  find_match t ki (sf ∷ sfs) =
      let rest = find_match t ki sfs in if trans_match t sf ki then some sf else rest

  -- `create_sfile` before it asks whether the file is ignored; -1 as an unset id.
  pub new_sfile : ℕ → ℕ → Transient → Option ℕ → Sfile
  new_sfile address hash t ki = record {
    address = address;
    hashval = hash;
    cookie = if is_user t.in_kernel then t.cookie else Trans.invalid_cookie;
    app_cookie = if has_app separate t.anon ki then t.app_cookie else Trans.invalid_cookie;
    tid = if separate.thread then t.tid else u32 - 1;
    tgid = if separate.thread || (t.cookie == Trans.no_cookie) then t.tgid else u32 - 1;
    cpu = if separate.cpu then t.cpu % u32 else 0;
    kernel = ki;
    anon = t.anon;
    ignored = false;
  }
