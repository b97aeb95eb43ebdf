-- ===== src/Sfile/Find.antt =====
-- `sfile_find` of daemon/opd_sfile.c.
use oprofile.Base.{
  ℕ, ◌+◌, bit_and, Bool, true, false, not, ◌&&◌, ◌||◌, Option, some, none, List, [], ◌∷◌, ◌++◌,
  ◌==◌, if◌then◌else◌,
}
use oprofile.Trans.{InKernel, unknown, user, kernel}
use oprofile.Trans
use oprofile.Cookie
use oprofile.Cookie.{is_cookie_ignored}
use oprofile.Kernel.{Kernel, find_kernel_image}
use oprofile.Sfile.{
  AnonMapping, Separate, Sfile, KernCmdline, Sfiles, Transient, is_some, hash_bits, shifted,
  sfile_hash, find_match, new_sfile,
}

-- A list without the file at an address.
unfoldable pub list_del : ℕ → List Sfile → List Sfile
list_del p [] = []
list_del p (sf ∷ sfs) = let rest = list_del p sfs in if sf.address == p then rest else sf ∷ rest

-- Out of the list of all files, and at its end.
abbrev pub sfile_get : Sfile → List Sfile → List Sfile
sfile_get sf sfs = list_del sf.address sfs

abbrev pub sfile_put : Sfile → List Sfile → List Sfile
sfile_put sf sfs = sfs ++ (sf ∷ [])

unfoldable pub find_cmdline : ℕ → List KernCmdline → Option KernCmdline
find_cmdline tgid [] = none
find_cmdline tgid (k ∷ ks) =
    let rest = find_cmdline tgid ks in if k.kern_pid == tgid then some k else rest

-- What a reading of /proc/<pid>/cmdline says; `none` when it cannot be opened.
abbrev pub has_text : Option (List ℕ) → Bool
has_text none = true
has_text (some []) = false
has_text (some (c ∷ text)) = true

abbrev pub dropped : Bool → Sfiles → Bool × Sfiles
dropped b w =
    if b
    then (
      true,
      record w {
        stats = record (w.stats) { no_app_kernel_sample = w.stats.no_app_kernel_sample + 1 };
      },
    )
    else (false, w)

-- The cookies, the filter of images, the texts of /proc, the memory of the anonymous mappings, and
-- the options.
module _ (lookup_dcookie : ℕ → Option (List ℕ)) (is_image_ignored : List ℕ → Bool)
    (cmdline : ℕ → Option (List ℕ)) (anon_at : ℕ → AnonMapping) (separate : Separate)
    (no_vmlinux : Bool) where
  abbrev pub ignored_cookie : ℕ → Cookie.Hashes → Bool × Cookie.Hashes
  ignored_cookie = is_cookie_ignored lookup_dcookie is_image_ignored

  abbrev pub is_image_sf_ignored : Kernel → ℕ → Sfile → Cookie.Hashes → Bool × Cookie.Hashes
  is_image_sf_ignored images ki sf cookies =
      if not (is_image_ignored (images.image_at ki).name)
      then (false, cookies)
      else ignored_cookie sf.app_cookie cookies

  abbrev pub is_user_sf_ignored : Sfile → Cookie.Hashes → Bool × Cookie.Hashes
  is_user_sf_ignored sf cookies =
      let (own, cookies') =
        if is_some sf.anon then (true, cookies) else ignored_cookie sf.cookie cookies in
      if own then ignored_cookie sf.app_cookie cookies' else (false, cookies')

  unfoldable pub is_sf_ignored : Kernel → Sfile → Cookie.Hashes → Bool × Cookie.Hashes
  is_sf_ignored images sf cookies = elim sf.kernel [
    | some ki ↦ is_image_sf_ignored images ki sf cookies
    | none ↦ is_user_sf_ignored sf cookies
  ]

  unfoldable pub create_sfile : ℕ → Transient → Option ℕ → Sfiles → Sfile × Cookie.Hashes
  unfolding new_sfile is_sf_ignored
  create_sfile hash t ki w =
      let sf = new_sfile separate w.next hash t ki in
      let (ignored, cookies) = is_sf_ignored w.images sf w.cookies in
      (record sf { ignored = ignored }, cookies)

  -- From the label `find_sfile` on: the file found, or a new one.
  abbrev pub found_or_new : ℕ → Transient → Option ℕ → Sfiles → Option Sfile → Sfile × Sfiles
  found_or_new hash t ki w (some sf) =
      (sf, record w { lru_list = sfile_put sf (sfile_get sf w.lru_list) })
  found_or_new hash t ki w none =
      let (sf, cookies) = create_sfile hash t ki w in
      (
        sf,
        record w {
          hashes = λ h. if h == hash then sf ∷ w.hashes h else w.hashes h;
          lru_list = sfile_put sf w.lru_list;
          next = w.next + 1;
          cookies = cookies;
        },
      )

  unfoldable pub locate : Transient → Option ℕ → Sfiles → Sfile × Sfiles
  unfolding sfile_hash find_match create_sfile
  locate t ki w =
      let hash = sfile_hash separate w.images.image_at anon_at t ki in
      found_or_new hash t ki w (find_match separate t ki (w.hashes hash))

  -- The command line of the task, cached or read.
  abbrev pub check_cmdline : ℕ → ℕ → Sfiles → Option KernCmdline → Bool × Sfiles
  check_cmdline tgid hash w (some k) = dropped k.has_cmdline w
  check_cmdline tgid hash w none =
      let k : KernCmdline = record { kern_pid = tgid; has_cmdline = has_text (cmdline tgid) } in
      dropped k.has_cmdline (record w {
        kernel_cmdlines = λ h. if h == hash then k ∷ w.kernel_cmdlines h else w.kernel_cmdlines h;
      })

  -- Whether a kernel sample is of a task that has ended.
  unfoldable pub is_dropped : Transient → Sfiles → Bool × Sfiles
  unfolding find_cmdline
  is_dropped t w =
      let hash = bit_and (shifted t.tgid) hash_bits in
      let checked = check_cmdline t.tgid hash w (find_cmdline t.tgid (w.kernel_cmdlines hash)) in
      if (t.tgid == 0) || ((t.tgid == 1) || (t.tgid == 2))
      then (false, w)
      else if t.app_cookie == Trans.no_cookie
      then checked
      else (false, w)

  abbrev pub located : Transient → Option ℕ → Sfiles → Option Sfile × Sfiles
  located t ki w = let (sf, w') = locate t ki w in (some sf, w')

  abbrev pub in_image : Transient → Sfiles → Option ℕ → Option Sfile × Sfiles
  in_image t w none =
      (none, record w { stats = record (w.stats) { lost_kernel = w.stats.lost_kernel + 1 } })
  in_image t w (some ki) =
      let (drop, w') = is_dropped t w in if drop then (none, w') else located t (some ki) w'

  abbrev pub by_mode : InKernel → Transient → Sfiles → Option Sfile × Sfiles
  by_mode unknown t w =
      (none, record w { stats = record (w.stats) { no_ctx = w.stats.no_ctx + 1 } })
  by_mode kernel t w = in_image t w (find_kernel_image no_vmlinux w.images t.pc)
  by_mode user t w =
      if (t.cookie == Trans.no_cookie) && not (is_some t.anon)
      then (
        none,
        record w { stats = record (w.stats) { lost_no_mapping = w.stats.lost_no_mapping + 1 } },
      )
      else located t none w

  unfoldable pub sfile_find : Transient → Sfiles → Option Sfile × Sfiles
  unfolding locate is_dropped
  sfile_find t w = by_mode t.in_kernel t w
