-- ===== src/Sfile/Reload.antt =====
-- No sample file outlives its image, whatever the daemon does (daemon/opd_sfile.c,
-- daemon/opd_kernel.c).
use oprofile.Base.{
  ℕ, ◌≡◌, refl, sym, subst, Bool, true, false, not, ◌&&◌, ◌||◌, inl, inr, Option, some, none, List,
  [], ◌∷◌, ◌==◌, Bool-cases,
}
use oprofile.Trans.{InKernel, unknown, user, kernel}
use oprofile.Trans
use oprofile.Kernel.{Kernel, ModuleLine, read_modules}
use oprofile.Sfile.{
  AnonMapping, Separate, Sfile, Sfiles, KernCmdline, Transient, is_some, sfile_hash, find_match,
}
use oprofile.Sfile.Find.{
  create_sfile, found_or_new, locate, dropped, has_text, check_cmdline, is_dropped, in_image,
  by_mode, sfile_find,
}
use oprofile.Sfile.Clear.{
  for_each_sfile, is_sfile_kernel, is_sfile_anon, sfile_clear_anon, walk, always_true, reached,
  sfile_lru_clear, lru_amount, opd_clear_modules, with_modules, opd_reread_module_info,
}
use oprofile.Sfile.Members.{find_match-In}
use oprofile.Sfile.Losses.{is_dropped-Checked}
use oprofile.Sfile.Sound.{
  IsLive, IsSound, walk-Walked, with_images, walk-with_images, cleared-IsSound,
}
use oprofile.Sfile.Moves.{find_kernel_image-IsLive, found-IsSound, new-IsSound}

dropped-IsSound : (b : Bool) (w : Sfiles) → IsSound w → IsSound (dropped b w).1
dropped-IsSound true w s = record {
  listed = s.listed;
  unique = s.unique;
  fresh = s.fresh;
  live = s.live;
}
dropped-IsSound false w s = s

-- A call on the sample files: a sample, a module loaded, a task's anonymous mapping freed, or files
-- closed for want of descriptors.
pub data Call : Type 0 where
  search : Transient → Call
  reload : Option (List (List ℕ)) → Call
  clear_anon : ℕ → Call
  lru_clear : Call

module _ (sscanf_module : List ℕ → Option ModuleLine) (lookup_dcookie : ℕ → Option (List ℕ))
    (is_image_ignored : List ℕ → Bool) (cmdline : ℕ → Option (List ℕ)) (anon_at : ℕ → AnonMapping)
    (separate : Separate) (no_vmlinux : Bool) where
  abbrev pub call : Call → Sfiles → Sfiles
  call (search t) w =
      (sfile_find lookup_dcookie is_image_ignored cmdline anon_at separate no_vmlinux t w).1
  call (reload proc_modules) w = opd_reread_module_info sscanf_module no_vmlinux proc_modules w
  call (clear_anon a) w = sfile_clear_anon a w
  call lru_clear w = (sfile_lru_clear w).1

  unfoldable pub calls : List Call → Sfiles → Sfiles
  calls [] w = w
  calls (c ∷ cs) w = calls cs (call c w)

  is_dropped-IsSound :
      (t : Transient) (w : Sfiles)
      → IsSound w
      → IsSound
          (is_dropped lookup_dcookie is_image_ignored cmdline anon_at separate no_vmlinux t w).1
  unfolding is_dropped
  is_dropped-IsSound t w s = elim (Bool-cases ((t.tgid == 0) || ((t.tgid == 1) || (t.tgid == 2)))) [
    | inl y ↦ rw y s
    | inr n ↦ elim (Bool-cases (t.app_cookie == Trans.no_cookie)) [
      | inl y ↦ rw (n, y) (checked _ _)
      | inr m ↦ rw (n, m) s
    ]
  ]
    where
      checked :
          (hash : ℕ) (o : Option KernCmdline)
          → IsSound
              (check_cmdline lookup_dcookie is_image_ignored cmdline anon_at separate no_vmlinux
                t.tgid hash w o).1
      checked hash (some k) = dropped-IsSound k.has_cmdline w s
      checked hash none =
          dropped-IsSound (has_text (cmdline t.tgid)) _
            (record { listed = s.listed; unique = s.unique; fresh = s.fresh; live = s.live })

  locate-IsSound :
      (t : Transient) (ki : Option ℕ) (w : Sfiles)
      → IsSound w
      → IsLive w.images ki
      → IsSound
          (locate lookup_dcookie is_image_ignored cmdline anon_at separate no_vmlinux t ki w).1
  unfolding locate create_sfile
  locate-IsSound t ki w s alive = from _ refl
    where
      hash : ℕ
      hash = sfile_hash separate w.images.image_at anon_at t ki

      from :
          (o : Option Sfile)
          → find_match separate t ki (w.hashes hash) ≡ o
          → IsSound
              (found_or_new lookup_dcookie is_image_ignored cmdline anon_at separate no_vmlinux hash
                t ki w o).1
      from (some sf) e =
          found-IsSound w sf hash s (find_match-In separate t ki (w.hashes hash) sf e)
      from none e = new-IsSound w _ _ hash s refl alive (λ h. refl) refl refl refl

  search-IsSound :
      (m : InKernel) (t : Transient) (w : Sfiles)
      → IsSound w
      → IsSound
          (by_mode lookup_dcookie is_image_ignored cmdline anon_at separate no_vmlinux m t w).1
  search-IsSound unknown t w s = record {
    listed = s.listed;
    unique = s.unique;
    fresh = s.fresh;
    live = s.live;
  }
  search-IsSound user t w s =
      elim (Bool-cases ((t.cookie == Trans.no_cookie) && not (is_some t.anon))) [
        | inl y ↦
            rw y (record { listed = s.listed; unique = s.unique; fresh = s.fresh; live = s.live })
        | inr n ↦ rw n (locate-IsSound t none w s tt)
      ]
  search-IsSound kernel t w s =
      in_image-IsSound _ (find_kernel_image-IsLive no_vmlinux w.images t.pc)
    where
      in_image-IsSound :
          (o : Option ℕ)
          → IsLive w.images o
          → IsSound
              (in_image lookup_dcookie is_image_ignored cmdline anon_at separate no_vmlinux t w o).1
      in_image-IsSound none alive = record {
        listed = s.listed;
        unique = s.unique;
        fresh = s.fresh;
        live = s.live;
      }
      in_image-IsSound (some ki) alive =
          let d =
            is_dropped-Checked lookup_dcookie is_image_ignored cmdline anon_at separate no_vmlinux t
              w in
          elim (Bool-cases
            (is_dropped lookup_dcookie is_image_ignored cmdline anon_at separate no_vmlinux t
              w).0) [
                | inl y ↦ rw y (is_dropped-IsSound t w s)
                | inr n ↦ rw n (
                    locate-IsSound t (some ki) _ (is_dropped-IsSound t w s)
                      (subst (λ (k : Kernel). IsLive k (some ki)) (sym d.same_images) alive))
              ]

module _ (sscanf_module : List ℕ → Option ModuleLine) (lookup_dcookie : ℕ → Option (List ℕ))
    (is_image_ignored : List ℕ → Bool) (cmdline : ℕ → Option (List ℕ)) (anon_at : ℕ → AnonMapping)
    (separate : Separate) (no_vmlinux : Bool) where
  reload-IsSound :
      (proc_modules : Option (List (List ℕ))) (w : Sfiles)
      → IsSound w
      → IsSound (with_modules sscanf_module proc_modules (opd_clear_modules w))
  unfolding opd_clear_modules for_each_sfile
  reload-IsSound none w s =
      subst IsSound (sym (walk-with_images is_sfile_kernel _ w.lru_list w)) (cleared-IsSound w _ s)
  reload-IsSound (some lines) w s =
      subst (λ (v : Sfiles). IsSound (with_images (read_modules sscanf_module lines v.images) v))
        (sym (walk-with_images is_sfile_kernel _ w.lru_list w)) (cleared-IsSound w _ s)

  lru_clear-IsSound : (w : Sfiles) → IsSound w → IsSound (sfile_lru_clear w).1
  unfolding sfile_lru_clear
  lru_clear-IsSound w s = from w.lru_list
    where
      from :
          (sfs : List Sfile)
          → IsSound
              (elim sfs as (λ l. Bool × Sfiles) [
                | [] ↦ (true, w)
                | sf ∷ sfs ↦ (false, walk always_true (reached lru_amount (sf ∷ sfs)) w)
              ]).1
      from [] = s
      from (sf ∷ sfs) = (walk-Walked always_true (reached lru_amount (sf ∷ sfs)) w s).sound

  call-IsSound :
      (c : Call) (w : Sfiles)
      → IsSound w
      → IsSound (
          call sscanf_module lookup_dcookie is_image_ignored cmdline anon_at separate no_vmlinux c
            w)
  unfolding sfile_find opd_reread_module_info for_each_sfile
  call-IsSound (search t) w s =
      search-IsSound sscanf_module lookup_dcookie is_image_ignored cmdline anon_at separate
        no_vmlinux t.in_kernel t w s
  call-IsSound (reload proc_modules) w s = elim (Bool-cases no_vmlinux) [
    | inl y ↦ rw y s
    | inr n ↦ rw n (reload-IsSound proc_modules w s)
  ]
  call-IsSound (clear_anon a) w s = (walk-Walked (is_sfile_anon a) w.lru_list w s).sound
  call-IsSound lru_clear w s = lru_clear-IsSound w s

  -- Any sequence of searches for files, new readings of /proc/modules, clearings of an anonymous
  -- mapping's files and closings for want of descriptors keeps the tables sound: each file of a
  -- hash list is on the list of all files, files there at one address are one and below the next
  -- address, and the kernel image of each is vmlinux, xen or on the list of modules, so none that
  -- was freed.
  pub calls-IsSound :
      (cs : List Call) (w : Sfiles)
      → IsSound w
      → IsSound (
          calls sscanf_module lookup_dcookie is_image_ignored cmdline anon_at separate no_vmlinux cs
            w)
  unfolding calls
  calls-IsSound [] w s = s
  calls-IsSound (c ∷ cs) w s = calls-IsSound cs _ (call-IsSound c w s)
