-- ===== src/Sfile/Losses.antt =====
-- The samples that daemon/opd_sfile.c loses, and the check of their command lines.
use oprofile.Base.{
  ℕ, ◌+◌, ◌≡◌, refl, Bool, true, false, ◌||◌, inl, inr, Option, some, none, List, ◌∷◌, ◌==◌,
  if◌then◌else◌, arith, Bool-cases,
}
use oprofile.Trans.{InKernel, unknown, user, kernel, is_user}
use oprofile.Trans
use oprofile.Sfile.{AnonMapping, Separate, Sfile, KernCmdline, LostStats, Sfiles, Transient}
use oprofile.Sfile.Find.{dropped, check_cmdline, has_text, is_dropped}

-- The samples lost, for whatever reason.
abbrev pub lost : LostStats → ℕ
lost s = s.no_ctx + s.lost_kernel + s.no_app_kernel_sample + s.lost_no_mapping

abbrev pub one_if_none : Option Sfile → ℕ
one_if_none none = 1
one_if_none (some sf) = 0

-- The check of the command line changes no file and counts what it drops.
pub record Checked (w : Sfiles) (r : Bool × Sfiles) : Type 0 where
  pub same_hashes : r.1.hashes ≡ w.hashes
  pub same_images : r.1.images ≡ w.images
  pub counted : lost (r.1).stats ≡ lost w.stats + (if r.0 then 1 else 0)

dropped-Checked : (b : Bool) (w : Sfiles) → Checked w (dropped b w)
dropped-Checked true w = record { same_hashes = refl; same_images = refl; counted = omega arith }
dropped-Checked false w = record { same_hashes = refl; same_images = refl; counted = omega arith }

module _ (lookup_dcookie : ℕ → Option (List ℕ)) (is_image_ignored : List ℕ → Bool)
    (cmdline : ℕ → Option (List ℕ)) (anon_at : ℕ → AnonMapping) (separate : Separate)
    (no_vmlinux : Bool) where
  check_cmdline-Checked :
      (tgid hash : ℕ) (w : Sfiles) (o : Option KernCmdline)
      → Checked w (
          check_cmdline lookup_dcookie is_image_ignored cmdline anon_at separate no_vmlinux tgid
            hash w o)
  check_cmdline-Checked tgid hash w (some k) = dropped-Checked k.has_cmdline w
  check_cmdline-Checked tgid hash w none =
      let c = dropped-Checked (has_text (cmdline tgid)) (record w {
        kernel_cmdlines = λ h.
            if h == hash
            then record { kern_pid = tgid; has_cmdline = has_text (cmdline tgid) }
              ∷ w.kernel_cmdlines h
            else w.kernel_cmdlines h;
      }) in
      record { same_hashes = c.same_hashes; same_images = c.same_images; counted = c.counted }

  pub is_dropped-Checked :
      (t : Transient) (w : Sfiles)
      → Checked w
          (is_dropped lookup_dcookie is_image_ignored cmdline anon_at separate no_vmlinux t w)
  unfolding is_dropped
  is_dropped-Checked t w = elim (Bool-cases ((t.tgid == 0) || ((t.tgid == 1) || (t.tgid == 2)))) [
    | inl y ↦ rw y (dropped-Checked false w)
    | inr n ↦ elim (Bool-cases (t.app_cookie == Trans.no_cookie)) [
      | inl y ↦ rw (n, y) (check_cmdline-Checked _ _ w _)
      | inr m ↦ rw (n, m) (dropped-Checked false w)
    ]
  ]
