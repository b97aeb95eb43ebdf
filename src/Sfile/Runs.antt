-- ===== src/Sfile/Runs.antt =====
-- Sequences of searches of daemon/opd_sfile.c.
use mathlib.Core.Option.{some-injective}
use oprofile.Base.{
  ℕ, ◌+◌, ◌≡◌, refl, sym, ap, ◌∙◌, Bool, true, not, ◌&&◌, inl, inr, Option, some, none, List, ◌==◌,
  arith, Bool-cases, ==_iff,
}
use oprofile.Trans.{InKernel, unknown, user, kernel, is_user}
use oprofile.Trans
use oprofile.Kernel.{Kernel, find_kernel_image}
use oprofile.Sfile.{AnonMapping, Separate, Sfile, Sfiles, Transient, is_some, find_match}
use oprofile.Sfile.Find.{found_or_new, locate, is_dropped, located, in_image, by_mode, sfile_find}
use oprofile.Sfile.Keys.{IsConsistent}
use oprofile.Sfile.Losses.{lost, one_if_none, is_dropped-Checked}
use oprofile.Sfile.Laws.{hash_at, IsFiled, IsKept, Located, added-Located}

-- The anonymous mapping of a context is one of its own task.
abbrev pub IsOwned : (ℕ → AnonMapping) → Transient → Type 0
IsOwned anon_at t = (a : ℕ) → t.anon ≡ some a → (anon_at a).tgid ≡ t.tgid

-- The image of the kernel that a sample is of.
abbrev pub image_of : Bool → InKernel → Transient → Kernel → Option ℕ
image_of no_vmlinux unknown t images = none
image_of no_vmlinux user t images = none
image_of no_vmlinux kernel t images = find_kernel_image no_vmlinux images t.pc

module _ (lookup_dcookie : ℕ → Option (List ℕ)) (is_image_ignored : List ℕ → Bool)
    (cmdline : ℕ → Option (List ℕ)) (anon_at : ℕ → AnonMapping) (separate : Separate)
    (no_vmlinux : Bool) where
  abbrev pub find : Transient → Sfiles → Option Sfile × Sfiles
  find = sfile_find lookup_dcookie is_image_ignored cmdline anon_at separate no_vmlinux

  abbrev pub image : Transient → Sfiles → Option ℕ
  image t w = image_of no_vmlinux t.in_kernel t w.images

  locate-Located :
      (w : Sfiles) (t : Transient) (ki : Option ℕ)
      → IsFiled separate anon_at w
      → IsConsistent anon_at t ki
      → let (sf, w') =
          locate lookup_dcookie is_image_ignored cmdline anon_at separate no_vmlinux t ki w in
        Located separate anon_at w t ki sf w' × (w'.stats ≡ w.stats)
  unfolding locate
  locate-Located w t ki f c = from _ refl
    where
      from :
          (o : Option Sfile)
          → find_match separate t ki (w.hashes (hash_at separate anon_at w t ki)) ≡ o
          → let (sf, w') =
              found_or_new lookup_dcookie is_image_ignored cmdline anon_at separate no_vmlinux
                (hash_at separate anon_at w t ki)
                t
                ki
                w
                o in
            Located separate anon_at w t ki sf w' × (w'.stats ≡ w.stats)
      from (some sf) e = (
        record {
          filed = record { once = f.once };
          kept = record { same_images = refl; found = λ t' ki' sf' c' q. q };
          again = e;
        },
        refl,
      )
      from none e = (added-Located separate anon_at w f t ki c e _ _ refl (λ h. refl), refl)

  -- What a search comes to.
  pub record Answered (w : Sfiles) (t : Transient) (r : Option Sfile × Sfiles) : Type 0 where
    pub filed : IsFiled separate anon_at r.1
    pub kept : IsKept separate anon_at w r.1
    pub answer :
        (sf : Sfile)
        → r.0 ≡ some sf
        → IsConsistent anon_at t (image t w)
          × (find_match separate t
                (image t w)
                ((r.1).hashes (hash_at separate anon_at w t (image t w)))
              ≡ some sf)
    pub counted : lost (r.1).stats ≡ lost w.stats + one_if_none r.0

  module _ (w : Sfiles) (f : IsFiled separate anon_at w) (t : Transient) where
    unanswered :
        (w' : Sfiles)
        → w'.hashes ≡ w.hashes
        → w'.images ≡ w.images
        → lost w'.stats ≡ lost w.stats + 1
        → Answered w t (none, w')
    unanswered w' lists images more = record {
      filed = record { once = λ t' ki' c' h. rw (lists, images) (f.once t' ki' c' h) };
      kept = record { same_images = images; found = λ t' ki' sf c' e. rw lists e };
      answer = λ sf e. let bad : ⊥ = cc in absurd bad;
      counted = more;
    }

    Located-IsKept :
        (w' w'' : Sfiles) (ki : Option ℕ) (sf : Sfile)
        → w'.hashes ≡ w.hashes
        → w'.images ≡ w.images
        → Located separate anon_at w' t ki sf w''
        → IsKept separate anon_at w w''
          × (find_match separate t ki (w''.hashes (hash_at separate anon_at w t ki)) ≡ some sf)
    Located-IsKept w' w'' ki sf lists images l = (
      record {
        same_images = l.kept.same_images ∙ images;
        found = λ t' ki' sf' c' q. rw images at (l.kept.found t' ki' sf' c' (rw (lists, images) q));
      },
      rw images at (l.again),
    )

    located-Answered :
        (w' : Sfiles) (ki : Option ℕ)
        → w'.hashes ≡ w.hashes
        → w'.images ≡ w.images
        → lost w'.stats ≡ lost w.stats
        → image t w ≡ ki
        → IsConsistent anon_at t ki
        → Answered w t
            (located lookup_dcookie is_image_ignored cmdline anon_at separate no_vmlinux t ki w')
    located-Answered w' ki lists images same e c =
        let f' : IsFiled separate anon_at w' = record {
          once = λ t' ki' c' h. rw (lists, images) (f.once t' ki' c' h);
        } in
        let (l, stats) = locate-Located w' t ki f' c in
        let (kept, again) = Located-IsKept w' _ ki _ lists images l in
        record {
          filed = l.filed;
          kept = kept;
          answer = λ sf q. rw (e, sym (some-injective _ _ q)) (c, again);
          counted =
              ap lost stats ∙ same ∙ (let z : lost w.stats ≡ lost w.stats + 0 = omega arith in z);
        }

    in_image-Answered :
        (o : Option ℕ)
        → t.in_kernel ≡ kernel
        → find_kernel_image no_vmlinux w.images t.pc ≡ o
        → IsOwned anon_at t
        → Answered w t
            (in_image lookup_dcookie is_image_ignored cmdline anon_at separate no_vmlinux t w o)
    in_image-Answered none mode e own = unanswered _ refl refl (omega arith)
    in_image-Answered (some ki) mode e own =
        let d =
          is_dropped-Checked lookup_dcookie is_image_ignored cmdline anon_at separate no_vmlinux t
            w in
        elim (Bool-cases
          (is_dropped lookup_dcookie is_image_ignored cmdline anon_at separate no_vmlinux t w).0) [
            | inl y ↦ rw y (unanswered _ d.same_hashes d.same_images (rw y at (d.counted)))
            | inr n ↦
                let c : IsConsistent anon_at t (some ki) = record {
                  modes = ap is_user mode;
                  owned = own;
                  mapped = λ h. let bad : ⊥ = cc in absurd bad;
                } in
                let image_lem : image t w ≡ some ki = rw mode e in
                rw n (
                  located-Answered _ (some ki) d.same_hashes d.same_images
                    (rw n at (d.counted)
                      ∙ (let z : lost w.stats + 0 ≡ lost w.stats = omega arith in z))
                    image_lem c)
          ]

    by_mode-Answered :
        (m : InKernel)
        → t.in_kernel ≡ m
        → IsOwned anon_at t
        → Answered w t
            (by_mode lookup_dcookie is_image_ignored cmdline anon_at separate no_vmlinux m t w)
    by_mode-Answered unknown mode own = unanswered _ refl refl (omega arith)
    by_mode-Answered kernel mode own = in_image-Answered _ mode refl own
    by_mode-Answered user mode own =
        elim (Bool-cases ((t.cookie == Trans.no_cookie) && not (is_some t.anon))) [
          | inl y ↦ rw y (unanswered _ refl refl (omega arith))
          | inr n ↦
              let c : IsConsistent anon_at t none = record {
                modes = ap is_user mode;
                owned = own;
                mapped = λ h z.
                    let q : (t.cookie == Trans.no_cookie) ≡ true = (==_iff _ _).1 z in
                    ground (arith, n);
              } in
              let image_lem : image t w ≡ none = rw mode refl in
              rw n (located-Answered w none refl refl refl image_lem c)
        ]

    pub sfile_find-Answered : IsOwned anon_at t → Answered w t (find t w)
    unfolding sfile_find
    sfile_find-Answered own = by_mode-Answered t.in_kernel refl own
