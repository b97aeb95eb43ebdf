-- ===== src/Sfile/Sequence.antt =====
-- Which samples of a sequence share a sample file (daemon/opd_sfile.c).
use mathlib.Core.Option.{some-injective}
use oprofile.Base.{ℕ, ◌+◌, ◌≡◌, ◌↔◌, refl, sym, ap, ◌∙◌, Bool, Option, some, List, [], ◌∷◌, arith}
use oprofile.Sfile.{AnonMapping, Separate, Sfile, Sfiles, Transient, find_match}
use oprofile.Sfile.Keys.{IsSameKey, trans_match-both}
use oprofile.Sfile.Hash.{IsSameKey-sfile_hash}
use oprofile.Sfile.Laws.{find_match-trans_match, IsSameKey-find_match, IsFiled, IsKept}
use oprofile.Sfile.Runs.{IsOwned, image_of, find, sfile_find-Answered}
use oprofile.Sfile.Losses.{lost, one_if_none}

abbrev pub AllOwned : (ℕ → AnonMapping) → List Transient → Type 0
AllOwned anon_at [] = Unit
AllOwned anon_at (t ∷ ts) = IsOwned anon_at t × AllOwned anon_at ts

module _ (lookup_dcookie : ℕ → Option (List ℕ)) (is_image_ignored : List ℕ → Bool)
    (cmdline : ℕ → Option (List ℕ)) (anon_at : ℕ → AnonMapping) (separate : Separate)
    (no_vmlinux : Bool) where
  -- The searches of a sequence of samples, with the samples that found no file.
  unfoldable pub find_all : List Transient → Sfiles → ℕ × Sfiles
  find_all [] w = (0, w)
  find_all (t ∷ ts) w =
      let (o, w₁) = find lookup_dcookie is_image_ignored cmdline anon_at separate no_vmlinux t w in
      let (n, w₂) = find_all ts w₁ in (one_if_none o + n, w₂)

  find_all-IsKept :
      (ts : List Transient) (w : Sfiles)
      → IsFiled separate anon_at w
      → AllOwned anon_at ts
      → IsFiled separate anon_at (find_all ts w).1 × IsKept separate anon_at w (find_all ts w).1
  unfolding find_all
  find_all-IsKept [] w f own = (f, record { same_images = refl; found = λ t ki sf c e. e })
  find_all-IsKept (t ∷ ts) w f (own, owns) =
      let a =
        sfile_find-Answered lookup_dcookie is_image_ignored cmdline anon_at separate no_vmlinux w f
          t own in
      let (f', k) = find_all-IsKept ts _ a.filed owns in
      (
        f',
        record {
          same_images = k.same_images ∙ a.kept.same_images;
          found = λ t' ki sf c e.
              rw a.kept.same_images at (k.found t' ki sf c) (a.kept.found t' ki sf c e);
        },
      )

  -- From tables whose files stand on the lists of their hashes, at most one for a context, and for
  -- contexts whose anonymous mappings are of their own tasks, a sequence of searches adds to the
  -- statistics of lost samples one for each sample that gets no file, and no more.
  pub find_all-lost :
      (ts : List Transient) (w : Sfiles)
      → IsFiled separate anon_at w
      → AllOwned anon_at ts
      → lost ((find_all ts w).1).stats ≡ lost w.stats + (find_all ts w).0
  unfolding find_all
  find_all-lost [] w f own = omega arith
  find_all-lost (t ∷ ts) w f (own, owns) =
      let a =
        sfile_find-Answered lookup_dcookie is_image_ignored cmdline anon_at separate no_vmlinux w f
          t own in
      omega (arith, a.counted, find_all-lost ts _ a.filed owns)

  -- From tables whose files stand on the lists of their hashes, at most one for a context, and for
  -- contexts whose anonymous mappings are of their own tasks: when sfile_find gives one sample a
  -- file, then searches for any further samples, and gives another sample a file, the two files
  -- are one exactly when the samples agree on the kernel image, on the task and the 32 low bits of
  -- the cpu where those are kept apart, on whether the application is kept apart and then on its
  -- cookie, and, outside the kernel, on the anonymous mapping and the cookie.
  pub sfile_find-IsSameKey :
      (w : Sfiles) (t : Transient) (ts : List Transient) (t' : Transient) (sf sf' : Sfile)
      → IsFiled separate anon_at w
      → IsOwned anon_at t
      → AllOwned anon_at ts
      → IsOwned anon_at t'
      → let (o, w₁) =
          find lookup_dcookie is_image_ignored cmdline anon_at separate no_vmlinux t w in
        let (o', w₃) =
          find lookup_dcookie is_image_ignored cmdline anon_at separate no_vmlinux t'
            (find_all ts w₁).1 in
        o ≡ some sf
        → o' ≡ some sf'
        → (sf ≡ sf')
          ↔ IsSameKey separate t
              (image_of no_vmlinux t.in_kernel t w.images)
              t'
              (image_of no_vmlinux t'.in_kernel t' w.images)
  sfile_find-IsSameKey w t ts t' sf sf' f own owns own' e e' =
      let a =
        sfile_find-Answered lookup_dcookie is_image_ignored cmdline anon_at separate no_vmlinux w f
          t own in
      let (f₂, k) = find_all-IsKept ts _ a.filed owns in
      let a' =
        sfile_find-Answered lookup_dcookie is_image_ignored cmdline anon_at separate no_vmlinux _ f₂
          t' own' in
      let w₃ =
        (find lookup_dcookie is_image_ignored cmdline anon_at separate no_vmlinux t'
          (find_all ts
            (find lookup_dcookie is_image_ignored cmdline anon_at separate no_vmlinux t
              w).1).1).1 in
      let images = k.same_images ∙ a.kept.same_images in
      let (c, found₁) = a.answer sf e in
      let answer' = a'.answer sf' e' in
      let (c', found') = rw images at answer' in
      let found₂ = rw a.kept.same_images at (k.found t _ sf c) found₁ in
      let found₃ = rw images at (a'.kept.found t _ sf c) found₂ in
      let ki = image_of no_vmlinux t.in_kernel t w.images in
      let ki' = image_of no_vmlinux t'.in_kernel t' w.images in
      (
        (λ p.
            trans_match-both separate t ki t' ki' sf
              (find_match-trans_match separate t ki _ sf found₁)
              (find_match-trans_match separate t' ki' _ sf (found' ∙ ap some (sym p)))),
        (λ s.
            let same_hash =
              IsSameKey-sfile_hash separate t ki t' ki' s w.images.image_at anon_at c c' in
            some-injective _ _ (
              sym found₃
              ∙ IsSameKey-find_match separate t ki t' ki' s _
              ∙ ap (λ (h : ℕ). find_match separate t' ki' (w₃.hashes h)) same_hash
              ∙ found')),
      )
