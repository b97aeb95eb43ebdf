-- ===== src/Sfile/Laws.antt =====
-- The search of daemon/opd_sfile.c keeps one file for all samples that belong together.
use mathlib.Core.Option.{some-injective}
use oprofile.Base.{
  ℕ, ◌+◌, ◌≤◌, ◌≡◌, refl, sym, ap, ◌∙◌, Bool, true, inl, inr, Option, some, none, List, [], ◌∷◌,
  ◌==◌, if◌then◌else◌, arith, Bool-cases, ==_iff, ==_refl,
}
use oprofile.Sfile.{
  AnonMapping, Separate, Sfile, Sfiles, Transient, sfile_hash, trans_match, find_match, new_sfile,
}
use oprofile.Sfile.Keys.{IsConsistent, IsSameKey, trans_match-IsSameKey, trans_match-new_sfile}
use oprofile.Sfile.Hash.{IsSameKey-trans_match, IsSameKey-sfile_hash}

module _ (separate : Separate) where
  -- How many files of a list match the context.
  unfoldable pub matching : Transient → Option ℕ → List Sfile → ℕ
  matching t ki [] = 0
  matching t ki (sf ∷ sfs) = matching t ki sfs + (if trans_match separate t sf ki then 1 else 0)

  pub find_match-trans_match :
      (t : Transient) (ki : Option ℕ) (sfs : List Sfile) (sf : Sfile)
      → find_match separate t ki sfs ≡ some sf
      → trans_match separate t sf ki ≡ true
  unfolding find_match
  find_match-trans_match t ki [] sf h = let bad : ⊥ = cc in absurd bad
  find_match-trans_match t ki (x ∷ sfs) sf h = elim (Bool-cases (trans_match separate t x ki)) [
    | inl y ↦
        let q : some x ≡ some sf = rw y at h in
        ap (λ (z : Sfile). trans_match separate t z ki) (sym (some-injective _ _ q)) ∙ y
    | inr n ↦ find_match-trans_match t ki sfs sf (rw n at h)
  ]

  find_match-matching :
      (t : Transient) (ki : Option ℕ) (sfs : List Sfile)
      → find_match separate t ki sfs ≡ none
      → matching t ki sfs ≡ 0
  unfolding find_match matching
  find_match-matching t ki [] h = refl
  find_match-matching t ki (x ∷ sfs) h = elim (Bool-cases (trans_match separate t x ki)) [
    | inl y ↦ let q : some x ≡ none = rw y at h in let bad : ⊥ = cc in absurd bad
    | inr n ↦ rw n (omega (arith, find_match-matching t ki sfs (rw n at h)))
  ]

  module _ (t : Transient) (ki : Option ℕ) (t' : Transient) (ki' : Option ℕ)
      (s : IsSameKey separate t ki t' ki') where
    IsSameKey-matching : (sfs : List Sfile) → matching t ki sfs ≡ matching t' ki' sfs
    unfolding matching
    IsSameKey-matching [] = refl
    IsSameKey-matching (sf ∷ sfs) =
        rw (IsSameKey-trans_match separate t ki t' ki' s sf, IsSameKey-matching sfs) refl

    pub IsSameKey-find_match :
        (sfs : List Sfile) → find_match separate t ki sfs ≡ find_match separate t' ki' sfs
    unfolding find_match
    IsSameKey-find_match [] = refl
    IsSameKey-find_match (sf ∷ sfs) =
        rw (find_match, IsSameKey-trans_match separate t ki t' ki' s sf, IsSameKey-find_match sfs)
          refl

  module _ (anon_at : ℕ → AnonMapping) where
    abbrev pub hash_at : Sfiles → Transient → Option ℕ → ℕ
    hash_at w t ki = sfile_hash separate w.images.image_at anon_at t ki

    -- The files are on the lists of their hashes, at most one for a context.
    pub record IsFiled (w : Sfiles) : Type 0 where
      pub once :
          (t : Transient) (ki : Option ℕ)
          → IsConsistent anon_at t ki
          → (h : ℕ) → matching t ki (w.hashes h) ≤ (if h == hash_at w t ki then 1 else 0)

    -- What a context finds stays found.
    pub record IsKept (w w' : Sfiles) : Type 0 where
      pub same_images : w'.images ≡ w.images
      pub found :
          (t : Transient) (ki : Option ℕ) (sf : Sfile)
          → IsConsistent anon_at t ki
          → find_match separate t ki (w.hashes (hash_at w t ki)) ≡ some sf
          → find_match separate t ki (w'.hashes (hash_at w t ki)) ≡ some sf

    pub record Located (w : Sfiles) (t : Transient) (ki : Option ℕ) (sf : Sfile) (w' : Sfiles)
        : Type 0 where
      pub filed : IsFiled w'
      pub kept : IsKept w w'
      pub again : find_match separate t ki (w'.hashes (hash_at w t ki)) ≡ some sf

    module _ (w : Sfiles) (f : IsFiled w) (t : Transient) (ki : Option ℕ)
        (c : IsConsistent anon_at t ki) where
      module _ (miss : find_match separate t ki (w.hashes (hash_at w t ki)) ≡ none)
          (ignored : Bool) where
        abbrev added : Sfile
        added = record (new_sfile separate w.next (hash_at w t ki) t ki) { ignored = ignored }

        added-once :
            (t' : Transient) (ki' : Option ℕ)
            → IsConsistent anon_at t' ki'
            → matching t' ki' (added ∷ w.hashes (hash_at w t ki))
              ≤ (if hash_at w t ki == hash_at w t' ki' then 1 else 0)
        unfolding matching
        added-once t' ki' c' = elim (Bool-cases (trans_match separate t' added ki')) [
          | inl y ↦
              let s =
                trans_match-IsSameKey separate t ki t' ki' anon_at w.next (hash_at w t ki) ignored c
                  y in
              let z =
                sym (IsSameKey-matching t ki t' ki' s (w.hashes (hash_at w t ki)))
                ∙ find_match-matching t ki _ miss in
              let e =
                (==_iff _ _).1
                  (IsSameKey-sfile_hash separate t ki t' ki' s w.images.image_at anon_at c c') in
              rw (y, z, e) (omega arith)
          | inr n ↦ rw n (omega (arith, f.once t' ki' c' (hash_at w t ki)))
        ]

        added-found :
            (t' : Transient) (ki' : Option ℕ) (sf : Sfile)
            → find_match separate t' ki' (w.hashes (hash_at w t ki)) ≡ some sf
            → find_match separate t' ki' (added ∷ w.hashes (hash_at w t ki)) ≡ some sf
        unfolding find_match
        added-found t' ki' sf e = elim (Bool-cases (trans_match separate t' added ki')) [
          | inl y ↦
              let s =
                trans_match-IsSameKey separate t ki t' ki' anon_at w.next (hash_at w t ki) ignored c
                  y in
              let q : none ≡ some sf = sym miss ∙ IsSameKey-find_match t ki t' ki' s _ ∙ e in
              let bad : ⊥ = cc in absurd bad
          | inr n ↦ rw n e
        ]

        added-again : find_match separate t ki (added ∷ w.hashes (hash_at w t ki)) ≡ some added
        unfolding find_match
        added-again =
            rw (trans_match-new_sfile separate t ki w.next (hash_at w t ki) ignored c.modes) refl

        pub added-Located :
            (w' : Sfiles)
            → w'.images ≡ w.images
            → ((h : ℕ)
                → w'.hashes h ≡ (if h == hash_at w t ki then added ∷ w.hashes h else w.hashes h))
            → Located w t ki added w'
        added-Located w' same lists = record {
          filed = record {
            once = λ t' ki' c' h. elim (Bool-cases (h == hash_at w t ki)) [
              | inl y ↦ rw (lists h, same, y, (==_iff h _).0 y) (added-once t' ki' c')
              | inr n ↦ rw (lists h, same, n) (f.once t' ki' c' h)
            ];
          };
          kept = record {
            same_images = same;
            found = λ t' ki' sf c' e. elim (Bool-cases (hash_at w t' ki' == hash_at w t ki)) [
              | inl y ↦
                  let q = (==_iff _ _).0 y in
                  rw (lists _, y, q)
                    (added-found t' ki' sf
                      (ap (λ (h : ℕ). find_match separate t' ki' (w.hashes h)) (sym q) ∙ e))
              | inr n ↦ rw (lists _, n) e
            ];
          };
          again = rw (lists _, ==_refl (hash_at w t ki)) added-again;
        }
