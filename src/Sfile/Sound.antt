-- ===== src/Sfile/Sound.antt =====
-- The list of all files holds those of the tables, and no file is of a freed image
-- (daemon/opd_sfile.c).
use oprofile.Base.{
  ℕ, ◌<◌, ◌≡◌, ◌↔◌, ◌⊎◌, refl, sym, ap, ◌∙◌, Bool, true, false, inl, inr, Option, some, none, List,
  [], ◌∷◌, ◌==◌, Bool-cases, ==_iff, ==_refl,
}
use oprofile.Kernel.{Kernel}
use oprofile.Sfile.{is_some, Sfile, Sfiles}
use oprofile.Sfile.Clear.{kill_sfile, walk, for_each_sfile, is_sfile_kernel}
use oprofile.Sfile.Members.{In, In-list_del, list_del-In}

unfoldable pub IsModule : ℕ → List ℕ → Type 0
IsModule p [] = ⊥
IsModule p (q ∷ ps) = (p ≡ q) ⊎ IsModule p ps

-- An image that has not been freed, or no image.
abbrev pub IsLive : Kernel → Option ℕ → Type 0
IsLive k none = Unit
IsLive k (some p) = (p < 2) ⊎ IsModule p k.modules

pub record IsSound (w : Sfiles) : Type 0 where
  pub listed : (h : ℕ) (sf : Sfile) → In sf (w.hashes h) → In sf w.lru_list
  pub unique :
      (sf sf' : Sfile) → In sf w.lru_list → In sf' w.lru_list → sf.address ≡ sf'.address → sf ≡ sf'
  pub fresh : (sf : Sfile) → In sf w.lru_list → sf.address < w.next
  pub live : (sf : Sfile) → In sf w.lru_list → IsLive w.images sf.kernel

-- Files that were there before, and some of them.
pub IsSound-fewer :
    (w w' : Sfiles)
    → IsSound w
    → w'.next ≡ w.next
    → w'.images ≡ w.images
    → ((sf : Sfile) → In sf w'.lru_list → In sf w.lru_list)
    → ((h : ℕ) (sf : Sfile) → In sf (w'.hashes h) → In sf w'.lru_list)
    → IsSound w'
IsSound-fewer w w' s next images before listed = record {
  listed = listed;
  unique = λ sf sf' m m'. s.unique sf sf' (before sf m) (before sf' m');
  fresh = λ sf m. rw next (s.fresh sf (before sf m));
  live = λ sf m. rw images (s.live sf (before sf m));
}

pub kill_sfile-IsSound : (x : Sfile) (w : Sfiles) → IsSound w → IsSound (kill_sfile x w)
unfolding kill_sfile
kill_sfile-IsSound x w s =
    IsSound-fewer w (kill_sfile x w) s refl refl (λ sf m. (In-list_del sf x.address w.lru_list m).0)
      (λ h sf m.
        let (i, n) = In-list_del sf x.address (w.hashes h) m in
        list_del-In sf x.address w.lru_list (s.listed h sf i) n)

killed :
    (x : Sfile) (w : Sfiles) (sf : Sfile)
    → In sf (kill_sfile x w).lru_list
    → In sf w.lru_list × ((sf.address == x.address) ≡ false)
unfolding kill_sfile
killed x w sf m = In-list_del sf x.address w.lru_list m

killed_table :
    (x : Sfile) (w : Sfiles) (h : ℕ) (sf : Sfile)
    → In sf ((kill_sfile x w).hashes h)
    → In sf (w.hashes h)
unfolding kill_sfile
killed_table x w h sf m = (In-list_del sf x.address (w.hashes h) m).0

kill_images : (x : Sfile) (w : Sfiles) → (kill_sfile x w).images ≡ w.images
unfolding kill_sfile
kill_images x w = refl

-- What a walk leaves.
pub record Walked (func : Sfile → Bool) (sfs : List Sfile) (w w' : Sfiles) : Type 0 where
  pub sound : IsSound w'
  pub before : (sf : Sfile) → In sf w'.lru_list → In sf w.lru_list
  pub tables : (h : ℕ) (sf : Sfile) → In sf (w'.hashes h) → In sf (w.hashes h)
  pub spared : (sf : Sfile) → In sf w'.lru_list → In sf sfs → func sf ≡ false
  pub same_images : w'.images ≡ w.images

pub walk-Walked :
    (func : Sfile → Bool) (sfs : List Sfile) (w : Sfiles)
    → IsSound w
    → Walked func sfs w (walk func sfs w)
unfolding walk In
walk-Walked func [] w s = record {
  sound = s;
  before = λ sf m. m;
  tables = λ h sf m. m;
  spared = λ sf m i. absurd i;
  same_images = refl;
}
walk-Walked func (x ∷ sfs) w s = elim (Bool-cases (func x)) [
  | inl y ↦
      let r = walk-Walked func sfs (kill_sfile x w) (kill_sfile-IsSound x w s) in
      rw (walk, y)
        (record {
          sound = r.sound;
          before = λ sf m. (killed x w sf (r.before sf m)).0;
          tables = λ h sf m. killed_table x w h sf (r.tables h sf m);
          spared = λ sf m i. elim i [
            | inl e ↦
                let (_, n) = killed x w sf (r.before sf m) in
                let q : true ≡ false =
                  sym (==_refl x.address)
                  ∙ ap (λ (z : Sfile). z.address == x.address) (sym e)
                  ∙ n in
                let bad : ⊥ = cc in absurd bad
            | inr j ↦ r.spared sf m j
          ];
          same_images = r.same_images ∙ kill_images x w;
        })
  | inr n ↦
      let r = walk-Walked func sfs w s in
      rw (walk, n)
        (record {
          sound = r.sound;
          before = r.before;
          tables = r.tables;
          spared = λ sf m i. elim i [ inl e ↦ ap func e ∙ n | inr j ↦ r.spared sf m j ];
          same_images = r.same_images;
        })
]

-- A file stays in its table when no other with its address goes.
walk_stays :
    (func : Sfile → Bool) (sfs : List Sfile) (w : Sfiles) (h : ℕ) (sf : Sfile)
    → ((x : Sfile) → In x sfs → func x ≡ true → (sf.address == x.address) ≡ false)
    → In sf (w.hashes h)
    → In sf ((walk func sfs w).hashes h)
unfolding walk kill_sfile In
walk_stays func [] w h sf others m = m
walk_stays func (x ∷ sfs) w h sf others m = elim (Bool-cases (func x)) [
  | inl y ↦
      rw (walk, y)
        (walk_stays func sfs (kill_sfile x w) h sf (λ z i. others z (inr i))
          (list_del-In sf x.address (w.hashes h) m (others x (inl refl) y)))
  | inr n ↦ rw (walk, n) (walk_stays func sfs w h sf (λ z i. others z (inr i)) m)
]

-- On sound tables for_each_sfile leaves on each hash list exactly the files that were there and
-- that the function does not choose.
for_each_sfile-In :
    (func : Sfile → Bool) (w : Sfiles) (h : ℕ) (sf : Sfile)
    → IsSound w
    → In sf ((for_each_sfile func w).hashes h) ↔ (In sf (w.hashes h) × (func sf ≡ false))
unfolding for_each_sfile
for_each_sfile-In func w h sf s =
    let r = walk-Walked func w.lru_list w s in
    (
      (λ m.
          let kept = r.sound.listed h sf m in
          (r.tables h sf m, r.spared sf kept (r.before sf kept))),
      (λ (m, spared).
          walk_stays func w.lru_list w h sf
            (λ x i y. elim (Bool-cases (sf.address == x.address)) [
              | inl e ↦
                  let same : sf ≡ x = s.unique sf x (s.listed h sf m) i ((==_iff _ _).0 e) in
                  let q : false ≡ true = sym spared ∙ ap func same ∙ y in
                  let bad : ⊥ = cc in absurd bad
              | inr n ↦ n
            ])
            m),
    )

abbrev pub with_images : Kernel → Sfiles → Sfiles
with_images k w = record w { images = k }

pub walk-with_images :
    (func : Sfile → Bool) (k : Kernel) (sfs : List Sfile) (w : Sfiles)
    → walk func sfs (with_images k w) ≡ with_images k (walk func sfs w)
unfolding walk kill_sfile
walk-with_images func k [] w = refl
walk-with_images func k (x ∷ sfs) w = elim (Bool-cases (func x)) [
  | inl y ↦ rw (walk, y) (walk-with_images func k sfs (kill_sfile x w))
  | inr n ↦ rw (walk, n) (walk-with_images func k sfs w)
]

no_image-IsLive : (k : Kernel) (o : Option ℕ) → is_some o ≡ false → IsLive k o
no_image-IsLive k none h = tt
no_image-IsLive k (some p) h = let bad : ⊥ = cc in absurd bad

-- With the kernel's files gone, any images are sound.
pub cleared-IsSound :
    (w : Sfiles) (k : Kernel)
    → IsSound w
    → IsSound (with_images k (for_each_sfile is_sfile_kernel w))
unfolding for_each_sfile is_sfile_kernel
cleared-IsSound w k s =
    let r = walk-Walked is_sfile_kernel w.lru_list w s in
    record {
      listed = r.sound.listed;
      unique = r.sound.unique;
      fresh = r.sound.fresh;
      live = λ sf m. no_image-IsLive k sf.kernel (r.spared sf m (r.before sf m));
    }
