-- ===== src/Sfile/Moves.antt =====
-- What a search does to the list of all files, and that it finds no freed image (daemon/opd_sfile.c,
-- daemon/opd_kernel.c).
use oprofile.Base.{
  ℕ, ◌+◌, ◌≡◌, ◌⊎◌, refl, sym, ap, subst, ◌∙◌, Bool, true, false, inl, inr, List, [], ◌∷◌, ◌==◌,
  if◌then◌else◌, Bool-cases, arith, ==_iff,
}
use oprofile.Kernel.{
  Kernel, vmlinux_image, xen_image, find_kernel_image, find_module, or_xen, contains,
}
use oprofile.Sfile.{Sfile, Sfiles}
use oprofile.Sfile.Find.{list_del, sfile_get, sfile_put}
use oprofile.Sfile.Members.{In, In-list_del, list_del-In, In_last, In_before, In_end}
use oprofile.Sfile.Sound.{IsModule, IsLive, IsSound, IsSound-fewer}

find_module-IsLive :
    (k : Kernel) (pc : ℕ) (ps : List ℕ) (modules : List ℕ)
    → ((p : ℕ) → IsModule p ps → IsModule p modules)
    → IsLive (record k { modules = modules }) (or_xen k pc (find_module k pc ps))
unfolding find_module IsModule
find_module-IsLive k pc [] modules sub = elim (Bool-cases (contains (k.image_at xen_image) pc)) [
  | inl y ↦ rw y (inl (omega arith))
  | inr n ↦ rw n tt
]
find_module-IsLive k pc (p ∷ ps) modules sub = elim (Bool-cases (contains (k.image_at p) pc)) [
  | inl y ↦ rw (or_xen, find_module, y) (inr (sub p (inl refl)))
  | inr n ↦ rw (or_xen, find_module, n) (find_module-IsLive k pc ps modules (λ q i. sub q (inr i)))
]

pub find_kernel_image-IsLive :
    (no_vmlinux : Bool) (k : Kernel) (pc : ℕ) → IsLive k (find_kernel_image no_vmlinux k pc)
unfolding find_kernel_image
find_kernel_image-IsLive true k pc = inl (omega arith)
find_kernel_image-IsLive false k pc = elim (Bool-cases (contains (k.image_at vmlinux_image) pc)) [
  | inl y ↦ rw y (inl (omega arith))
  | inr n ↦ rw n (find_module-IsLive k pc k.modules k.modules (λ p i. i))
]

-- A file found moves to the end of the list of all files.
pub found-IsSound :
    (w : Sfiles) (sf : Sfile) (h : ℕ)
    → IsSound w
    → In sf (w.hashes h)
    → IsSound (record w { lru_list = sfile_put sf (sfile_get sf w.lru_list) })
found-IsSound w sf h s m =
    let there = s.listed h sf m in
    IsSound-fewer w (record w { lru_list = sfile_put sf (sfile_get sf w.lru_list) }) s refl refl
      (λ x i. elim (In_last x sf (list_del sf.address w.lru_list) i) [
        | inl j ↦ (In-list_del x sf.address w.lru_list j).0
        | inr e ↦ subst (λ (z : Sfile). In z w.lru_list) (sym e) there
      ])
      (λ h' x i.
        let j = s.listed h' x i in
        elim (Bool-cases (x.address == sf.address)) [
          | inl y ↦
              In_end x sf (list_del sf.address w.lru_list)
                (s.unique x sf j there ((==_iff _ _).0 y))
          | inr n ↦
              In_before x sf (list_del sf.address w.lru_list)
                (list_del-In x sf.address w.lru_list j n)
        ])

-- A new file has the next address.
pub new-IsSound :
    (w w' : Sfiles) (sf : Sfile) (hash : ℕ)
    → IsSound w
    → sf.address ≡ w.next
    → IsLive w.images sf.kernel
    → ((h : ℕ) → w'.hashes h ≡ (if h == hash then sf ∷ w.hashes h else w.hashes h))
    → w'.lru_list ≡ sfile_put sf w.lru_list
    → w'.next ≡ w.next + 1
    → w'.images ≡ w.images
    → IsSound w'
unfolding In
new-IsSound w w' sf hash s address alive lists lru next images = record {
  listed = λ h x i. rw lru (elim (Bool-cases (h == hash)) [
    | inl y ↦
        let i' : (x ≡ sf) ⊎ In x (w.hashes h) = rw (lists h, y) at i in
        elim i' [
          | inl e ↦ In_end x sf w.lru_list e
          | inr j ↦ In_before x sf w.lru_list (s.listed h x j)
        ]
    | inr n ↦ In_before x sf w.lru_list (s.listed h x (rw (lists h, n) at i))
  ]);
  unique = λ x x' m m' e. elim (old_or_new x m) [
    | inl i ↦ elim (old_or_new x' m') [
      | inl i' ↦ s.unique x x' i i' e
      | inr q ↦
          let below = s.fresh x i in
          let at : x'.address ≡ w.next = ap (λ (z : Sfile). z.address) q ∙ address in
          let bad : ⊥ = omega arith in absurd bad
    ]
    | inr q ↦ elim (old_or_new x' m') [
      | inl i' ↦
          let below = s.fresh x' i' in
          let at : x.address ≡ w.next = ap (λ (z : Sfile). z.address) q ∙ address in
          let bad : ⊥ = omega arith in absurd bad
      | inr q' ↦ q ∙ sym q'
    ]
  ];
  fresh = λ x m. elim (old_or_new x m) [
    | inl i ↦ let below = s.fresh x i in omega arith
    | inr q ↦ let at : x.address ≡ w.next = ap (λ (z : Sfile). z.address) q ∙ address in omega arith
  ];
  live = λ x m. rw images (elim (old_or_new x m) [
    | inl i ↦ s.live x i
    | inr q ↦ subst (λ (z : Sfile). IsLive w.images z.kernel) (sym q) alive
  ]);
}
  where
    old_or_new : (x : Sfile) → In x w'.lru_list → In x w.lru_list ⊎ (x ≡ sf)
    old_or_new x m = In_last x sf w.lru_list (rw lru at m)
