-- ===== src/Sfile/Members.antt =====
-- The files on a list (daemon/opd_sfile.c).
use mathlib.Core.Option.{some-injective}
use oprofile.Base.{
  ℕ, ◌≡◌, ◌⊎◌, sym, ap, ◌∙◌, true, false, inl, inr, Option, some, List, [], ◌∷◌, ◌++◌, ◌==◌,
  Bool-cases,
}
use oprofile.Sfile.{Separate, Sfile, Transient, find_match, trans_match}
use oprofile.Sfile.Find.{list_del}

unfoldable pub In : Sfile → List Sfile → Type 0
In sf [] = ⊥
In sf (x ∷ sfs) = (sf ≡ x) ⊎ In sf sfs

pub In-list_del :
    (sf : Sfile) (p : ℕ) (sfs : List Sfile)
    → In sf (list_del p sfs)
    → In sf sfs × ((sf.address == p) ≡ false)
unfolding In list_del
In-list_del sf p [] m = absurd m
In-list_del sf p (x ∷ sfs) m = elim (Bool-cases (x.address == p)) [
  | inl y ↦ let (i, n) = In-list_del sf p sfs (rw (list_del, y) at m) in (inr i, n)
  | inr n ↦
      let m' : (sf ≡ x) ⊎ In sf (list_del p sfs) = rw (list_del, n) at m in
      elim m' [
        | inl e ↦ (inl e, ap (λ (z : Sfile). z.address == p) e ∙ n)
        | inr i ↦ let (j, k) = In-list_del sf p sfs i in (inr j, k)
      ]
]

pub list_del-In :
    (sf : Sfile) (p : ℕ) (sfs : List Sfile)
    → In sf sfs
    → (sf.address == p) ≡ false
    → In sf (list_del p sfs)
unfolding In list_del
list_del-In sf p [] m n = absurd m
list_del-In sf p (x ∷ sfs) m n = elim (Bool-cases (x.address == p)) [
  | inl y ↦ elim m [
    | inl e ↦
        let q : false ≡ true = sym n ∙ ap (λ (z : Sfile). z.address == p) e ∙ y in
        let bad : ⊥ = cc in absurd bad
    | inr i ↦ rw (list_del, y) (list_del-In sf p sfs i n)
  ]
  | inr k ↦ elim m [
    | inl e ↦ rw (list_del, k) (inl e)
    | inr i ↦ rw (list_del, k) (inr (list_del-In sf p sfs i n))
  ]
]

pub In_last : (sf x : Sfile) (sfs : List Sfile) → In sf (sfs ++ (x ∷ [])) → In sf sfs ⊎ (sf ≡ x)
unfolding In
In_last sf x [] m = elim m [ inl e ↦ inr e | inr i ↦ absurd i ]
In_last sf x (y ∷ sfs) m = elim m [
  | inl e ↦ inl (inl e)
  | inr i ↦ elim (In_last sf x sfs i) [ inl j ↦ inl (inr j) | inr e ↦ inr e ]
]

pub In_before : (sf x : Sfile) (sfs : List Sfile) → In sf sfs → In sf (sfs ++ (x ∷ []))
unfolding In
In_before sf x [] m = absurd m
In_before sf x (y ∷ sfs) m = elim m [ inl e ↦ inl e | inr i ↦ inr (In_before sf x sfs i) ]

pub In_end : (sf x : Sfile) (sfs : List Sfile) → sf ≡ x → In sf (sfs ++ (x ∷ []))
unfolding In
In_end sf x [] e = inl e
In_end sf x (y ∷ sfs) e = inr (In_end sf x sfs e)

pub find_match-In :
    (separate : Separate) (t : Transient) (ki : Option ℕ) (sfs : List Sfile) (sf : Sfile)
    → find_match separate t ki sfs ≡ some sf
    → In sf sfs
unfolding In find_match
find_match-In separate t ki [] sf h = let bad : ⊥ = cc in absurd bad
find_match-In separate t ki (x ∷ sfs) sf h = elim (Bool-cases (trans_match separate t x ki)) [
  | inl y ↦ let q : some x ≡ some sf = rw y at h in inl (sym (some-injective _ _ q))
  | inr n ↦ inr (find_match-In separate t ki sfs sf (rw n at h))
]
