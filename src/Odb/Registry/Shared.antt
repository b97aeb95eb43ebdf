-- ===== src/Odb/Registry/Shared.antt =====
-- The files that are open, by name and by their holders (libdb/db_manage.c), and the walk of
-- `find_samples_data`.
use mathlib.Core.Option.{some-injective}
use oprofile.Base.{
  ℕ, zero, suc, ◌+◌, ◌≤◌, ◌<◌, ◌≡◌, ◌≢◌, ◌↔◌, refl, sym, ap, subst, ◌∙◌, Bool, true, false, inl,
  inr, Option, some, List, [], ◌∷◌, length, get_elem?, ◌==◌, if◌then◌else◌, arith, Bool-cases,
  ==_refl,
}
use oprofile.Odb.Registry.{
  Entry, Registry, Lookup, hit, miss, freed, remove, hash_of, find_samples_data,
}

-- How often a pointer stands in a list.
unfoldable pub count : ℕ → List ℕ → ℕ
count p [] = 0
count p (q ∷ qs) = count p qs + (if q == p then 1 else 0)

-- The list without the place `i`.
unfoldable pub drop_at : ℕ → List ℕ → List ℕ
drop_at i [] = []
drop_at zero (q ∷ qs) = qs
drop_at (suc i) (q ∷ qs) = q ∷ drop_at i qs

-- The registry, with the pointers that clients hold.
pub record Shared : Type 0 where
  pub registry : Registry
  pub holders : List ℕ

-- Every file on a list is live and on the list of its name, once; its count is that of its holders;
-- no two live files have one name; and what is held is live.
pub record IsShared (s : Shared) : Type 0 where
  pub listed :
      (h p : ℕ)
      → 0 < count p (s.registry.files_hash h)
      → (e : Entry) × (s.registry.heap p ≡ some e) × (hash_of e.filename ≡ h)
  pub live :
      (p : ℕ) (e : Entry)
      → s.registry.heap p ≡ some e
      → (0 < count p (s.registry.files_hash (hash_of e.filename)))
        × (e.ref_count ≡ count p s.holders)
        × (0 < count p s.holders)
        × (p < s.registry.next)
  pub unique :
      (p q : ℕ) (e e' : Entry)
      → s.registry.heap p ≡ some e
      → s.registry.heap q ≡ some e'
      → e.filename ≡ e'.filename
      → p ≡ q
  pub held : (p : ℕ) → 0 < count p s.holders → (e : Entry) × (s.registry.heap p ≡ some e)

pub length-drop_at : (i : ℕ) (l : List ℕ) → length (drop_at i l) ≤ length l
unfolding drop_at
length-drop_at i [] = omega arith
length-drop_at zero (q ∷ qs) = omega arith
length-drop_at (suc i) (q ∷ qs) = omega (arith, length-drop_at i qs)

pub count-length : (p : ℕ) (l : List ℕ) → count p l ≤ length l
unfolding count
count-length p [] = omega arith
count-length p (q ∷ qs) = ground (arith, count-length p qs)

-- `list_del` takes away the pointer and no other.
pub count-remove : (p q : ℕ) (l : List ℕ) → count q (remove p l) ≡ (if q == p then 0 else count q l)
unfolding count remove
count-remove p q [] = ground arith
count-remove p q (x ∷ l) = ground (arith, count-remove p q l)

pub count-drop_at :
    (i p q : ℕ) (l : List ℕ)
    → get_elem? l i ≡ some p
    → count q (drop_at i l) + (if p == q then 1 else 0) ≡ count q l
unfolding count drop_at
count-drop_at i p q [] e = let bad : ⊥ = cc in absurd bad
count-drop_at zero p q (x ∷ l) e = let e' : x ≡ p = some-injective _ _ e in rw e' refl
count-drop_at (suc i) p q (x ∷ l) e = ground (arith, count-drop_at i p q l e)

-- What a walk meets on a list of live files.
module _ (same : List ℕ → List ℕ → Bool) (same_iff : (a b : List ℕ) → (same a b ≡ true) ↔ (a ≡ b))
    (heap : ℕ → Option Entry) (name : List ℕ) where
  abbrev pub Meets : List ℕ → Lookup → Type 0
  Meets l (hit p) = (0 < count p l) × (e : Entry) × (heap p ≡ some e) × (e.filename ≡ name)
  Meets l miss = (p : ℕ) (e : Entry) → 0 < count p l → heap p ≡ some e → e.filename ≢ name
  Meets l freed = ⊥

  here : (x : ℕ) (l : List ℕ) → 0 < count x (x ∷ l)
  unfolding count
  here x l = rw (==_refl x) (omega arith)

  later : (x p : ℕ) (l : List ℕ) → 0 < count p l → 0 < count p (x ∷ l)
  unfolding count
  later x p l c = omega arith

  first_or_later : (x p : ℕ) (l : List ℕ) → 0 < count p (x ∷ l) → x ≢ p → 0 < count p l
  unfolding count
  first_or_later x p l c ne = ground (arith, c)

  differs : {a : List ℕ} → same a name ≡ false → a ≢ name
  differs {a} f e =
      let t : same a name ≡ true = (same_iff a name).1 e in let bad : ⊥ = cc in absurd bad

  -- A file of another name in front changes nothing.
  behind :
      (x : ℕ) (l : List ℕ) (e : Entry)
      → heap x ≡ some e
      → e.filename ≢ name
      → (r : Lookup) → Meets l r
      → Meets (x ∷ l) r
  behind x l e he ne (hit p) (c, e', h', n) = (later x p l c, e', h', n)
  behind x l e he ne miss m = λ p e' c h'. elim (Bool-cases (x == p)) [
    | inl t ↦
        let i : x ≡ p = ground arith in
        let j : e ≡ e' = some-injective _ _ (sym he ∙ ap heap i ∙ h') in
        λ y. ne (ap (λ (k : Entry). k.filename) j ∙ y)
    | inr f ↦ m p e' (first_or_later x p l c (ground arith)) h'
  ]
  behind x l e he ne freed m = m

  find_step :
      (x : ℕ) (l : List ℕ) (e : Entry)
      → heap x ≡ some e
      → find_samples_data same heap name (x ∷ l)
        ≡ (if same e.filename name then hit x else find_samples_data same heap name l)
  unfolding find_samples_data
  find_step x l e he = rw (find_samples_data, he) refl

  pub find-Meets :
      (l : List ℕ)
      → ((p : ℕ) → 0 < count p l → (e : Entry) × (heap p ≡ some e))
      → Meets l (find_samples_data same heap name l)
  unfolding find_samples_data count
  find-Meets [] h = λ p e c. absurd (omega arith)
  find-Meets (x ∷ l) h =
      let (e, he) = h x (here x l) in
      subst (Meets (x ∷ l)) (sym (find_step x l e he)) (elim (Bool-cases (same e.filename name)) [
        | inl t ↦ rw t (here x l, e, he, (same_iff e.filename name).0 t)
        | inr f ↦ rw f (behind x l e he (differs f) _ (find-Meets l (λ p c. h p (later x p l c))))
      ])
