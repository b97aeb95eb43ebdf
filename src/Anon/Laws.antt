-- ===== src/Anon/Laws.antt =====
-- Mappings on lists (daemon/opd_anon.c).
use mathlib.Core.Option.{some-injective}
use oprofile.Anon.{AnonEntry, unlink, find_on_list, mapping_at, anon_match}
use oprofile.Sfile.{Transient}
use oprofile.Base.{
  ℕ, suc, ◌≡◌, ◌⊎◌, refl, sym, ap, ◌∙◌, inl, inr, true, false, Bool-cases, some, none, List, [],
  ◌∷◌, ◌++◌, length, ◌==◌, ==_iff, ==_refl,
}

unfoldable pub In : AnonEntry → List AnonEntry → Type 0
In e [] = ⊥
In e (x ∷ es) = (e ≡ x) ⊎ In e es

-- No address stands twice.
unfoldable pub IsDistinct : List AnonEntry → Type 0
IsDistinct [] = Unit
IsDistinct (x ∷ es) = ((e : AnonEntry) → In e es → (e.address == x.address) ≡ false) × IsDistinct es

pub In-unlink :
    (e : AnonEntry) (p : ℕ) (es : List AnonEntry)
    → In e (unlink p es)
    → In e es × ((e.address == p) ≡ false)
unfolding In unlink
In-unlink e p [] m = absurd m
In-unlink e p (x ∷ es) m = elim (Bool-cases (x.address == p)) [
  | inl y ↦ let (i, n) = In-unlink e p es (rw (unlink, y) at m) in (inr i, n)
  | inr n ↦
      let m' : (e ≡ x) ⊎ In e (unlink p es) = rw (unlink, n) at m in
      elim m' [
        | inl q ↦ (inl q, ap (λ (z : AnonEntry). z.address == p) q ∙ n)
        | inr i ↦ let (j, k) = In-unlink e p es i in (inr j, k)
      ]
]

pub unlink-In :
    (e : AnonEntry) (p : ℕ) (es : List AnonEntry)
    → In e es
    → (e.address == p) ≡ false
    → In e (unlink p es)
unfolding In unlink
unlink-In e p [] m n = absurd m
unlink-In e p (x ∷ es) m n = elim (Bool-cases (x.address == p)) [
  | inl y ↦ elim m [
    | inl q ↦
        let c : false ≡ true = sym n ∙ ap (λ (z : AnonEntry). z.address == p) q ∙ y in
        let bad : ⊥ = cc in absurd bad
    | inr i ↦ rw (unlink, y) (unlink-In e p es i n)
  ]
  | inr k ↦ elim m [
    | inl q ↦ rw (unlink, k) (inl q)
    | inr i ↦ rw (unlink, k) (inr (unlink-In e p es i n))
  ]
]

-- Nothing is taken when nothing is at the address.
pub unlink-absent :
    (p : ℕ) (es : List AnonEntry)
    → ((e : AnonEntry) → In e es → (e.address == p) ≡ false)
    → unlink p es ≡ es
unfolding In unlink
unlink-absent p [] h = refl
unlink-absent p (x ∷ es) h =
    rw (unlink, h x (inl refl)) (ap (◌∷◌ x) (unlink-absent p es (λ e i. h e (inr i))))

-- The head of a list goes alone.
pub unlink-head :
    (x : AnonEntry) (es : List AnonEntry) → IsDistinct (x ∷ es) → unlink x.address (x ∷ es) ≡ es
unfolding unlink IsDistinct
unlink-head x es (h, d) = rw (unlink, ==_refl x.address) (unlink-absent x.address es h)

pub unlink-IsDistinct : (p : ℕ) (es : List AnonEntry) → IsDistinct es → IsDistinct (unlink p es)
unfolding IsDistinct unlink
unlink-IsDistinct p [] d = d
unlink-IsDistinct p (x ∷ es) (h, d) = elim (Bool-cases (x.address == p)) [
  | inl y ↦ rw (unlink, y) (unlink-IsDistinct p es d)
  | inr n ↦ rw (unlink, n) (λ e m. h e (In-unlink e p es m).0, unlink-IsDistinct p es d)
]

pub length-unlink :
    (e : AnonEntry) (es : List AnonEntry)
    → IsDistinct es
    → In e es
    → suc (length (unlink e.address es)) ≡ length es
unfolding In IsDistinct unlink
length-unlink e [] d m = absurd m
length-unlink e (x ∷ es) (h, d) m = elim (Bool-cases (x.address == e.address)) [
  | inl y ↦
      let same = (==_iff x.address e.address).0 y in
      let gone : unlink e.address es ≡ es =
        ap (λ p. unlink p es) (sym same) ∙ unlink-absent x.address es h in
      rw (unlink, y) (ap (λ l. suc (length l)) gone)
  | inr n ↦ elim m [
    | inl q ↦
        let c : true ≡ false =
          sym (==_refl x.address) ∙ ap (λ (z : AnonEntry). x.address == z.address) (sym q) ∙ n in
        let bad : ⊥ = cc in absurd bad
    | inr i ↦ rw (unlink, n) (ap suc (length-unlink e es d i))
  ]
]

pub In_last : (e x : AnonEntry) (es : List AnonEntry) → In e (es ++ (x ∷ [])) → In e es ⊎ (e ≡ x)
unfolding In
In_last e x [] m = elim m [ inl q ↦ inr q | inr i ↦ absurd i ]
In_last e x (y ∷ es) m = elim m [
  | inl q ↦ inl (inl q)
  | inr i ↦ elim (In_last e x es i) [ inl j ↦ inl (inr j) | inr q ↦ inr q ]
]

pub In_before : (e x : AnonEntry) (es : List AnonEntry) → In e es → In e (es ++ (x ∷ []))
unfolding In
In_before e x [] m = absurd m
In_before e x (y ∷ es) m = elim m [ inl q ↦ inl q | inr i ↦ inr (In_before e x es i) ]

pub In_end : (x : AnonEntry) (es : List AnonEntry) → In x (es ++ (x ∷ []))
unfolding In
In_end x [] = inl refl
In_end x (y ∷ es) = inr (In_end x es)

pub append-IsDistinct :
    (x : AnonEntry) (es : List AnonEntry)
    → ((e : AnonEntry) → In e es → (x.address == e.address) ≡ false)
    → IsDistinct es
    → IsDistinct (es ++ (x ∷ []))
unfolding IsDistinct In
append-IsDistinct x [] h d = (λ e m. absurd m, tt)
append-IsDistinct x (y ∷ es) h (g, d) = (
  λ e m. elim (In_last e x es m) [
    | inl i ↦ g e i
    | inr q ↦ ap (λ (z : AnonEntry). z.address == y.address) q ∙ h y (inl refl)
  ],
  append-IsDistinct x es (λ e i. h e (inr i)) d,
)

pub find_on_list-In :
    (t : Transient) (es : List AnonEntry) (e : AnonEntry)
    → find_on_list t es ≡ some e
    → In e es × (anon_match t e ≡ true)
unfolding find_on_list In
find_on_list-In t [] e h = let bad : ⊥ = cc in absurd bad
find_on_list-In t (x ∷ es) e h = elim (Bool-cases (anon_match t x)) [
  | inl y ↦
      let q : some x ≡ some e = rw y at h in
      let same = some-injective _ _ q in (inl (sym same), ap (anon_match t) (sym same) ∙ y)
  | inr n ↦ let (i, m) = find_on_list-In t es e (rw n at h) in (inr i, m)
]

pub find_on_list-none :
    (t : Transient) (es : List AnonEntry)
    → find_on_list t es ≡ none
    → (e : AnonEntry) → In e es
    → anon_match t e ≡ false
unfolding find_on_list In
find_on_list-none t [] h e m = absurd m
find_on_list-none t (x ∷ es) h e m = elim (Bool-cases (anon_match t x)) [
  | inl y ↦ let q : some x ≡ none = rw y at h in let bad : ⊥ = cc in absurd bad
  | inr n ↦ elim m [
    | inl q ↦ ap (anon_match t) q ∙ n
    | inr i ↦ find_on_list-none t es (rw n at h) e i
  ]
]

pub mapping_at-In :
    (p : ℕ) (es : List AnonEntry) (e : AnonEntry)
    → In e es
    → e.address ≡ p
    → (x : AnonEntry) × (mapping_at p es ≡ some x) × In x es × (x.address ≡ p)
unfolding mapping_at In
mapping_at-In p [] e m q = absurd m
mapping_at-In p (y ∷ es) e m q = elim (Bool-cases (y.address == p)) [
  | inl h ↦ (y, rw h refl, inl refl, (==_iff y.address p).0 h)
  | inr n ↦ elim m [
    | inl same ↦
        let c : true ≡ false =
          sym (==_refl p) ∙ ap (λ k. k == p) (sym q ∙ ap (λ (z : AnonEntry). z.address) same) ∙ n in
        let bad : ⊥ = cc in absurd bad
    | inr i ↦ let (x, f, j, a) = mapping_at-In p es e i q in (x, rw n f, inr j, a)
  ]
]

-- On a list without an address twice, a mapping is determined by its address.
pub unique :
    (es : List AnonEntry) (x e : AnonEntry)
    → IsDistinct es
    → In x es
    → In e es
    → (x.address == e.address) ≡ true
    → x ≡ e
unfolding In IsDistinct
unique [] x e d i j q = absurd i
unique (y ∷ es) x e (h, d) i j q = elim i [
  | inl s ↦ elim j [
    | inl t ↦ s ∙ sym t
    | inr j' ↦
        let same : e.address ≡ y.address =
          sym ((==_iff _ _).0 q) ∙ ap (λ (z : AnonEntry). z.address) s in
        let c : true ≡ false =
          sym (==_refl y.address) ∙ ap (λ k. k == y.address) (sym same) ∙ h e j' in
        let bad : ⊥ = cc in absurd bad
  ]
  | inr i' ↦ elim j [
    | inl t ↦
        let same : x.address ≡ y.address = (==_iff _ _).0 q ∙ ap (λ (z : AnonEntry). z.address) t in
        let c : true ≡ false =
          sym (==_refl y.address) ∙ ap (λ k. k == y.address) (sym same) ∙ h x i' in
        let bad : ⊥ = cc in absurd bad
    | inr j' ↦ unique es x e d i' j' q
  ]
]
