-- ===== src/Odb/Registry/Added.antt =====
-- A file that is opened first (libdb/db_manage.c) keeps the files shared.
use mathlib.Core.Option.{some-injective}
use oprofile.Base.{
  ℕ, ◌+◌, ◌<◌, ◌≡◌, ◌≢◌, refl, sym, ap, subst, ◌∙◌, ◌⊎◌, true, inl, inr, some, List, ◌∷◌, ◌==◌,
  arith, Bool-cases, ==_iff, ==_ne, ==_refl,
}
use oprofile.Odb.{OdbData}
use oprofile.Odb.Registry.{Entry, put, list_add, hash_of, register}
use oprofile.Odb.Registry.Shared.{count, Shared, IsShared}
use oprofile.Odb.Registry.Changes.{put-cases, put-same, put-other}

-- A file of a new name, mapped at a new address.
module _ (s : Shared) (ok : IsShared s) (name : List ℕ) (d : OdbData)
    (new_name : (q : ℕ) (e : Entry) → s.registry.heap q ≡ some e → e.filename ≢ name) where
  abbrev at : ℕ
  at = s.registry.next

  abbrev entry : Entry
  entry = record { filename = name; ref_count = 1; database = d }

  abbrev pub registered : Shared
  registered = record { registry = register name d s.registry; holders = at ∷ s.holders }

  old-ne : (q : ℕ) (e : Entry) → s.registry.heap q ≡ some e → q ≢ at
  old-ne q e h i = let (_, _, _, old) = ok.live q e h in absurd (omega arith)

  unheld : count at s.holders ≡ 0
  unheld = elim (Bool-cases (count at s.holders == 0)) [
    | inl t ↦ ground arith
    | inr f ↦ let (e, h) = ok.held at (ground arith) in absurd (old-ne at e h refl)
  ]

  registered-from :
      (q : ℕ) (e : Entry)
      → put at (some entry) s.registry.heap q ≡ some e
      → ((q ≡ at) × (entry ≡ e)) ⊎ ((q ≢ at) × (s.registry.heap q ≡ some e))
  registered-from q e h = elim (put-cases at q _ s.registry.heap _ h) [
    | inl (i, j) ↦ inl (i, some-injective _ _ j)
    | inr r ↦ inr r
  ]

  on_added :
      (h q : ℕ)
      → 0 < count q (s.registry.files_hash h)
      → 0 < count q (list_add at (hash_of name) s.registry.files_hash h)
  unfolding count
  on_added h q c = elim (Bool-cases (h == hash_of name)) [
    | inl t ↦ rw t (omega arith)
    | inr f ↦ rw f c
  ]

  new_on_list : 0 < count at (list_add at (hash_of name) s.registry.files_hash (hash_of name))
  unfolding count
  new_on_list = rw (==_refl (hash_of name), ==_refl at) (omega arith)

  from_added :
      (h q : ℕ)
      → 0 < count q (list_add at (hash_of name) s.registry.files_hash h)
      → ((q ≡ at) × (h ≡ hash_of name)) ⊎ (0 < count q (s.registry.files_hash h))
  unfolding count
  from_added h q c = elim (Bool-cases (h == hash_of name)) [
    | inl t ↦ elim (Bool-cases (at == q)) [
      | inl t' ↦ inl (sym ((==_iff at q).0 t'), (==_iff h (hash_of name)).0 t)
      | inr f' ↦
          let c' : 0 < count q (s.registry.files_hash h) + 0 = rw (t, f') at c in inr (omega arith)
    ]
    | inr f ↦ inr (rw f at c)
  ]

  pub registered-IsShared : IsShared registered
  unfolding register count
  registered-IsShared = record {
    listed = λ h q c. elim (from_added h q c) [
      | inl (i, j) ↦ (
        entry,
        ap (put at (some entry) s.registry.heap) i ∙ put-same at (some entry) s.registry.heap,
        sym j,
      )
      | inr c' ↦
          let (e, live, hash) = ok.listed h q c' in
          (e, put-other at q (some entry) s.registry.heap (old-ne q e live) ∙ live, hash)
    ];
    live = λ q e h. elim (registered-from q e h) [
      | inl (i, j) ↦
          let z : count q s.holders ≡ 0 = ap (λ (x : ℕ). count x s.holders) i ∙ unheld in
          let one : 1 ≡ e.ref_count = ap (λ (x : Entry). x.ref_count) j in
          let t : (at == q) ≡ true = (==_iff at q).1 (sym i) in
          (
            subst
                (λ (x : Entry).
                  0
                  < count q (list_add at (hash_of name) s.registry.files_hash (hash_of x.filename)))
                j (rw i new_on_list),
            rw t (omega arith),
            rw t (omega arith),
            omega arith,
          )
      | inr (ne, l) ↦
          let (on, n, pos, old) = ok.live q e l in
          (
            on_added _ q on,
            rw (==_ne at q (λ i. ne (sym i))) (omega arith),
            omega arith,
            omega arith,
          )
    ];
    unique = λ q q' e₁ e₂ h₁ h₂ names. elim (registered-from q e₁ h₁) [
      | inl (i, j) ↦ elim (registered-from q' e₂ h₂) [
        | inl (i', j') ↦ i ∙ sym i'
        | inr (_, l) ↦
            absurd (new_name q' e₂ l (sym names ∙ sym (ap (λ (x : Entry). x.filename) j)))
      ]
      | inr (_, l) ↦ elim (registered-from q' e₂ h₂) [
        | inl (i', j') ↦ absurd (new_name q e₁ l (names ∙ sym (ap (λ (x : Entry). x.filename) j')))
        | inr (_, l') ↦ ok.unique q q' e₁ e₂ l l' names
      ]
    ];
    held = λ q c. elim (Bool-cases (at == q)) [
      | inl t ↦ (
        entry,
        ap (put at (some entry) s.registry.heap) (sym ((==_iff at q).0 t))
            ∙ put-same at (some entry) s.registry.heap,
      )
      | inr f ↦
          let (e, live) = ok.held q (ground (arith, c)) in
          (e, put-other at q (some entry) s.registry.heap (old-ne q e live) ∙ live)
    ];
  }
