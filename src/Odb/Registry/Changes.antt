-- ===== src/Odb/Registry/Changes.antt =====
-- What opening and closing change in the registry (libdb/db_manage.c) keeps the files shared.
use mathlib.Core.Option.{some-injective, none-ne-some}
use oprofile.Base.{
  ℕ, ◌<◌, ◌≡◌, ◌≢◌, refl, sym, ap, ◌∙◌, ◌⊎◌, true, false, inl, inr, Option, some, none, List, ◌==◌,
  arith, Bool-cases, ==_iff, ==_ne, ==_refl,
}
use oprofile.Odb.Registry.{Entry, put, list_del, remove, hash_of}
use oprofile.Odb.Registry.Shared.{count, count-remove, Shared, IsShared}

-- The two pointers that a changed memory is asked for.
pub put-cases :
    (p q : ℕ) (o : Option Entry) (heap : ℕ → Option Entry) (r : Option Entry)
    → put p o heap q ≡ r
    → ((q ≡ p) × (o ≡ r)) ⊎ ((q ≢ p) × (heap q ≡ r))
put-cases p q o heap r h = elim (Bool-cases (q == p)) [
  | inl t ↦ inl ((==_iff q p).0 t, rw t at h)
  | inr f ↦
      inr (
        λ e. let t : (q == p) ≡ true = (==_iff q p).1 e in let bad : ⊥ = cc in absurd bad,
        rw f at h,
      )
]

pub put-same : (p : ℕ) (o : Option Entry) (heap : ℕ → Option Entry) → put p o heap p ≡ o
put-same p o heap = rw (==_refl p) refl

pub put-other :
    (p q : ℕ) (o : Option Entry) (heap : ℕ → Option Entry) → q ≢ p → put p o heap q ≡ heap q
put-other p q o heap ne = rw (==_ne q p ne) refl

-- The count of a live file set to that of the holders.
abbrev recounted : Entry → ℕ → Entry
recounted e n = record e { ref_count = n }

abbrev pub recount : Shared → ℕ → Entry → List ℕ → Shared
recount s p e holders = record {
  registry = record (s.registry) {
    heap = put p (some (recounted e (count p holders))) s.registry.heap;
  };
  holders = holders;
}

-- A file taken off its list, and its memory freed.
abbrev pub dropped : Shared → ℕ → List ℕ → Shared
dropped s p holders = record {
  registry = record (s.registry) {
    files_hash = list_del p s.registry.files_hash;
    heap = put p none s.registry.heap;
  };
  holders = holders;
}

-- A live file's count is set to that of its holders.
module _ (s : Shared) (ok : IsShared s) (p : ℕ) (e : Entry) (at : s.registry.heap p ≡ some e)
    (holders : List ℕ) (others : (q : ℕ) → q ≢ p → count q holders ≡ count q s.holders)
    (pos : 0 < count p holders) where
  recount-heap :
      (q : ℕ) (e₀ : Entry)
      → s.registry.heap q ≡ some e₀
      → (e' : Entry) × ((recount s p e holders).registry.heap q ≡ some e')
        × (e'.filename ≡ e₀.filename)
  recount-heap q e₀ h = elim (Bool-cases (q == p)) [
    | inl t ↦
        let j : q ≡ p = (==_iff q p).0 t in
        let k : e ≡ e₀ = some-injective _ _ (sym at ∙ sym (ap s.registry.heap j) ∙ h) in
        (recounted e (count p holders), rw t refl, ap (λ (x : Entry). x.filename) k)
    | inr f ↦ (e₀, rw f h, refl)
  ]

  recount-from :
      (q : ℕ) (e' : Entry)
      → (recount s p e holders).registry.heap q ≡ some e'
      → (e₀ : Entry) × (s.registry.heap q ≡ some e₀)
        × (e'.filename ≡ e₀.filename)
        × (e'.ref_count ≡ count q holders)
  recount-from q e' h = elim (put-cases p q _ s.registry.heap _ h) [
    | inl (i, j) ↦
        let k : recounted e (count p holders) ≡ e' = some-injective _ _ j in
        (
          e,
          ap s.registry.heap i ∙ at,
          sym (ap (λ (x : Entry). x.filename) k),
          sym (ap (λ (x : Entry). x.ref_count) k) ∙ sym (ap (λ (x : ℕ). count x holders) i),
        )
    | inr (ne, j) ↦ (e', j, refl, (let (_, n, _, _) = ok.live q e' j in n) ∙ sym (others q ne))
  ]

  ne_of : {q : ℕ} → (q == p) ≡ false → q ≢ p
  ne_of {q} f e = absurd (ground arith)

  still : (q : ℕ) → 0 < count q s.holders → 0 < count q holders
  still q c = elim (Bool-cases (q == p)) [
    | inl t ↦ rw ((==_iff q p).0 t) pos
    | inr f ↦ rw (others q (ne_of f)) c
  ]

  pub recount-IsShared : IsShared (recount s p e holders)
  recount-IsShared = record {
    listed = λ h q c.
        let (e₀, live, hash) = ok.listed h q c in
        let (e', live', name) = recount-heap q e₀ live in (e', live', ap hash_of name ∙ hash);
    live = λ q e' h.
        let (e₀, live, name, n) = recount-from q e' h in
        let (on, n₀, pos₀, old) = ok.live q e₀ live in (rw name on, n, still q pos₀, old);
    unique = λ q q' e₁ e₂ h₁ h₂ names.
        let (a₁, l₁, n₁, _) = recount-from q e₁ h₁ in
        let (a₂, l₂, n₂, _) = recount-from q' e₂ h₂ in
        ok.unique q q' a₁ a₂ l₁ l₂ (sym n₁ ∙ names ∙ n₂);
    held = λ q c. elim (Bool-cases (q == p)) [
      | inl t ↦ (recounted e (count p holders), rw t refl)
      | inr f ↦ let (e₀, live) = ok.held q (rw (sym (others q (ne_of f))) c) in (e₀, rw f live)
    ];
  }

-- A file whose last holder is gone is taken off its list, and its memory freed.
module _ (s : Shared) (ok : IsShared s) (p : ℕ) (holders : List ℕ)
    (others : (q : ℕ) → q ≢ p → count q holders ≡ count q s.holders)
    (gone : count p holders ≡ 0) where
  dropped-from :
      (q : ℕ) (e : Entry)
      → (dropped s p holders).registry.heap q ≡ some e
      → (q ≢ p) × (s.registry.heap q ≡ some e)
  dropped-from q e h = elim (put-cases p q none s.registry.heap _ h) [
    | inl (i, j) ↦ let bad : ⊥ = none-ne-some _ j in absurd bad
    | inr (ne, j) ↦ (ne, j)
  ]

  on_list : (q : ℕ) (l : List ℕ) → 0 < count q (remove p l) → (q ≢ p) × (0 < count q l)
  on_list q l c = elim (Bool-cases (q == p)) [
    | inl t ↦ absurd (ground (arith, count-remove p q l))
    | inr f ↦ (λ e. absurd (ground arith), ground (arith, count-remove p q l))
  ]

  pub dropped-IsShared : IsShared (dropped s p holders)
  dropped-IsShared = record {
    listed = λ h q c.
        let (ne, c') = on_list q _ c in
        let (e, live, hash) = ok.listed h q c' in
        (e, put-other p q none s.registry.heap ne ∙ live, hash);
    live = λ q e h.
        let (ne, live) = dropped-from q e h in
        let (on, n, pos, old) = ok.live q e live in
        (
          rw (count-remove p q (s.registry.files_hash (hash_of e.filename)), ==_ne q p ne) on,
          rw (others q ne) n,
          rw (others q ne) pos,
          old,
        );
    unique = λ q q' e₁ e₂ h₁ h₂ names.
        let (_, l₁) = dropped-from q e₁ h₁ in
        let (_, l₂) = dropped-from q' e₂ h₂ in ok.unique q q' e₁ e₂ l₁ l₂ names;
    held = λ q c.
        let ne : q ≢ p = λ i.
          let z : count q holders ≡ 0 = ap (λ (x : ℕ). count x holders) i ∙ gone in
          absurd (omega arith) in
        let (e, live) = ok.held q (rw (sym (others q ne)) c) in
        (e, put-other p q none s.registry.heap ne ∙ live);
  }
