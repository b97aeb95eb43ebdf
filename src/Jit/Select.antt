-- ===== src/Jit/Select.antt =====
-- `select_one` of opjitconv/jitsymbol.c, and what it is to live longest.
use mathlib.Core.Option.{some-injective}
use oprofile.Base.{
  ℕ, zero, suc, ◌+◌, ◌≤◌, ◌≡◌, ◌⊎◌, refl, ap, ◌∙◌, subst, inl, inr, some, List, [], ◌∷◌, get_elem?,
  ltb, arith, Bool-cases,
}
use oprofile.Jit.{JitEntry, lifetime, select_from, select_one}

-- No entry lives longer.
AllWithin : ℕ → List JitEntry → Type 0
AllWithin best entries = (j : ℕ) (e : JitEntry) → get_elem? entries j ≡ some e → lifetime e ≤ best

within_cons :
    (best : ℕ) (e : JitEntry) (entries : List JitEntry)
    → lifetime e ≤ best
    → AllWithin best entries
    → AllWithin best (e ∷ entries)
unfolding AllWithin
within_cons best e entries le all zero e' h =
    let i : e ≡ e' = some-injective _ _ h in subst (λ (y : JitEntry). lifetime y ≤ best) i le
within_cons best e entries le all (suc j) e' h = all j e' h

-- The candidate stays, or an entry of the list that lives longer takes its place.
record Selects (entries : List JitEntry) (i best result : ℕ) : Type 0 where
  place : ℕ
  entry : JitEntry
  found : get_elem? entries place ≡ some entry
  result_lem : result ≡ i + place
  longer : best ≤ lifetime entry
  all : AllWithin (lifetime entry) entries

select_from-Selects :
    (entries : List JitEntry) (i candidate best : ℕ)
    → ((select_from entries i candidate best ≡ candidate) × AllWithin best entries)
      ⊎ Selects entries i best (select_from entries i candidate best)
unfolding select_from AllWithin
select_from-Selects [] i candidate best = inl (refl, λ j e h. let bad : ⊥ = cc in absurd bad)
select_from-Selects (e ∷ entries) i candidate best = elim (Bool-cases (ltb best (lifetime e))) [
  | inl t ↦ rw t (elim (select_from-Selects entries (i + 1) i (lifetime e)) [
    | inl (q, all) ↦ inr (record {
      place = 0;
      entry = e;
      found = refl;
      result_lem = omega (arith, q);
      longer = ground arith;
      all = within_cons (lifetime e) e entries (omega arith) all;
    })
    | inr s ↦ inr (record {
      place = suc s.place;
      entry = s.entry;
      found = s.found;
      result_lem = omega (arith, s.result_lem);
      longer = ground (arith, s.longer);
      all = within_cons (lifetime s.entry) e entries s.longer s.all;
    })
  ])
  | inr f ↦ rw f (elim (select_from-Selects entries (i + 1) candidate best) [
    | inl (q, all) ↦ inl (q, within_cons best e entries (ground arith) all)
    | inr s ↦ inr (record {
      place = suc s.place;
      entry = s.entry;
      found = s.found;
      result_lem = omega (arith, s.result_lem);
      longer = s.longer;
      all = within_cons (lifetime s.entry) e entries (ground (arith, s.longer)) s.all;
    })
  ])
]

-- The index that select_one returns is that of an entry of the region, and no entry of the region
-- lives longer.
select_one-longest :
    (e : JitEntry) (entries : List JitEntry)
    → (keep : JitEntry) × (get_elem? (e ∷ entries) (select_one e entries) ≡ some keep)
      × ((j : ℕ) (e' : JitEntry)
          → get_elem? (e ∷ entries) j ≡ some e'
          → lifetime e' ≤ lifetime keep)
unfolding select_one AllWithin
select_one-longest e entries = elim (select_from-Selects entries 1 0 (lifetime e)) [
  | inl (q, all) ↦
      (e, ap (get_elem? (e ∷ entries)) q, within_cons (lifetime e) e entries (omega arith) all)
  | inr s ↦
      let q : select_from entries 1 0 (lifetime e) ≡ suc s.place = omega (arith, s.result_lem) in
      (
        s.entry,
        ap (get_elem? (e ∷ entries)) q ∙ s.found,
        within_cons (lifetime s.entry) e entries s.longer s.all,
      )
]
