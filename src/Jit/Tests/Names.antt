-- ===== src/Jit/Tests/Names.antt =====
-- Entries of equal names, renamed.
use oprofile.Base.{
  ℕ, ◌+◌, ◌≡◌, refl, sym, ap, subst, ◌∙◌, inl, inr, true, false, Bool-cases, Option, some, none,
  List, [], ◌∷◌, map, if◌then◌else◌, arith,
}
use oprofile.Base.Digits.{decimal}
use oprofile.Jit.{JitEntry}
use oprofile.Jit.Entries.{sum}
use oprofile.Jit.Names.{
  same_name, replacement_name, rename_from, rename_all, disambiguate_symbol_names,
}
use oprofile.Jit.Distinct.{In, Grouped, same_name_eq, same_name_refl}
use oprofile.Jit.Disambiguate.{Disambiguated, SortsByName, disambiguate_symbol_names-Disambiguated}

abbrev named_at : List ℕ → ℕ → JitEntry
named_at name vma = record {
  vma = vma;
  code_size = 1;
  symbol_name = name;
  life_start = 1;
  life_end = 9;
}

-- An order of entries in which those of one name stand together.
insert : JitEntry → List JitEntry → List JitEntry
insert e [] = e ∷ []
insert e (b ∷ entries) =
    let rest = insert e entries in
    if same_name b.symbol_name e.symbol_name then e ∷ b ∷ entries else b ∷ rest

sort : List JitEntry → List JitEntry
unfolding insert
sort [] = []
sort (e ∷ entries) = insert e (sort entries)

sum-insert :
    (f : JitEntry → ℕ) (e : JitEntry) (entries : List JitEntry)
    → sum f (insert e entries) ≡ f e + sum f entries
unfolding insert sum
sum-insert f e [] = refl
sum-insert f e (b ∷ entries) = elim (Bool-cases (same_name b.symbol_name e.symbol_name)) [
  | inl s ↦ rw (insert, s) refl
  | inr n ↦ rw (insert, n) (omega (arith, sum-insert f e entries))
]

sum-sort : (f : JitEntry → ℕ) (entries : List JitEntry) → sum f (sort entries) ≡ sum f entries
unfolding sort sum
sum-sort f [] = refl
sum-sort f (e ∷ entries) = sum-insert f e (sort entries) ∙ ap (λ n. f e + n) (sum-sort f entries)

insert_same :
    (e b : JitEntry) (entries : List JitEntry)
    → same_name b.symbol_name e.symbol_name ≡ true
    → insert e (b ∷ entries) ≡ e ∷ b ∷ entries
unfolding insert
insert_same e b entries s = rw (insert, s) refl

insert_next :
    (e b : JitEntry) (entries : List JitEntry)
    → same_name b.symbol_name e.symbol_name ≡ false
    → insert e (b ∷ entries) ≡ b ∷ insert e entries
unfolding insert
insert_next e b entries n = rw (insert, n) refl

In-insert :
    (x : List ℕ) (e : JitEntry) (entries : List JitEntry)
    → In x (insert e entries)
    → In x (e ∷ entries)
unfolding In insert
In-insert x e [] i = i
In-insert x e (b ∷ entries) i = elim (Bool-cases (same_name b.symbol_name e.symbol_name)) [
  | inl s ↦ subst (In x) (insert_same e b entries s) i
  | inr n ↦ elim (subst (In x) (insert_next e b entries n) i) [
    | inl q ↦ inr (inl q)
    | inr j ↦ elim (In-insert x e entries j) [ inl q ↦ inl q | inr k ↦ inr (inr k) ]
  ]
]

insert-Grouped :
    (e : JitEntry) (entries : List JitEntry) → Grouped entries → Grouped (insert e entries)
unfolding In insert Grouped
insert-Grouped e [] g = tt
insert-Grouped e (b ∷ []) g = elim (Bool-cases (same_name b.symbol_name e.symbol_name)) [
  | inl s ↦
      subst Grouped (sym (insert_same e b [] s))
        (λ i. same_name_eq b.symbol_name e.symbol_name s, tt)
  | inr n ↦
      subst Grouped (sym (insert_next e b [] n))
        (λ i. elim i [ inl q ↦ sym q | inr j ↦ absurd j ], tt)
]
insert-Grouped e (b ∷ c ∷ entries) (h, g) =
    elim (Bool-cases (same_name b.symbol_name e.symbol_name)) [
      | inl s ↦
          subst Grouped (sym (insert_same e b (c ∷ entries) s))
            (λ i. same_name_eq b.symbol_name e.symbol_name s, (h, g))
      | inr n ↦
          let rest = insert-Grouped e (c ∷ entries) g in
          subst Grouped (sym (insert_next e b (c ∷ entries) n))
            (elim (Bool-cases (same_name c.symbol_name e.symbol_name)) [
              | inl s ↦
                  let eq = insert_same e c entries s in
                  let front : In b.symbol_name (e ∷ c ∷ entries) → e.symbol_name ≡ b.symbol_name =
                    λ i. elim i [
                      | inl q ↦ sym q
                      | inr j ↦ sym (same_name_eq c.symbol_name e.symbol_name s) ∙ h j
                    ] in
                  subst (λ l. Grouped (b ∷ l)) (sym eq) (front, subst Grouped eq rest)
              | inr m ↦
                  let eq = insert_next e c entries m in
                  let front : In b.symbol_name (c ∷ insert e entries)
                      → c.symbol_name ≡ b.symbol_name =
                    λ i. elim i [
                      | inl q ↦ sym q
                      | inr j ↦ elim (In-insert b.symbol_name e entries j) [
                        | inl q ↦
                            let z : false ≡ true =
                              sym n
                              ∙ ap (same_name b.symbol_name) (sym q)
                              ∙ same_name_refl b.symbol_name in
                            let bad : ⊥ = cc in absurd bad
                        | inr k ↦ h (inr k)
                      ]
                    ] in
                  subst (λ l. Grouped (b ∷ l)) (sym eq) (front, subst Grouped eq rest)
            ])
    ]

sort-Grouped : (entries : List JitEntry) → Grouped (sort entries)
unfolding sort Grouped
sort-Grouped [] = tt
sort-Grouped (e ∷ entries) = insert-Grouped e (sort entries) (sort-Grouped entries)

sort-SortsByName : SortsByName sort
sort-SortsByName = record { permutes = sum-sort; groups = sort-Grouped }

-- The second name that a round gives is already there.
abbrev colliding : List JitEntry
colliding =
    named_at (b'f' ∷ []) 1 ∷ named_at (b'f' ∷ b'~' ∷ b'1' ∷ []) 2 ∷ named_at (b'f' ∷ []) 3 ∷ []

names_of : Option (List JitEntry) → List (List ℕ)
names_of none = []
names_of (some entries) = map (λ (e : JitEntry). e.symbol_name) entries

colliding_run :
    names_of (disambiguate_symbol_names sort 4 (sort colliding))
    ≡ (b'f' ∷ []) ∷ (b'f' ∷ b'~' ∷ b'1' ∷ b'~' ∷ b'1' ∷ []) ∷ (b'f' ∷ b'~' ∷ b'1' ∷ []) ∷ []
unfolding names_of disambiguate_symbol_names rename_all rename_from replacement_name same_name sort
    insert decimal
colliding_run = refl

disambiguate_symbol_names-Disambiguated_example :
    (result : List JitEntry) × (disambiguate_symbol_names sort 4 (sort colliding) ≡ some result)
    × Disambiguated colliding result
disambiguate_symbol_names-Disambiguated_example =
    disambiguate_symbol_names-Disambiguated sort sort-SortsByName 4 colliding (omega arith)
