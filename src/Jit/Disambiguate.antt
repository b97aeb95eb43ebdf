-- ===== src/Jit/Disambiguate.antt =====
-- The rounds of `disambiguate_symbol_names` (opjitconv/jitsymbol.c).
use oprofile.Base.{
  ℕ, zero, suc, ◌+◌, ◌≤◌, ◌<◌, ◌≡◌, ◌↔◌, refl, sym, ap, ◌∙◌, inl, inr, Bool, true, false,
  Bool-cases, some, List, [], ◌∷◌, length, if◌then◌else◌, arith,
}
use oprofile.Jit.{JitEntry}
use oprofile.Jit.Entries.{sum}
use oprofile.Jit.Names.{same_name, with_name, rename_all, disambiguate_symbol_names}
use oprofile.Jit.Distinct.{
  same_name_eq, same_name_refl, In, Twice, Grouped, Shorter, Twice-rename_from, rename_from-Twice,
  kept-In, others-sum, renamed-Twice,
}
use oprofile.Jit.Chains.{Chain, Chain-more, Twice-In, Chain-Twice}

abbrev named : List ℕ → JitEntry → ℕ
named x e = if same_name x e.symbol_name then 1 else 0

module _ (x : List ℕ) where
  In-sum : (entries : List JitEntry) → In x entries ↔ (0 < sum (named x) entries)
  unfolding In sum
  In-sum [] = (λ i. absurd i, λ h. absurd (omega arith))
  In-sum (e ∷ entries) = elim (Bool-cases (same_name x e.symbol_name)) [
    | inl s ↦ (λ i. rw s (omega arith), λ h. inl (same_name_eq x e.symbol_name s))
    | inr n ↦
        let (there, back) = In-sum entries in
        (
          λ i. elim i [
            | inl q ↦
                let c : false ≡ true = sym n ∙ ap (same_name x) (sym q) ∙ same_name_refl x in
                let bad : ⊥ = cc in absurd bad
            | inr j ↦ let more = there j in rw n (omega (arith, more))
          ],
          λ h.
              let more : 0 < 0 + sum (named x) entries = rw n at h in
              inr (back (omega (arith, more))),
        )
  ]

  Twice-sum : (entries : List JitEntry) → Twice x entries ↔ (1 < sum (named x) entries)
  unfolding Twice sum In
  Twice-sum [] = (λ i. absurd i, λ h. absurd (omega arith))
  Twice-sum (e ∷ entries) =
      let (there, back) = Twice-sum entries in
      let (once, again) = In-sum entries in
      elim (Bool-cases (same_name x e.symbol_name)) [
        | inl s ↦ (
          λ t. elim t [
            | inl (q, i) ↦ let more = once i in rw s (omega (arith, more))
            | inr u ↦ let more = there u in rw s (omega (arith, more))
          ],
          λ h.
              let more : 1 < 1 + sum (named x) entries = rw s at h in
              inl (same_name_eq x e.symbol_name s, again (omega (arith, more))),
        )
        | inr n ↦ (
          λ t. elim t [
            | inl (q, i) ↦
                let c : false ≡ true = sym n ∙ ap (same_name x) (sym q) ∙ same_name_refl x in
                let bad : ⊥ = cc in absurd bad
            | inr u ↦ let more = there u in rw n (omega (arith, more))
          ],
          λ h.
              let more : 1 < 0 + sum (named x) entries = rw n at h in
              inr (back (omega (arith, more))),
        )
      ]

-- What a round makes of grouped entries.
record Renamed (entries entries' : List JitEntry) (rep : Bool) : Type 0 where
  shorter : (x : List ℕ) → Twice x entries' → Shorter x entries
  seen : rep ≡ true → (y : List ℕ) × Twice y entries
  unseen : (y : List ℕ) → Twice y entries → rep ≡ true
  kept : (x : List ℕ) → In x entries → In x entries'
  same :
      (f : JitEntry → ℕ)
      → ((name : List ℕ) (e : JitEntry) → f (with_name name e) ≡ f e)
      → sum f entries' ≡ sum f entries

rename_all-Renamed :
    (entries : List JitEntry)
    → Grouped entries
    → Renamed entries (rename_all entries).0 (rename_all entries).1
unfolding rename_all Twice sum
rename_all-Renamed [] g = record {
  shorter = λ x t. absurd t;
  seen = λ h. let bad : ⊥ = cc in absurd bad;
  unseen = λ y t. absurd t;
  kept = λ x i. i;
  same = λ f h. refl;
}
rename_all-Renamed (a ∷ entries) g = record {
  shorter = λ x t. renamed-Twice x a 1 entries g t;
  seen = λ h. rename_from-Twice a 1 entries h;
  unseen = λ y t. Twice-rename_from y a 1 entries g t;
  kept = λ x i. kept-In x a 1 entries i;
  same = λ f h. ap (λ n. f a + n) (others-sum f a 1 entries h);
}

-- The result: no name twice, no name lost, and nothing but names changed.
pub record Disambiguated (entries result : List JitEntry) : Type 0 where
  pub distinct : (x : List ℕ) → Twice x result → ⊥
  pub kept : (x : List ℕ) → In x entries → In x result
  pub same :
      (f : JitEntry → ℕ)
      → ((name : List ℕ) (e : JitEntry) → f (with_name name e) ≡ f e)
      → sum f result ≡ sum f entries

sum-length : (entries : List JitEntry) → sum (λ e. 1) entries ≡ length entries
unfolding sum
sum-length [] = refl
sum-length (e ∷ entries) = omega (arith, sum-length entries)

-- `qsort` by `strcmp` of the names.
pub record SortsByName (qsort : List JitEntry → List JitEntry) : Type 0 where
  pub permutes :
      (f : JitEntry → ℕ) (entries : List JitEntry) → sum f (qsort entries) ≡ sum f entries
  pub groups : (entries : List JitEntry) → Grouped (qsort entries)

module _ (qsort : List JitEntry → List JitEntry) (sorting : SortsByName qsort) where
  sorted-In : (x : List ℕ) (entries : List JitEntry) → In x entries → In x (qsort entries)
  sorted-In x entries i =
      let n = (In-sum x entries).0 i in
      (In-sum x (qsort entries)).1 (omega (arith, n, sorting.permutes (named x) entries))

  unsorted-Twice :
      (x : List ℕ) (entries : List JitEntry) → Twice x (qsort entries) → Twice x entries
  unsorted-Twice x entries t =
      let n = (Twice-sum x (qsort entries)).0 t in
      (Twice-sum x entries).1 (omega (arith, n, sorting.permutes (named x) entries))

  rounds-Disambiguated :
      (rounds k : ℕ) (entries : List JitEntry)
      → Grouped entries
      → ((x : List ℕ) → Twice x entries → Chain k (length x) entries)
      → k ≤ length entries
      → length entries < rounds + k
      → (result : List JitEntry) × (disambiguate_symbol_names qsort rounds entries ≡ some result)
        × Disambiguated entries result
  unfolding disambiguate_symbol_names Chain Shorter
  rounds-Disambiguated zero k entries g chains le fuel = absurd (omega (arith, le, fuel))
  rounds-Disambiguated (suc rounds) k entries g chains le fuel =
      let p = rename_all entries in
      let r = rename_all-Renamed entries g in
      elim (Bool-cases p.1) [
        | inr n ↦ (
          p.0,
          rw (disambiguate_symbol_names, n) refl,
          record {
            distinct = λ x t.
                let (y, u, l) = r.shorter x t in
                let q : true ≡ false = sym (r.unseen y u) ∙ n in let bad : ⊥ = cc in bad;
            kept = r.kept;
            same = r.same;
          },
        )
        | inl s ↦
            let (y, t) = r.seen s in
            let size : length (qsort p.0) ≡ length entries =
              sym (sum-length (qsort p.0))
              ∙ sorting.permutes (λ e. 1) p.0
              ∙ r.same (λ e. 1) (λ name e. refl)
              ∙ sum-length entries in
            let more = λ (x : List ℕ) (i : In x entries). sorted-In x p.0 (r.kept x i) in
            let next =
              rounds-Disambiguated rounds (suc k) (qsort p.0) (sorting.groups p.0)
                (λ x u.
                  let (z, v, l) = r.shorter x (unsorted-Twice x p.0 u) in
                  (
                    z,
                    more z (Twice-In z entries v),
                    l,
                    Chain-more k (length z) entries (qsort p.0) more (chains z v),
                  ))
                (omega (arith, size, Chain-Twice k y entries (chains y t) t))
                (omega (arith, size, fuel)) in
            let (result, e, d) = next in
            (
              result,
              rw (disambiguate_symbol_names, s) e,
              record {
                distinct = d.distinct;
                kept = λ x i. d.kept x (more x i);
                same = λ f h. d.same f h ∙ sorting.permutes f p.0 ∙ r.same f h;
              },
            )
      ]

  -- When qsort keeps the entries and puts those of one name together, disambiguate_symbol_names on
  -- the sorted array ends within one recursion more than there are entries; then no two entries
  -- have one name, every name of before is still there, and nothing but names has changed.
  pub disambiguate_symbol_names-Disambiguated :
      (rounds : ℕ) (entries : List JitEntry)
      → length entries < rounds
      → (result : List JitEntry) × (disambiguate_symbol_names qsort rounds (qsort entries)
          ≡ some result)
        × Disambiguated entries result
  unfolding Chain
  disambiguate_symbol_names-Disambiguated rounds entries fuel =
      let size : length (qsort entries) ≡ length entries =
        sym (sum-length (qsort entries)) ∙ sorting.permutes (λ e. 1) entries ∙ sum-length entries in
      let (result, e, d) =
        rounds-Disambiguated rounds 0 (qsort entries) (sorting.groups entries) (λ x t. tt)
          (omega arith) (omega (arith, size, fuel)) in
      (
        result,
        e,
        record {
          distinct = d.distinct;
          kept = λ x i. d.kept x (sorted-In x entries i);
          same = λ f h. d.same f h ∙ sorting.permutes f entries;
        },
      )
