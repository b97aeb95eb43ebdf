-- ===== src/Jit/Distinct.antt =====
-- The names of entries, and how a round of `disambiguate_symbol_names` (opjitconv/jitsymbol.c)
-- changes them.
use oprofile.Base.{
  ℕ, ◌+◌, ◌%◌, ◌^◌, u32, ltb, ◌≤◌, ◌<◌, ◌≡◌, ◌≢◌, ◌⊎◌, refl, sym, ap, subst, ◌∙◌, inl, inr, Bool,
  true, false, Bool-cases, List, [], ◌∷◌, ◌++◌, length, length-take, length-append, ◌==◌, ==_iff,
  arith,
}
use oprofile.Jit.{JitEntry}
use oprofile.Jit.Entries.{sum}
use oprofile.Jit.Names.{magnitude, percent_i, same_name, replacement_name, with_name, rename_from}

pub same_name_eq : (s t : List ℕ) → same_name s t ≡ true → s ≡ t
unfolding same_name
same_name_eq [] [] h = refl
same_name_eq [] (d ∷ t) h = let bad : ⊥ = cc in absurd bad
same_name_eq (c ∷ s) [] h = let bad : ⊥ = cc in absurd bad
same_name_eq (c ∷ s) (d ∷ t) h = elim (Bool-cases (c == d)) [
  | inl y ↦
      let rest = same_name_eq s t (rw (same_name, y) at h) in
      let first = (==_iff c d).0 y in λ i. first i ∷ rest i
  | inr n ↦ let q : false ≡ true = rw (same_name, n) at h in let bad : ⊥ = cc in absurd bad
]

pub same_name_refl : (s : List ℕ) → same_name s s ≡ true
unfolding same_name
same_name_refl [] = refl
same_name_refl (c ∷ s) = rw (same_name, (==_iff c c).1 refl) (same_name_refl s)

pub length-replacement_name : (s : List ℕ) (i : ℕ) → length s < length (replacement_name s i)
unfolding replacement_name
length-replacement_name s i =
    let whole = length-append s (b'~' ∷ percent_i i) in
    let signed : length (magnitude i) ≤ length (percent_i i) = elim (Bool-cases (ltb i (2 ^ 31))) [
      | inl t ↦ rw t (omega arith)
      | inr f ↦ rw f (omega arith)
    ] in
    omega (
      arith,
      length-take (length s + 1 + length (magnitude i)) (s ++ (b'~' ∷ percent_i i))
          (omega (arith, whole, signed)),
    )

-- The name stands once, or twice.
unfoldable pub In : List ℕ → List JitEntry → Type 0
In x [] = ⊥
In x (e ∷ entries) = (x ≡ e.symbol_name) ⊎ In x entries

unfoldable pub Twice : List ℕ → List JitEntry → Type 0
unfolding In
Twice x [] = ⊥
Twice x (e ∷ entries) = ((x ≡ e.symbol_name) × In x entries) ⊎ Twice x entries

-- Entries of one name stand together.
unfoldable pub Grouped : List JitEntry → Type 0
unfolding In
Grouped [] = Unit
Grouped (a ∷ []) = Unit
Grouped (a ∷ b ∷ entries) =
    (In a.symbol_name (b ∷ entries) → b.symbol_name ≡ a.symbol_name) × Grouped (b ∷ entries)

-- A shorter name stands twice.
unfoldable pub Shorter : List ℕ → List JitEntry → Type 0
Shorter x entries = (y : List ℕ) × Twice y entries × (length y < length x)

abbrev pub others : JitEntry → ℕ → List JitEntry → List JitEntry
others a cnt entries = (rename_from a cnt entries).0

pub skip-Grouped :
    (a b : JitEntry) (entries : List JitEntry)
    → same_name a.symbol_name b.symbol_name ≡ true
    → Grouped (a ∷ b ∷ entries)
    → Grouped (a ∷ entries)
unfolding Grouped
skip-Grouped a b [] s g = tt
skip-Grouped a b (c ∷ entries) s (g, (h, k)) =
    let e = same_name_eq a.symbol_name b.symbol_name s in
    ((λ i. h (subst (λ x. In x (c ∷ entries)) e i) ∙ sym e), k)

tail-Grouped :
    (a b : JitEntry) (entries : List JitEntry) → Grouped (a ∷ b ∷ entries) → Grouped (b ∷ entries)
unfolding Grouped
tail-Grouped a b entries (g, h) = h

apart :
    (a b : JitEntry) (entries : List JitEntry)
    → Grouped (a ∷ b ∷ entries)
    → same_name a.symbol_name b.symbol_name ≡ false
    → In a.symbol_name (b ∷ entries)
    → ⊥
unfolding Grouped
apart a b entries (g, h) n i =
    let q : false ≡ true =
      sym n ∙ ap (λ x. same_name x b.symbol_name) (sym (g i)) ∙ same_name_refl b.symbol_name in
    let bad : ⊥ = cc in bad

-- A shorter name of some of the entries.
tail-Shorter :
    (x : List ℕ) (a b : JitEntry) (entries : List JitEntry)
    → Shorter x (b ∷ entries)
    → Shorter x (a ∷ b ∷ entries)
unfolding Shorter Twice
tail-Shorter x a b entries (y, t, l) = (y, inr t, l)

skip-Shorter :
    (x : List ℕ) (a b : JitEntry) (entries : List JitEntry)
    → Shorter x (a ∷ entries)
    → Shorter x (a ∷ b ∷ entries)
unfolding Shorter Twice In
skip-Shorter x a b entries (y, t, l) =
    (y, elim t [ inl (e, i) ↦ inl (e, inr i) | inr t' ↦ inr (inr t') ], l)

others_same :
    (a b : JitEntry) (cnt : ℕ) (entries : List JitEntry)
    → same_name a.symbol_name b.symbol_name ≡ true
    → rename_from a cnt (b ∷ entries) ≡ (
      with_name (replacement_name a.symbol_name cnt) b ∷ others a ((cnt + 1) % u32) entries,
      true,
    )
unfolding rename_from
others_same a b cnt entries s = rw (rename_from, s) refl

others_next :
    (a b : JitEntry) (cnt : ℕ) (entries : List JitEntry)
    → same_name a.symbol_name b.symbol_name ≡ false
    → rename_from a cnt (b ∷ entries) ≡ (b ∷ others b 1 entries, (rename_from b 1 entries).1)
unfolding rename_from
others_next a b cnt entries s = rw (rename_from, s) refl

-- A name behind a round: it was there and is not that of `a`, or a shorter one stood twice.
renamed-In :
    (x : List ℕ) (a : JitEntry) (cnt : ℕ) (entries : List JitEntry)
    → Grouped (a ∷ entries)
    → In x (others a cnt entries)
    → (In x entries × (x ≢ a.symbol_name)) ⊎ Shorter x (a ∷ entries)
unfolding rename_from In Shorter Twice
renamed-In x a cnt [] g i = absurd i
renamed-In x a cnt (b ∷ entries) g i = elim (Bool-cases (same_name a.symbol_name b.symbol_name)) [
  | inl s ↦
      let e = same_name_eq a.symbol_name b.symbol_name s in
      let i' : (x ≡ replacement_name a.symbol_name cnt)
          ⊎ In x (others a ((cnt + 1) % u32) entries) =
        subst (λ (r : List JitEntry × Bool). In x r.0) (others_same a b cnt entries s) i in
      elim i' [
        | inl q ↦ inr (
          a.symbol_name,
          inl (refl, inl e),
          subst (λ z. length a.symbol_name < length z) (sym q)
              (length-replacement_name a.symbol_name cnt),
        )
        | inr j ↦ elim (renamed-In x a ((cnt + 1) % u32) entries (skip-Grouped a b entries s g) j) [
          | inl (k, n) ↦ inl (inr k, n)
          | inr r ↦ inr (skip-Shorter x a b entries r)
        ]
      ]
  | inr n ↦
      let i' : (x ≡ b.symbol_name) ⊎ In x (others b 1 entries) =
        subst (λ (r : List JitEntry × Bool). In x r.0) (others_next a b cnt entries n) i in
      elim i' [
        | inl q ↦ inl (inl q, λ z. apart a b entries g n (inl (sym z ∙ q)))
        | inr j ↦ elim (renamed-In x b 1 entries (tail-Grouped a b entries g) j) [
          | inl (k, m) ↦
              inl (inr k, λ z. apart a b entries g n (inr (subst (λ y. In y entries) z k)))
          | inr r ↦ inr (tail-Shorter x a b entries r)
        ]
      ]
]

-- A name that stands twice behind a round comes from a shorter one that stood twice.
pub renamed-Twice :
    (x : List ℕ) (a : JitEntry) (cnt : ℕ) (entries : List JitEntry)
    → Grouped (a ∷ entries)
    → Twice x (a ∷ others a cnt entries)
    → Shorter x (a ∷ entries)
unfolding rename_from In Twice Shorter
renamed-Twice x a cnt entries g (inl (q, i)) = elim (renamed-In x a cnt entries g i) [
  | inl (k, n) ↦ absurd (n q)
  | inr r ↦ r
]
renamed-Twice x a cnt [] g (inr t) = absurd t
renamed-Twice x a cnt (b ∷ entries) g (inr t) =
    elim (Bool-cases (same_name a.symbol_name b.symbol_name)) [
      | inl s ↦
          let e = same_name_eq a.symbol_name b.symbol_name s in
          let t' : ((x ≡ replacement_name a.symbol_name cnt)
                × In x (others a ((cnt + 1) % u32) entries))
              ⊎ Twice x (others a ((cnt + 1) % u32) entries) =
            subst (λ (r : List JitEntry × Bool). Twice x r.0) (others_same a b cnt entries s) t in
          elim t' [
            | inl (q, j) ↦ (
              a.symbol_name,
              inl (refl, inl e),
              subst (λ z. length a.symbol_name < length z) (sym q)
                  (length-replacement_name a.symbol_name cnt),
            )
            | inr u ↦
                skip-Shorter x a b entries (
                  renamed-Twice x a ((cnt + 1) % u32) entries (skip-Grouped a b entries s g)
                    (inr u))
          ]
      | inr n ↦
          let t' : Twice x (b ∷ others b 1 entries) =
            subst (λ (r : List JitEntry × Bool). Twice x r.0) (others_next a b cnt entries n) t in
          tail-Shorter x a b entries (renamed-Twice x b 1 entries (tail-Grouped a b entries g) t')
    ]

-- Names that stand twice are seen.
pub Twice-rename_from :
    (x : List ℕ) (a : JitEntry) (cnt : ℕ) (entries : List JitEntry)
    → Grouped (a ∷ entries)
    → Twice x (a ∷ entries)
    → (rename_from a cnt entries).1 ≡ true
unfolding rename_from In Twice
Twice-rename_from x a cnt [] g t = elim t [ inl (q, i) ↦ absurd i | inr u ↦ absurd u ]
Twice-rename_from x a cnt (b ∷ entries) g t =
    elim (Bool-cases (same_name a.symbol_name b.symbol_name)) [
      | inl s ↦ ap (λ (r : List JitEntry × Bool). r.1) (others_same a b cnt entries s)
      | inr n ↦ ap (λ (r : List JitEntry × Bool). r.1) (others_next a b cnt entries n) ∙ elim t [
        | inl (q, i) ↦ absurd (apart a b entries g n (subst (λ z. In z (b ∷ entries)) q i))
        | inr u ↦ Twice-rename_from x b 1 entries (tail-Grouped a b entries g) u
      ]
    ]

-- A round renames only where a name stands twice.
pub rename_from-Twice :
    (a : JitEntry) (cnt : ℕ) (entries : List JitEntry)
    → (rename_from a cnt entries).1 ≡ true
    → (y : List ℕ) × Twice y (a ∷ entries)
unfolding rename_from In Twice
rename_from-Twice a cnt [] h = let bad : ⊥ = cc in absurd bad
rename_from-Twice a cnt (b ∷ entries) h =
    elim (Bool-cases (same_name a.symbol_name b.symbol_name)) [
      | inl s ↦ (a.symbol_name, inl (refl, inl (same_name_eq a.symbol_name b.symbol_name s)))
      | inr n ↦
          let h' =
            sym (ap (λ (r : List JitEntry × Bool). r.1) (others_next a b cnt entries n)) ∙ h in
          let (y, t) = rename_from-Twice b 1 entries h' in (y, inr t)
    ]

-- No name is lost.
pub kept-In :
    (x : List ℕ) (a : JitEntry) (cnt : ℕ) (entries : List JitEntry)
    → In x (a ∷ entries)
    → In x (a ∷ others a cnt entries)
unfolding rename_from In
kept-In x a cnt [] i = i
kept-In x a cnt (b ∷ entries) i = elim (Bool-cases (same_name a.symbol_name b.symbol_name)) [
  | inl s ↦
      let e = same_name_eq a.symbol_name b.symbol_name s in
      let i' : In x (a ∷ entries) = elim i [
        | inl q ↦ inl q
        | inr (inl q) ↦ inl (q ∙ sym e)
        | inr (inr j) ↦ inr j
      ] in
      let k = kept-In x a ((cnt + 1) % u32) entries i' in
      subst (λ (r : List JitEntry × Bool). In x (a ∷ r.0)) (sym (others_same a b cnt entries s))
        (elim k [ inl q ↦ inl q | inr j ↦ inr (inr j) ])
  | inr n ↦
      subst (λ (r : List JitEntry × Bool). In x (a ∷ r.0)) (sym (others_next a b cnt entries n))
        (elim i [ inl q ↦ inl q | inr j ↦ inr (kept-In x b 1 entries j) ])
]

-- Nothing but names is changed.
pub others-sum :
    (f : JitEntry → ℕ) (a : JitEntry) (cnt : ℕ) (entries : List JitEntry)
    → ((name : List ℕ) (e : JitEntry) → f (with_name name e) ≡ f e)
    → sum f (others a cnt entries) ≡ sum f entries
unfolding rename_from sum
others-sum f a cnt [] same = refl
others-sum f a cnt (b ∷ entries) same = elim (Bool-cases (same_name a.symbol_name b.symbol_name)) [
  | inl s ↦
      ap (λ (r : List JitEntry × Bool). sum f r.0) (others_same a b cnt entries s)
      ∙ omega (
        arith,
        same (replacement_name a.symbol_name cnt) b,
        others-sum f a ((cnt + 1) % u32) entries same,
      )
  | inr n ↦
      ap (λ (r : List JitEntry × Bool). sum f r.0) (others_next a b cnt entries n)
      ∙ omega (arith, others-sum f b 1 entries same)
]
