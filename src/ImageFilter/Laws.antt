-- ===== src/ImageFilter/Laws.antt =====
-- What the filter of images ignores (daemon/oprofiled.c).
use mathlib.Core.List.{append-nil, append_assoc}
use mathlib.Core.Option.{some-injective}
use oprofile.Base.{
  ℕ, ◌≡◌, ◌↔◌, ◌⊎◌, refl, sym, ap, ◌∙◌, true, false, inl, inr, Option, some, none, List, [], ◌∷◌,
  ◌++◌, ◌==◌, Bool-cases, ==_iff,
}
use oprofile.ImageFilter.{
  Filter, bucket, is_equal, add_path, has_name, add_image_filter, parse_from,
  opd_parse_image_filter, is_image_ignored,
}

is_equal_iff : (s t : List ℕ) → (is_equal s t ≡ true) ↔ (s ≡ t)
unfolding is_equal
is_equal_iff [] [] = ((λ h. refl), (λ h. refl))
is_equal_iff [] (d ∷ t) =
    ((λ h. let bad : ⊥ = cc in absurd bad), (λ h. let bad : ⊥ = cc in absurd bad))
is_equal_iff (c ∷ s) [] =
    ((λ h. let bad : ⊥ = cc in absurd bad), (λ h. let bad : ⊥ = cc in absurd bad))
is_equal_iff (c ∷ s) (d ∷ t) = elim (Bool-cases (c == d)) [
  | inl y ↦ (
    (λ h. let e = (==_iff c d).0 y in let r = (is_equal_iff s t).0 (rw y at h) in λ i. e i ∷ r i),
    (λ h. rw y ((is_equal_iff s t).1 (cc))),
  )
  | inr n ↦ (
    (λ h. let h' : false ≡ true = rw n at h in let bad : ⊥ = cc in absurd bad),
    (λ h. let e : c ≡ d = cc in let q = sym n ∙ (==_iff c d).1 e in let bad : ⊥ = cc in absurd bad),
  )
]

-- A name without a comma.
abbrev pub IsPlain : List ℕ → Type 0
IsPlain [] = Unit
IsPlain (c ∷ name) = ((c == b',') ≡ false) × IsPlain name

abbrev pub AllPlain : List (List ℕ) → Type 0
AllPlain [] = Unit
AllPlain (name ∷ names) = IsPlain name × AllPlain names

-- Names with commas between, of at least one.
unfoldable pub join : List ℕ → List (List ℕ) → List ℕ
join name [] = name
join name (name' ∷ names) = name ++ (b',' ∷ join name' names)

module _ (realpath : List ℕ → Option (List ℕ)) where
  -- The path is that of a name.
  pub IsListed : List ℕ → List (List ℕ) → Type 0
  IsListed path [] = ⊥
  IsListed path (name ∷ names) = (realpath name ≡ some path) ⊎ IsListed path names

  add_all : List (List ℕ) → Filter → Filter
  add_all [] filter = filter
  add_all (name ∷ names) filter = add_all names (add_image_filter realpath name filter)

  parse_from-name :
      (front name : List ℕ) (text : List ℕ) (filter : Filter)
      → IsPlain name
      → parse_from realpath front (name ++ text) filter
        ≡ parse_from realpath (front ++ name) text filter
  unfolding parse_from
  parse_from-name front [] text filter plain = rw (append-nil front) refl
  parse_from-name front (c ∷ name) text filter (n, plain) = rw n (
      parse_from-name (front ++ (c ∷ [])) name text filter plain
      ∙ rw (append_assoc front (c ∷ []) name) refl)

  parse_from-join :
      (name : List ℕ) (names : List (List ℕ)) (filter : Filter)
      → IsPlain name
      → AllPlain names
      → parse_from realpath [] (join name names) filter ≡ add_all (name ∷ names) filter
  unfolding parse_from join add_all
  parse_from-join name [] filter plain all =
      ap (λ (t : List ℕ). parse_from realpath [] t filter) (sym (append-nil name))
      ∙ parse_from-name [] name [] filter plain
  parse_from-join name (name' ∷ names) filter plain (plain', all) =
      parse_from-name [] name (b',' ∷ join name' names) filter plain
      ∙ parse_from-join name' names (add_image_filter realpath name filter) plain' all

  -- A name is found when it was there before or is added.
  add_path-has_name :
      (o : Option (List ℕ)) (filter : Filter) (image : List ℕ)
      → (has_name image (add_path o filter (bucket image)) ≡ true)
        ↔ ((o ≡ some image) ⊎ (has_name image (filter (bucket image)) ≡ true))
  unfolding has_name
  add_path-has_name none filter image =
      ((λ h. inr h), (λ s. elim s [ inl e ↦ let bad : ⊥ = cc in absurd bad | inr h ↦ h ]))
  add_path-has_name (some path) filter image = elim (Bool-cases (is_equal path image)) [
    | inl y ↦
        let e = (is_equal_iff path image).0 y in
        let b = (==_iff _ _).1 (ap bucket (sym e)) in
        ((λ h. inl (ap some e)), (λ s. rw (b, y) refl))
    | inr n ↦ (
      (λ h. elim (Bool-cases (bucket image == bucket path)) [
        | inl b ↦ inr (rw (b, n) at h)
        | inr b ↦ inr (rw b at h)
      ]),
      (λ s. elim s [
        | inl e ↦
            let q = sym n ∙ (is_equal_iff path image).1 (some-injective _ _ e) in
            let bad : ⊥ = cc in absurd bad
        | inr h ↦ elim (Bool-cases (bucket image == bucket path)) [
          | inl b ↦ rw (b, n) h
          | inr b ↦ rw b h
        ]
      ]),
    )
  ]

  add_all-has_name :
      (names : List (List ℕ)) (filter : Filter) (image : List ℕ)
      → (has_name image (add_all names filter (bucket image)) ≡ true)
        ↔ (IsListed image names ⊎ (has_name image (filter (bucket image)) ≡ true))
  unfolding add_all IsListed
  add_all-has_name [] filter image = ((λ h. inr h), (λ s. elim s [ inl e ↦ absurd e | inr h ↦ h ]))
  add_all-has_name (name ∷ names) filter image =
      let (there, back) = add_all-has_name names (add_image_filter realpath name filter) image in
      let (one, other) = add_path-has_name (realpath name) filter image in
      (
        (λ h. elim (there h) [
          | inl l ↦ inl (inr l)
          | inr k ↦ elim (one k) [ inl e ↦ inl (inl e) | inr f ↦ inr f ]
        ]),
        (λ s. elim s [
          | inl l ↦ elim l [ inl e ↦ back (inr (other (inl e))) | inr m ↦ back (inl m) ]
          | inr f ↦ back (inr (other (inr f)))
        ]),
      )

  -- With a filter of names, none with a comma, that are written with commas between,
  -- is_image_ignored lets exactly those images pass that are the real path of one of the names.
  pub is_image_ignored-IsListed :
      (name : List ℕ) (names : List (List ℕ)) (image : List ℕ)
      → IsPlain name
      → AllPlain names
      → let text = some (join name names) in
        (is_image_ignored text (opd_parse_image_filter realpath text) image ≡ false)
        ↔ IsListed image (name ∷ names)
  unfolding is_image_ignored opd_parse_image_filter has_name
  is_image_ignored-IsListed name names image plain all =
      let (there, back) = add_all-has_name (name ∷ names) (λ h. []) image in
      rw (parse_from-join name names (λ h. []) plain all)
        (elim (Bool-cases (has_name image (add_all (name ∷ names) (λ h. []) (bucket image)))) [
          | inl y ↦ rw y (
            (λ h. elim (there y) [ inl l ↦ l | inr n ↦ (let bad : ⊥ = cc in absurd bad) ]),
            (λ l. refl),
          )
          | inr n ↦ rw n (
            (λ h. let bad : ⊥ = cc in absurd bad),
            (λ l. let q = sym n ∙ back (inl l) in let bad : ⊥ = cc in absurd bad),
          )
        ])
