-- ===== src/Cookie/Laws.antt =====
-- The cache of cookies (daemon/opd_cookie.c) answers as the kernel does, and asks it once for each.
use mathlib.Core.Option.{some-injective}
use oprofile.Base.{
  ℕ, ◌+◌, ◌≤◌, ◌≡◌, refl, sym, ap, ◌∙◌, Bool, true, inl, inr, Option, some, none, List, [], ◌∷◌,
  map, ◌==◌, if◌then◌else◌, arith, Bool-cases, ==_iff,
}
use oprofile.Cookie.{
  CookieEntry, Hashes, hash_cookie, cookie_init, list_add, find_entry, is_special, ignored_name,
  create_cookie, found_or_new, entry_of, find_cookie, is_cookie_ignored,
}

-- How many entries of a list are of the cookie.
unfoldable pub count : ℕ → List CookieEntry → ℕ
count cookie [] = 0
count cookie (entry ∷ entries) = count cookie entries + (if entry.value == cookie then 1 else 0)

-- A call on a cookie.
pub data Call : Type 0 where
  ask_name ask_ignored : ℕ → Call

pub data Answer : Type 0 where
  name_is : Option (List ℕ) → Answer
  ignored_is : Bool → Answer

module _ (lookup_dcookie : ℕ → Option (List ℕ)) (is_image_ignored : List ℕ → Bool) where
  -- The cache holds what the kernel answers, each cookie at most once, and on the list of its hash.
  pub record IsCache (hashes : Hashes) : Type 0 where
    pub answers :
        (h cookie : ℕ) (entry : CookieEntry)
        → find_entry cookie (hashes h) ≡ some entry
        → entry ≡ create_cookie lookup_dcookie is_image_ignored cookie
    pub once : (h cookie : ℕ) → count cookie (hashes h) ≤ (if h == hash_cookie cookie then 1 else 0)

  -- What the calls answer without a cache.
  unfoldable pub answer_of : Call → Answer
  answer_of (ask_name cookie) = name_is (if is_special cookie then none else lookup_dcookie cookie)
  answer_of (ask_ignored cookie) = ignored_is (
      if is_special cookie
      then true
      else ignored_name lookup_dcookie is_image_ignored (lookup_dcookie cookie))

  unfoldable pub run : Call → Hashes → Answer × Hashes
  run (ask_name cookie) hashes =
      let (name, hashes') = find_cookie lookup_dcookie is_image_ignored cookie hashes in
      (name_is name, hashes')
  run (ask_ignored cookie) hashes =
      let (ignored, hashes') = is_cookie_ignored lookup_dcookie is_image_ignored cookie hashes in
      (ignored_is ignored, hashes')

  unfoldable pub run_all : List Call → Hashes → List Answer × Hashes
  unfolding run
  run_all [] hashes = ([], hashes)
  run_all (c ∷ calls) hashes =
      let (a, hashes₁) = run c hashes in
      let (answers, hashes₂) = run_all calls hashes₁ in (a ∷ answers, hashes₂)

  cookie_init-IsCache : IsCache cookie_init
  unfolding find_entry count
  cookie_init-IsCache = record {
    answers = λ h cookie entry e. let bad : ⊥ = cc in absurd bad;
    once = λ h cookie. omega arith;
  }

  find_entry-count :
      (cookie : ℕ) (entries : List CookieEntry)
      → find_entry cookie entries ≡ none
      → count cookie entries ≡ 0
  unfolding find_entry count
  find_entry-count cookie [] h = refl
  find_entry-count cookie (entry ∷ entries) h = elim (Bool-cases (entry.value == cookie)) [
    | inl t ↦ let h' : some entry ≡ none = rw t at h in let bad : ⊥ = cc in absurd bad
    | inr f ↦ rw f (omega (arith, find_entry-count cookie entries (rw f at h)))
  ]

  module _ (hashes : Hashes) (cookie : ℕ) (c : IsCache hashes)
      (miss : find_entry cookie (hashes (hash_cookie cookie)) ≡ none) where
    abbrev new_entry : CookieEntry
    new_entry = create_cookie lookup_dcookie is_image_ignored cookie

    new-answers :
        (h k : ℕ) (entry : CookieEntry)
        → find_entry k (new_entry ∷ hashes h) ≡ some entry
        → entry ≡ create_cookie lookup_dcookie is_image_ignored k
    unfolding find_entry create_cookie
    new-answers h k entry e = elim (Bool-cases (cookie == k)) [
      | inl t ↦
          let q : some new_entry ≡ some entry = rw t at e in
          sym (some-injective _ _ q)
          ∙ ap (create_cookie lookup_dcookie is_image_ignored) ((==_iff cookie k).0 t)
      | inr f ↦ c.answers h k entry (rw f at e)
    ]

    new-once :
        (k : ℕ)
        → count k (new_entry ∷ hashes (hash_cookie cookie))
          ≤ (if hash_cookie cookie == hash_cookie k then 1 else 0)
    unfolding count create_cookie
    new-once k = elim (Bool-cases (cookie == k)) [
      | inl t ↦
          let q : cookie ≡ k = (==_iff cookie k).0 t in
          let z : count k (hashes (hash_cookie cookie)) ≡ 0 =
            ap (λ (j : ℕ). count j (hashes (hash_cookie cookie))) (sym q)
            ∙ find_entry-count cookie _ miss in
          let o : (hash_cookie cookie == hash_cookie k) ≡ true =
            (==_iff _ _).1 (ap hash_cookie q) in
          rw (t, o, z) (omega arith)
      | inr f ↦ rw f (ground (arith, c.once (hash_cookie cookie) k))
    ]

    added-IsCache : IsCache (list_add (hash_cookie cookie) new_entry hashes)
    added-IsCache = record {
      answers = λ h k entry. elim (Bool-cases (h == hash_cookie cookie)) [
        | inl t ↦ rw t (new-answers h k entry)
        | inr f ↦ rw f (c.answers h k entry)
      ];
      once = λ h k. elim (Bool-cases (h == hash_cookie cookie)) [
        | inl t ↦ rw (t, (==_iff h (hash_cookie cookie)).0 t) (new-once k)
        | inr f ↦ rw f (c.once h k)
      ];
    }

  -- The entry of a cookie is what the kernel answers.
  Serves : ℕ → CookieEntry × Hashes → Type 0
  Serves cookie (entry, hashes) =
      (entry ≡ create_cookie lookup_dcookie is_image_ignored cookie) × IsCache hashes

  found_or_new-Serves :
      (cookie : ℕ) (hashes : Hashes)
      → IsCache hashes
      → (o : Option CookieEntry) → find_entry cookie (hashes (hash_cookie cookie)) ≡ o
      → Serves cookie (found_or_new lookup_dcookie is_image_ignored cookie hashes o)
  unfolding Serves
  found_or_new-Serves cookie hashes c (some entry) e = (c.answers _ cookie entry e, c)
  found_or_new-Serves cookie hashes c none e = (refl, added-IsCache hashes cookie c e)

  entry_of-Serves :
      (cookie : ℕ) (hashes : Hashes)
      → IsCache hashes
      → Serves cookie (entry_of lookup_dcookie is_image_ignored cookie hashes)
  unfolding entry_of
  entry_of-Serves cookie hashes c = found_or_new-Serves cookie hashes c _ refl

  run-answer_of :
      (call : Call) (hashes : Hashes)
      → IsCache hashes
      → ((run call hashes).0 ≡ answer_of call) × IsCache (run call hashes).1
  unfolding run answer_of find_cookie is_cookie_ignored Serves create_cookie
  run-answer_of (ask_name cookie) hashes c =
      let (e, c') = entry_of-Serves cookie hashes c in
      elim (Bool-cases (is_special cookie)) [
        | inl t ↦ rw t (refl, c)
        | inr f ↦ rw f (ap name_is (ap (λ (x : CookieEntry). x.name) e), c')
      ]
  run-answer_of (ask_ignored cookie) hashes c =
      let (e, c') = entry_of-Serves cookie hashes c in
      elim (Bool-cases (is_special cookie)) [
        | inl t ↦ rw t (refl, c)
        | inr f ↦ rw f (ap ignored_is (ap (λ (x : CookieEntry). x.ignored) e), c')
      ]

  run_all-from :
      (calls : List Call) (hashes : Hashes)
      → IsCache hashes
      → ((run_all calls hashes).0 ≡ map answer_of calls) × IsCache (run_all calls hashes).1
  unfolding run_all
  run_all-from [] hashes c = (refl, c)
  run_all-from (call ∷ calls) hashes c =
      let (a, c₁) = run-answer_of call hashes c in
      let (as', c₂) = run_all-from calls _ c₁ in ((λ i. a i ∷ as' i), c₂)

  -- From the empty cache on, any sequence of calls of find_cookie and is_cookie_ignored answers
  -- what the kernel's lookup and the image filter answer without a cache, and leaves a cache whose
  -- entries are the kernel's answers, with each cookie at most once and only on the list of its
  -- hash.
  pub run_all-answer_of :
      (calls : List Call)
      → ((run_all calls cookie_init).0 ≡ map answer_of calls)
        × IsCache (run_all calls cookie_init).1
  run_all-answer_of calls = run_all-from calls cookie_init cookie_init-IsCache
