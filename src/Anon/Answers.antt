-- ===== src/Anon/Answers.antt =====
-- What `find_anon_mapping` of daemon/opd_anon.c answers, and what it leaves.
use mathlib.Core.Option.{some-injective}
use oprofile.Anon.{
  AnonEntry, Anons, hash_anon, unlink, anon_match, find_on_list, clear_anon_maps, get_anon_maps,
  MapsLine, success, second_try, search, find_from, find_anon_mapping,
}
use oprofile.Anon.Laws.{
  In, IsDistinct, In-unlink, unlink-In, unlink-IsDistinct, find_on_list-In, find_on_list-none,
  mapping_at-In, unique,
}
use oprofile.Anon.Sound.{IsLive, IsSound}
use oprofile.Anon.Frees.{IsSameTask, clear_anon_maps-Cleared}
use oprofile.Anon.Adds.{IsGood, get_anon_maps-Added}
use oprofile.Sfile.{Sfile, Transient}
use oprofile.Base.{
  ℕ, ◌≡◌, ◌≢◌, refl, sym, ap, subst, ◌∙◌, inl, inr, Bool, true, false, Bool-cases, Option, some,
  none, Option-cases, List, ◌∷◌, ◌==◌, ==_iff, ==_refl, arith, if◌then◌else◌,
}

-- An answer: a mapping on the list of all mappings that the sample is in, or none is.
pub IsAnswer : Anons → Option ℕ → Type 0
IsAnswer w (some p) = (e : AnonEntry) × In e w.lru × (e.address ≡ p) × (anon_match w.trans e ≡ true)
IsAnswer w none = (e : AnonEntry) → In e w.lru → anon_match w.trans e ≡ false

-- The mapping moved to the front of its list.
module _ (w : Anons) (e : AnonEntry) (hash : ℕ) (s : IsSound w) (m : In e (w.hashes hash)) where
  moved : ℕ → Bool → List AnonEntry
  moved h b = if b then e ∷ unlink e.address (w.hashes h) else w.hashes h

  moved-before :
      (h : ℕ) (b : Bool)
      → ((h == hash) ≡ b)
      → (x : AnonEntry) → In x (moved h b)
      → In x (w.hashes h)
  unfolding moved In
  moved-before h false q x i = i
  moved-before h true q x i = elim i [
    | inl same ↦
        subst (λ k. In x (w.hashes k)) (sym ((==_iff h hash).0 q))
          (subst (λ (y : AnonEntry). In y (w.hashes hash)) (sym same) m)
    | inr j ↦ (In-unlink x e.address (w.hashes h) j).0
  ]

  moved-after :
      (h : ℕ) (b : Bool)
      → ((h == hash) ≡ b)
      → (x : AnonEntry) → In x (w.hashes h)
      → In x (moved h b)
  unfolding moved In
  moved-after h false q x i = i
  moved-after h true q x i = elim (Bool-cases (x.address == e.address)) [
    | inl y ↦ inl (unique w.lru x e s.distinct (s.listed h x i).0 (s.listed hash e m).0 y)
    | inr n ↦ inr (unlink-In x e.address (w.hashes h) i n)
  ]

  moved-IsDistinct : (h : ℕ) (b : Bool) → IsDistinct (moved h b)
  unfolding moved IsDistinct
  moved-IsDistinct h false = s.each_distinct h
  moved-IsDistinct h true = (
    λ x i. (In-unlink x e.address (w.hashes h) i).1,
    unlink-IsDistinct e.address (w.hashes h) (s.each_distinct h),
  )

  pub success-IsSound : IsSound (success hash e w).1
  unfolding moved
  success-IsSound = record {
    listed = λ h x i. s.listed h x (moved-before h (h == hash) refl x i);
    hashed = λ x i. moved-after _ (_ == hash) refl x (s.hashed x i);
    distinct = s.distinct;
    each_distinct = λ h. moved-IsDistinct h (h == hash);
    fresh = s.fresh;
    counted = s.counted;
    anon_live = s.anon_live;
    last_live = s.last_live;
    files_sound = s.files_sound;
    files_live = s.files_live;
  }

-- A mapping that the sample is in is of its task, so it is on the list that is searched.
anon_match-hash :
    (t : Transient) (e : AnonEntry)
    → anon_match t e ≡ true
    → hash_anon e.mapping.tgid e.mapping.app_cookie ≡ hash_anon t.tgid t.app_cookie
unfolding anon_match
anon_match-hash t e h =
    let a : t.tgid ≡ e.mapping.tgid = ground arith in
    let b : t.app_cookie ≡ e.mapping.app_cookie = ground arith in λ i. hash_anon (sym a i) (sym b i)

none-IsAnswer :
    (w : Anons)
    → IsSound w
    → find_on_list w.trans (w.hashes (hash_anon w.trans.tgid w.trans.app_cookie)) ≡ none
    → IsAnswer w none
unfolding IsAnswer
none-IsAnswer w s n e m = elim (Bool-cases (anon_match w.trans e)) [
  | inr f ↦ f
  | inl y ↦
      find_on_list-none w.trans _ n e
        (subst (λ h. In e (w.hashes h)) (anon_match-hash w.trans e y) (s.hashed e m))
]

-- What a search leaves.
pub record Found (w w' : Anons) (o : Option ℕ) : Type 0 where
  pub good : IsGood w'
  pub same_task : IsSameTask w w'
  pub answer : IsAnswer w' o

success-Found :
    (w : Anons) (hash : ℕ) (e : AnonEntry)
    → IsGood w
    → find_on_list w.trans (w.hashes hash) ≡ some e
    → Found w (success hash e w).1 (success hash e w).0
unfolding IsAnswer
success-Found w hash e g f =
    let (m, y) = find_on_list-In w.trans (w.hashes hash) e f in
    record {
      good = record { sound = success-IsSound w e hash g.sound m; bound = g.bound };
      same_task = (refl, refl, refl);
      answer = (e, (g.sound.listed hash e m).0, refl, y);
    }

second_try-Found :
    (w : Anons) (hash : ℕ)
    → IsGood w
    → hash ≡ hash_anon w.trans.tgid w.trans.app_cookie
    → Found w (second_try hash w).1 (second_try hash w).0
second_try-Found w hash g q = elim (Option-cases (find_on_list w.trans (w.hashes hash))) [
  | inr (e, f) ↦ rw (second_try, f) (success-Found w hash e g f)
  | inl n ↦
      rw (second_try, n)
        (record {
          good = g;
          same_task = (refl, refl, refl);
          answer =
              none-IsAnswer w g.sound (ap (λ h. find_on_list w.trans (w.hashes h)) (sym q) ∙ n);
        })
]

module _ (maps : ℕ → Option (List MapsLine)) where
  search-Found : (w : Anons) → IsGood w → Found w (search maps w).1 (search maps w).0
  unfolding search
  search-Found w g =
      let hash = hash_anon w.trans.tgid w.trans.app_cookie in
      elim (Option-cases (find_on_list w.trans (w.hashes hash))) [
        | inr (e, f) ↦ rw (search, f) (success-Found w hash e g f)
        | inl n ↦
            let c = clear_anon_maps-Cleared w g.sound in
            let a =
              get_anon_maps-Added maps (clear_anon_maps w)
                (record { sound = c.sound; bound = omega (arith, c.count_less, g.bound) }) in
            let (x, y, z) = a.same_task in
            let (x', y', z') = c.same_task in
            let r =
              second_try-Found (get_anon_maps maps (clear_anon_maps w)) hash a.good
                (λ i. hash_anon (sym (x ∙ x') i) (sym (y ∙ y') i)) in
            let (x'', y'', z'') = r.same_task in
            rw (search, n)
              (record {
                good = r.good;
                same_task = (x'' ∙ x ∙ x', y'' ∙ y ∙ y', z'' ∙ z ∙ z');
                answer = r.answer;
              })
      ]

  -- What an answer and what it leaves are.
  pub Answers : Anons → Option (Option ℕ × Anons) → Type 0
  Answers w r = (o : Option ℕ) × (w' : Anons) × (r ≡ some (o, w')) × Found w w' o

  find_from-Answers :
      (o : Option ℕ) (w : Anons) → IsGood w → IsLive w.lru o → Answers w (find_from maps o w)
  unfolding find_from Answers IsAnswer
  find_from-Answers none w g l = ((search maps w).0, (search maps w).1, refl, search-Found w g)
  find_from-Answers (some p) w g (e, m, a) =
      let (x, f, i, b) = mapping_at-In p w.lru e m a in
      elim (Bool-cases (anon_match w.trans x)) [
        | inl y ↦ (
          some p,
          w,
          rw (find_from, f, y) refl,
          record { good = g; same_task = (refl, refl, refl); answer = (x, i, b, y) },
        )
        | inr n ↦
            ((search maps w).0, (search maps w).1, rw (find_from, f, n) refl, search-Found w g)
      ]

  -- On good mappings (each on its hash list and on the list of all, once and at its own address,
  -- counted, fewer than 8192; the context's pointers and those of the sample files to live
  -- mappings; the sample files sound) find_anon_mapping reads no freed mapping, whatever /proc
  -- says; it leaves the mappings good, and the context's task and counter; it returns a live
  -- mapping of the task that holds the counter or, when no mapping does even after the task's were
  -- read again, null.
  pub find_anon_mapping-Answers : (w : Anons) → IsGood w → Answers w (find_anon_mapping maps w)
  unfolding find_anon_mapping
  find_anon_mapping-Answers w g = find_from-Answers w.trans.anon w g g.sound.anon_live

  -- When on good mappings the context's current sample file is that of the context's mapping, the
  -- counter is not in that mapping, and the hash list has another that holds it, find_anon_mapping
  -- returns the other one and leaves the current sample file, which is not of the mapping
  -- returned.
  pub find_anon_mapping-stale :
      (w : Anons) (sf : Sfile) (x e : AnonEntry)
      → IsGood w
      → w.trans.current ≡ some sf
      → sf.anon ≡ some x.address
      → w.trans.anon ≡ some x.address
      → In x w.lru
      → anon_match w.trans x ≡ false
      → find_on_list w.trans (w.hashes (hash_anon w.trans.tgid w.trans.app_cookie)) ≡ some e
      → (w' : Anons) × (find_anon_mapping maps w ≡ some (some e.address, w'))
        × (w'.trans.current ≡ some sf)
        × (sf.anon ≢ some e.address)
  unfolding find_anon_mapping find_from search
  find_anon_mapping-stale w sf x e g c own q m n f =
      let hash = hash_anon w.trans.tgid w.trans.app_cookie in
      let (y, at, i, b) = mapping_at-In x.address w.lru x m refl in
      let d = g.sound.distinct in
      let same : y ≡ x = unique w.lru y x d i m (rw b (==_refl x.address)) in
      let no : anon_match w.trans y ≡ false = ap (anon_match w.trans) same ∙ n in
      let (k, hit) = find_on_list-In w.trans (w.hashes hash) e f in
      let found : find_from maps (some x.address) w ≡ some (success hash e w) =
        rw (find_from, at, no, search, f) refl in
      (
        (success hash e w).1,
        ap (λ o. find_from maps o w) q ∙ found,
        c,
        λ z.
            let a : x.address ≡ e.address = some-injective _ _ (sym own ∙ z) in
            let same' : x ≡ e =
              unique w.lru x e d m (g.sound.listed hash e k).0 (rw a (==_refl e.address)) in
            let r : true ≡ false = sym hit ∙ ap (anon_match w.trans) (sym same') ∙ n in
            let bad : ⊥ = cc in absurd bad,
      )
