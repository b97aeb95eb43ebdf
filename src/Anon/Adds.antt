-- ===== src/Anon/Adds.antt =====
-- New mappings: `add_anon_mapping` and `get_anon_maps` of daemon/opd_anon.c.
use oprofile.Anon.{
  AnonEntry, Anons, hash_anon, new_mapping, linked, do_lru, add_anon_mapping, lru_size, MapsLine,
  maps_name, begins_with_slash, add_lines, get_anon_maps,
}
use oprofile.Anon.Laws.{In, IsDistinct, In_last, In_before, In_end, append-IsDistinct}
use oprofile.Anon.Sound.{IsLive, IsSound}
use oprofile.Anon.Frees.{IsSameTask, do_lru-Trimmed}
use oprofile.Base.{
  ℕ, ◌+◌, ◌<◌, ◌≡◌, refl, sym, ap, subst, ◌∙◌, inl, inr, Bool, true, false, ◌||◌, Bool-cases,
  Option, some, none, Option-cases, List, [], ◌∷◌, ◌++◌, length, length-append, length-drop, drop,
  ltb, ◌==◌, ==_iff, ==_refl, ==_ne, arith, if◌then◌else◌,
}

-- Sound lists, below the limit.
pub record IsGood (w : Anons) : Type 0 where
  pub sound : IsSound w
  pub bound : w.nr_lru < 8192

IsLive-before :
    (m : AnonEntry) (es : List AnonEntry) (o : Option ℕ) → IsLive es o → IsLive (es ++ (m ∷ [])) o
IsLive-before m es none l = tt
IsLive-before m es (some p) (e, i, a) = (e, In_before e m es i, a)

-- A mapping at an address that was not given out.
module _ (m : AnonEntry) (w : Anons) (s : IsSound w) (new : m.address ≡ w.next) where
  apart : (e : AnonEntry) → In e w.lru → (m.address == e.address) ≡ false
  apart e i = ==_ne m.address e.address (λ q. absurd (omega (arith, q, new, s.fresh e i)))

  hash : ℕ
  hash = hash_anon m.mapping.tgid m.mapping.app_cookie

  table_listed :
      (h : ℕ) (b : Bool)
      → ((h == hash) ≡ b)
      → (e : AnonEntry) → In e (if b then w.hashes h ++ (m ∷ []) else w.hashes h)
      → In e (w.lru ++ (m ∷ [])) × (hash_anon e.mapping.tgid e.mapping.app_cookie ≡ h)
  unfolding hash
  table_listed h false q e i = let (j, k) = s.listed h e i in (In_before e m w.lru j, k)
  table_listed h true q e i = elim (In_last e m (w.hashes h) i) [
    | inl j ↦ let (j', k) = s.listed h e j in (In_before e m w.lru j', k)
    | inr same ↦ (
      subst (λ (x : AnonEntry). In x (w.lru ++ (m ∷ []))) (sym same) (In_end m w.lru),
      ap (λ (x : AnonEntry). hash_anon x.mapping.tgid x.mapping.app_cookie) same
          ∙ sym ((==_iff h _).0 q),
    )
  ]

  table_before :
      (h : ℕ) (b : Bool) (e : AnonEntry)
      → In e (w.hashes h)
      → In e (if b then w.hashes h ++ (m ∷ []) else w.hashes h)
  table_before h false e i = i
  table_before h true e i = In_before e m (w.hashes h) i

  table-IsDistinct :
      (h : ℕ) (b : Bool) → IsDistinct (if b then w.hashes h ++ (m ∷ []) else w.hashes h)
  table-IsDistinct h false = s.each_distinct h
  table-IsDistinct h true =
      append-IsDistinct m (w.hashes h) (λ e i. apart e (s.listed h e i).0) (s.each_distinct h)

  table_new : In m (if (hash == hash) then w.hashes hash ++ (m ∷ []) else w.hashes hash)
  table_new =
      subst (λ b. In m (if b then w.hashes hash ++ (m ∷ []) else w.hashes hash))
        (sym (==_refl hash)) (In_end m (w.hashes hash))

  pub linked-IsSound : IsSound (linked m w)
  unfolding linked hash
  linked-IsSound = record {
    listed = λ h e i. table_listed h (h == hash) refl e i;
    hashed = λ e i. elim (In_last e m w.lru i) [
      | inl j ↦ table_before _ (_ == hash) e (s.hashed e j)
      | inr same ↦
          subst
            (λ (x : AnonEntry). In x (
              if (hash_anon x.mapping.tgid x.mapping.app_cookie == hash)
              then w.hashes (hash_anon x.mapping.tgid x.mapping.app_cookie) ++ (m ∷ [])
              else w.hashes (hash_anon x.mapping.tgid x.mapping.app_cookie)))
            (sym same) table_new
    ];
    distinct = append-IsDistinct m w.lru apart s.distinct;
    each_distinct = λ h. table-IsDistinct h (h == hash);
    fresh = λ e i. elim (In_last e m w.lru i) [
      | inl j ↦ omega (arith, s.fresh e j)
      | inr same ↦ omega (arith, ap (λ (x : AnonEntry). x.address) same, new)
    ];
    counted = omega (arith, s.counted, length-append w.lru (m ∷ []));
    anon_live = IsLive-before m w.lru w.trans.anon s.anon_live;
    last_live = IsLive-before m w.lru w.trans.last_anon s.last_live;
    files_sound = s.files_sound;
    files_live = λ sf i. IsLive-before m w.lru sf.anon (s.files_live sf i);
  }

-- What the adding of mappings keeps.
pub record Added (w w' : Anons) : Type 0 where
  pub good : IsGood w'
  pub same_task : IsSameTask w w'

add_anon_mapping-Added :
    (w : Anons) (start end : ℕ) (name : List ℕ)
    → IsGood w
    → Added w (add_anon_mapping w start end name)
unfolding add_anon_mapping linked
add_anon_mapping-Added w start end name g =
    let m = new_mapping w start end name in
    let s = linked-IsSound m w g.sound refl in
    let bound = g.bound in
    elim (Bool-cases ((w.nr_lru + 1) == lru_size)) [
      | inl y ↦
          let r = do_lru-Trimmed (linked m w) s in
          let full : w.nr_lru + 1 ≡ 8192 = (==_iff _ _).0 y in
          let size : (do_lru (linked m w)).nr_lru ≡ length (drop 1025 (linked m w).lru) =
            r.sound.counted ∙ ap length r.lru_rest in
          rw (add_anon_mapping, y)
            (record {
              good = record {
                sound = r.sound;
                bound = omega (arith, size, length-drop 1025 (linked m w).lru, s.counted, full);
              };
              same_task = r.same_task;
            })
      | inr n ↦
          rw (add_anon_mapping, n)
            (record {
              good = record { sound = s; bound = ground (arith, bound, n) };
              same_task = (refl, refl, refl);
            })
    ]

add_lines-Added : (lines : List MapsLine) (w : Anons) → IsGood w → Added w (add_lines lines w)
unfolding add_lines
add_lines-Added [] w g = record { good = g; same_task = (refl, refl, refl) }
add_lines-Added (line ∷ lines) w g =
    elim (Bool-cases (ltb line.ret 6 || begins_with_slash (maps_name line))) [
      | inl y ↦ rw (add_lines, y) (add_lines-Added lines w g)
      | inr n ↦
          let a = add_anon_mapping-Added w line.start line.end (maps_name line) g in
          let r =
            add_lines-Added lines (add_anon_mapping w line.start line.end (maps_name line))
              a.good in
          let (x, y, z) = r.same_task in
          let (x', y', z') = a.same_task in
          rw (add_lines, n) (record { good = r.good; same_task = (x ∙ x', y ∙ y', z ∙ z') })
    ]

module _ (maps : ℕ → Option (List MapsLine)) where
  pub get_anon_maps-Added : (w : Anons) → IsGood w → Added w (get_anon_maps maps w)
  unfolding get_anon_maps
  get_anon_maps-Added w g = elim (Option-cases (maps w.trans.tgid)) [
    | inl n ↦ rw (get_anon_maps, n) (record { good = g; same_task = (refl, refl, refl) })
    | inr (lines, e) ↦ rw (get_anon_maps, e) (add_lines-Added lines w g)
  ]
