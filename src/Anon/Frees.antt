-- ===== src/Anon/Frees.antt =====
-- The freeing of mappings: `do_lru` and `clear_anon_maps` of daemon/opd_anon.c.
use oprofile.Anon.{
  AnonEntry, Anons, unlink, free_mapping, kill_oldest, forget_current, forget_last, do_lru_from,
  do_lru, clear_from, clear_anon_maps, is_of, hash_anon,
}
use oprofile.Anon.Laws.{In, IsDistinct, unlink-In, unlink-head}
use oprofile.Anon.Sound.{
  IsSound, Forgotten, free_mapping-IsSound, with_trans-IsSound, forget_last-Forgotten,
}
use oprofile.Sfile.{is_same}
use oprofile.Trans.{clear_trans_current}
use oprofile.Base.{
  ℕ, zero, suc, ◌-◌, ◌≤◌, ◌≡◌, refl, sym, ap, subst, ◌∙◌, inl, inr, false, Bool-cases, some, none,
  List, [], ◌∷◌, drop, arith,
}

-- The task, its program and its counter are the same.
abbrev pub IsSameTask : Anons → Anons → Type 0
IsSameTask w w' =
    (w'.trans.tgid ≡ w.trans.tgid)
    × (w'.trans.app_cookie ≡ w.trans.app_cookie)
    × (w'.trans.pc ≡ w.trans.pc)

forget_current-Forgotten :
    (e : AnonEntry) (w : Anons)
    → IsSound w
    → Forgotten e w (forget_current e w)
      × (is_same (forget_current e w).trans.anon (some e.address) ≡ false)
unfolding is_same
forget_current-Forgotten e w s = elim (Bool-cases (is_same w.trans.anon (some e.address))) [
  | inl y ↦ rw y (
    record {
      sound = with_trans-IsSound w (clear_trans_current w.trans) s tt s.last_live;
      same_lru = refl;
      same_hashes = refl;
      same_count = refl;
      same_tgid = refl;
      same_app = refl;
      same_pc = refl;
      anon_none = λ n. refl;
    },
    refl,
  )
  | inr n ↦ rw n (
    record {
      sound = s;
      same_lru = refl;
      same_hashes = refl;
      same_count = refl;
      same_tgid = refl;
      same_app = refl;
      same_pc = refl;
      anon_none = λ z. z;
    },
    n,
  )
]

-- A mapping killed: the lists without it, and sound.
pub record Killed (e : AnonEntry) (w w' : Anons) : Type 0 where
  pub sound : IsSound w'
  pub lru_less : w'.lru ≡ unlink e.address w.lru
  pub count_less : w'.nr_lru ≡ w.nr_lru - 1
  pub same_task : IsSameTask w w'

pub kill_oldest-Killed :
    (e : AnonEntry) (w : Anons) → IsSound w → In e w.lru → Killed e w (kill_oldest e w)
unfolding kill_oldest free_mapping
kill_oldest-Killed e w s m =
    let (f, a) = forget_current-Forgotten e w s in
    let (g, l, same) = forget_last-Forgotten e (forget_current e w) f.sound in
    let m' : In e (forget_last e (forget_current e w)).lru = rw (g.same_lru, f.same_lru) m in
    record {
      sound = free_mapping-IsSound e _ g.sound m' (ap (λ o. is_same o (some e.address)) same ∙ a) l;
      lru_less = ap (unlink e.address) (g.same_lru ∙ f.same_lru);
      count_less = ap (λ n. n - 1) (g.same_count ∙ f.same_count);
      same_task = (g.same_tgid ∙ f.same_tgid, g.same_app ∙ f.same_app, g.same_pc ∙ f.same_pc);
    }

-- The oldest mappings go, one more than the number.
pub record Trimmed (n : ℕ) (w w' : Anons) : Type 0 where
  pub sound : IsSound w'
  pub lru_rest : w'.lru ≡ drop (suc n) w.lru
  pub same_task : IsSameTask w w'

lru_behind :
    (e : AnonEntry) (es : List AnonEntry) (w w' : Anons)
    → IsSound w
    → w.lru ≡ e ∷ es
    → Killed e w w'
    → w'.lru ≡ es
lru_behind e es w w' s q k =
    k.lru_less ∙ ap (unlink e.address) q ∙ unlink-head e es (subst IsDistinct q s.distinct)

do_lru_from-Trimmed :
    (n : ℕ) (es : List AnonEntry) (w : Anons)
    → IsSound w
    → w.lru ≡ es
    → Trimmed n w (do_lru_from n es w)
unfolding do_lru_from In
do_lru_from-Trimmed n [] w s q = record {
  sound = s;
  lru_rest = q ∙ sym (ap (drop (suc n)) q);
  same_task = (refl, refl, refl);
}
do_lru_from-Trimmed zero (e ∷ es) w s q =
    let k = kill_oldest-Killed e w s (rw q (inl refl)) in
    record {
      sound = k.sound;
      lru_rest = lru_behind e es w (kill_oldest e w) s q k ∙ sym (ap (drop 1) q);
      same_task = k.same_task;
    }
do_lru_from-Trimmed (suc n) (e ∷ es) w s q =
    let k = kill_oldest-Killed e w s (rw q (inl refl)) in
    let rest = lru_behind e es w (kill_oldest e w) s q k in
    let r = do_lru_from-Trimmed n es (kill_oldest e w) k.sound rest in
    let (a, b, c) = r.same_task in
    let (a', b', c') = k.same_task in
    record {
      sound = r.sound;
      lru_rest = r.lru_rest ∙ ap (drop (suc n)) rest ∙ sym (ap (drop (suc (suc n))) q);
      same_task = (a ∙ a', b ∙ b', c ∙ c');
    }

-- On sound lists do_lru keeps all mappings but the first 1025 of the list, in their order, and
-- leaves the lists, the context's pointers and the sample files sound, and the context's task and
-- counter.
pub do_lru-Trimmed : (w : Anons) → IsSound w → Trimmed 1024 w (do_lru w)
unfolding do_lru
do_lru-Trimmed w s = do_lru_from-Trimmed 1024 w.lru w s refl

-- What the clearing of a task's mappings keeps.
pub record Cleared (w w' : Anons) : Type 0 where
  pub sound : IsSound w'
  pub count_less : w'.nr_lru ≤ w.nr_lru
  pub same_task : IsSameTask w w'

cleared_one :
    (e : AnonEntry) (w : Anons)
    → IsSound w
    → In e w.lru
    → w.trans.anon ≡ none
    → Killed e w (free_mapping e (forget_last e w))
      × ((free_mapping e (forget_last e w)).trans.anon ≡ none)
unfolding free_mapping is_same
cleared_one e w s m n =
    let (g, l, same) = forget_last-Forgotten e w s in
    let a : is_same (forget_last e w).trans.anon (some e.address) ≡ false = rw (same, n) refl in
    (
      record {
        sound = free_mapping-IsSound e _ g.sound (rw g.same_lru m) a l;
        lru_less = ap (unlink e.address) g.same_lru;
        count_less = ap (λ n. n - 1) g.same_count;
        same_task = (g.same_tgid, g.same_app, g.same_pc);
      },
      same ∙ n,
    )

clear_from-Cleared :
    (tgid app : ℕ) (es : List AnonEntry) (w : Anons)
    → IsSound w
    → w.trans.anon ≡ none
    → IsDistinct es
    → ((e : AnonEntry) → In e es → In e w.lru)
    → Cleared w (clear_from tgid app es w)
unfolding clear_from In IsDistinct
clear_from-Cleared tgid app [] w s n d m = record {
  sound = s;
  count_less = omega arith;
  same_task = (refl, refl, refl);
}
clear_from-Cleared tgid app (e ∷ es) w s n (h, d) m = elim (Bool-cases (is_of tgid app e)) [
  | inl y ↦
      let (k, n') = cleared_one e w s (m e (inl refl)) n in
      let r =
        clear_from-Cleared tgid app es (free_mapping e (forget_last e w)) k.sound n' d
          (λ x i. rw k.lru_less (unlink-In x e.address w.lru (m x (inr i)) (h x i))) in
      let (a, b, c) = r.same_task in
      let (a', b', c') = k.same_task in
      rw (clear_from, y)
        (record {
          sound = r.sound;
          count_less = omega (arith, r.count_less, k.count_less);
          same_task = (a ∙ a', b ∙ b', c ∙ c');
        })
  | inr f ↦ rw (clear_from, f) (clear_from-Cleared tgid app es w s n d (λ x i. m x (inr i)))
]

pub clear_anon_maps-Cleared : (w : Anons) → IsSound w → Cleared w (clear_anon_maps w)
unfolding clear_anon_maps
clear_anon_maps-Cleared w s =
    let hash = hash_anon w.trans.tgid w.trans.app_cookie in
    let s' = with_trans-IsSound w (clear_trans_current w.trans) s tt s.last_live in
    let r =
      clear_from-Cleared w.trans.tgid w.trans.app_cookie (w.hashes hash)
        (record w { trans = clear_trans_current w.trans }) s' refl (s.each_distinct hash)
        (λ e i. (s.listed hash e i).0) in
    record { sound = r.sound; count_less = r.count_less; same_task = r.same_task }
