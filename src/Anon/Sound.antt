-- ===== src/Anon/Sound.antt =====
-- The lists of mappings, the context's pointers into them and the sample files' (daemon/opd_anon.c).
use oprofile.Anon.{AnonEntry, Anons, hash_anon, unlink, free_mapping, forget_last}
use oprofile.Anon.Laws.{In, IsDistinct, In-unlink, unlink-In, unlink-IsDistinct, length-unlink}
use oprofile.Sfile.{Sfile, is_same, Transient}
use oprofile.Sfile.Clear.{for_each_sfile, is_sfile_anon}
use oprofile.Sfile.Members
use oprofile.Sfile.Sound
use oprofile.Sfile.Sound.{walk-Walked}
use oprofile.Trans.{clear_trans_last}
use oprofile.Base.{
  ℕ, ◌<◌, ◌≡◌, refl, ap, ◌∙◌, inl, inr, false, Bool-cases, Option, some, none, List, length, ◌==◌,
  arith,
}

-- The pointer is null, or of a mapping on the list.
abbrev pub IsLive : List AnonEntry → Option ℕ → Type 0
IsLive es none = Unit
IsLive es (some p) = (e : AnonEntry) × In e es × (e.address ≡ p)

pub record IsSound (w : Anons) : Type 0 where
  pub listed :
      (h : ℕ) (e : AnonEntry)
      → In e (w.hashes h)
      → In e w.lru × (hash_anon e.mapping.tgid e.mapping.app_cookie ≡ h)
  pub hashed :
      (e : AnonEntry) → In e w.lru → In e (w.hashes (hash_anon e.mapping.tgid e.mapping.app_cookie))
  pub distinct : IsDistinct w.lru
  pub each_distinct : (h : ℕ) → IsDistinct (w.hashes h)
  pub fresh : (e : AnonEntry) → In e w.lru → e.address < w.next
  pub counted : w.nr_lru ≡ length w.lru
  pub anon_live : IsLive w.lru w.trans.anon
  pub last_live : IsLive w.lru w.trans.last_anon
  pub files_sound : Sound.IsSound w.files
  pub files_live : (sf : Sfile) → Members.In sf w.files.lru_list → IsLive w.lru sf.anon

pub IsLive-unlink :
    (p : ℕ) (es : List AnonEntry) (o : Option ℕ)
    → IsLive es o
    → is_same o (some p) ≡ false
    → IsLive (unlink p es) o
unfolding is_same
IsLive-unlink p es none l h = tt
IsLive-unlink p es (some q) (e, m, a) h = (e, unlink-In e p es m (ap (λ k. k == p) a ∙ h), a)

pub free_mapping-IsSound :
    (e : AnonEntry) (w : Anons)
    → IsSound w
    → In e w.lru
    → is_same w.trans.anon (some e.address) ≡ false
    → is_same w.trans.last_anon (some e.address) ≡ false
    → IsSound (free_mapping e w)
unfolding free_mapping for_each_sfile is_sfile_anon
free_mapping-IsSound e w s m ha hl =
    let r = walk-Walked (is_sfile_anon e.address) w.files.lru_list w.files s.files_sound in
    record {
      listed = λ h x i.
          let (j, n) = In-unlink x e.address (w.hashes h) i in
          let (k, q) = s.listed h x j in (unlink-In x e.address w.lru k n, q);
      hashed = λ x i.
          let (j, n) = In-unlink x e.address w.lru i in unlink-In x e.address _ (s.hashed x j) n;
      distinct = unlink-IsDistinct e.address w.lru s.distinct;
      each_distinct = λ h. unlink-IsDistinct e.address (w.hashes h) (s.each_distinct h);
      fresh = λ x i. s.fresh x (In-unlink x e.address w.lru i).0;
      counted = omega (arith, s.counted, length-unlink e w.lru s.distinct m);
      anon_live = IsLive-unlink e.address w.lru w.trans.anon s.anon_live ha;
      last_live = IsLive-unlink e.address w.lru w.trans.last_anon s.last_live hl;
      files_sound = r.sound;
      files_live = λ sf i.
          IsLive-unlink e.address w.lru sf.anon (s.files_live sf (r.before sf i))
            (r.spared sf i (r.before sf i));
    }

-- Another context, with live pointers.
pub with_trans-IsSound :
    (w : Anons) (t : Transient)
    → IsSound w
    → IsLive w.lru t.anon
    → IsLive w.lru t.last_anon
    → IsSound (record w { trans = t })
with_trans-IsSound w t s a l = record {
  listed = s.listed;
  hashed = s.hashed;
  distinct = s.distinct;
  each_distinct = s.each_distinct;
  fresh = s.fresh;
  counted = s.counted;
  anon_live = a;
  last_live = l;
  files_sound = s.files_sound;
  files_live = s.files_live;
}

-- What forgetting a mapping leaves: the lists, and no pointer of the context to it.
pub record Forgotten (e : AnonEntry) (w w' : Anons) : Type 0 where
  pub sound : IsSound w'
  pub same_lru : w'.lru ≡ w.lru
  pub same_hashes : w'.hashes ≡ w.hashes
  pub same_count : w'.nr_lru ≡ w.nr_lru
  pub same_tgid : w'.trans.tgid ≡ w.trans.tgid
  pub same_app : w'.trans.app_cookie ≡ w.trans.app_cookie
  pub same_pc : w'.trans.pc ≡ w.trans.pc
  pub anon_none : w.trans.anon ≡ none → w'.trans.anon ≡ none

pub forget_last-Forgotten :
    (e : AnonEntry) (w : Anons)
    → IsSound w
    → Forgotten e w (forget_last e w)
      × (is_same (forget_last e w).trans.last_anon (some e.address) ≡ false)
      × ((forget_last e w).trans.anon ≡ w.trans.anon)
unfolding is_same
forget_last-Forgotten e w s = elim (Bool-cases (is_same w.trans.last_anon (some e.address))) [
  | inl y ↦ rw y (
    record {
      sound = with_trans-IsSound w (clear_trans_last w.trans) s s.anon_live tt;
      same_lru = refl;
      same_hashes = refl;
      same_count = refl;
      same_tgid = refl;
      same_app = refl;
      same_pc = refl;
      anon_none = λ n. n;
    },
    refl,
    refl,
  )
  | inr n ↦ rw n (
    record {
      sound = s;
      same_lru = refl;
      same_hashes = refl;
      same_count = refl;
      same_tgid = refl;
      same_app = refl;
      same_pc = refl;
      anon_none = λ z. z;
    },
    n,
    refl,
  )
]
