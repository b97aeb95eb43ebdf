-- ===== src/Odb/Registry/Calls.antt =====
-- Sequences of `odb_open` and `odb_close` (libdb/db_manage.c), each close of a file that is held.
use mathlib.Core.Option
use oprofile.Base.{
  u32, ℕ, ◌+◌, ◌-◌, ◌%◌, ◌^◌, ◌≤◌, ◌<◌, ◌≡◌, ◌≢◌, ◌↔◌, refl, sym, ap, subst, Bool, true, inl, inr,
  Option, some, none, List, [], ◌∷◌, length, get_elem?, ◌==◌, if◌then◌else◌, arith, Bool-cases,
  ==_ne, ==_refl, Option-cases,
}
use oprofile.Odb.Open.{SampleFile, OpenCalls, OpenResult, opened, failed, map_file}
use oprofile.Odb.Registry.{
  Entry, Registry, Lookup, hit, miss, freed, put, hash_of, find_samples_data, share, register,
  odb_open, release, odb_close,
}
use oprofile.Odb.Registry.Shared.{
  count, count-length, drop_at, count-drop_at, length-drop_at, Shared, IsShared, Meets, find-Meets,
}
use oprofile.Odb.Registry.Changes.{recount, recount-IsShared, dropped, dropped-IsShared}
use oprofile.Odb.Registry.Added.{registered-IsShared}

-- What a client does: it opens a file in a new `odb_t`, or closes the `i`th that it has open.
pub data Call : Type 0 where
  open_file : OpenCalls → Bool → ℕ → SampleFile → List ℕ → Call
  close_file : ℕ → Call

-- A success gives the client a pointer to hold.
unfoldable pub taken : List ℕ → Registry × Option ℕ × ℕ → Shared
taken holders (r, some p, err) = record { registry = r; holders = p ∷ holders }
taken holders (r, none, err) = record { registry = r; holders = holders }

abbrev pub close_at : ℕ → Shared → Option ℕ → Option Shared
close_at i s none = some s
close_at i s (some p) =
    Option.map (λ c. record { registry = c.0; holders = drop_at i s.holders })
      (odb_close (some p) s.registry)

module _ (same : List ℕ → List ℕ → Bool) where
  unfoldable pub play : Call → Shared → Option Shared
  unfolding taken
  play (open_file calls rdonly sizeof_header file filename) s =
      Option.map (taken s.holders)
        (odb_open same calls rdonly sizeof_header file filename none s.registry)
  play (close_file i) s = close_at i s (get_elem? s.holders i)

  unfoldable pub play_all : List Call → Shared → Option Shared
  play_all [] s = some s
  play_all (c ∷ cs) s = elim (play c s) [ some s' ↦ play_all cs s' | none ↦ none ]

-- A step that touches no freed memory, and leaves the files shared among at most `n` holders.
abbrev pub Shares : ℕ → Option Shared → Type 0
Shares n none = ⊥
Shares n (some s) = IsShared s × (length s.holders ≤ n)

module _ (s : Shared) (ok : IsShared s) (n : ℕ) (few : length s.holders ≤ n)
    (small : n + 1 < u32) where
  -- One more holder of a live file.
  module _ (p : ℕ) (e : Entry) (h : s.registry.heap p ≡ some e) where
    counts : e.ref_count ≡ count p s.holders
    counts = let (_, c, _, _) = ok.live p e h in c

    share-recount :
        Option.map (taken s.holders) (share p s.registry) ≡ some (recount s p e (p ∷ s.holders))
    unfolding taken share count
    share-recount =
        let n : (e.ref_count + 1) % u32 ≡ count p s.holders + 1 =
          omega (arith, counts, count-length p s.holders) in
        rw (share, h, n, ==_refl p) refl

    more_others : (q : ℕ) → q ≢ p → count q (p ∷ s.holders) ≡ count q s.holders
    unfolding count
    more_others q ne = rw (==_ne p q (λ i. ne (sym i))) (omega arith)

    more_pos : 0 < count p (p ∷ s.holders)
    unfolding count
    more_pos = rw (==_refl p) (omega arith)

    share-Shares : Shares (n + 1) (Option.map (taken s.holders) (share p s.registry))
    share-Shares =
        rw share-recount
          (recount-IsShared s ok p e h (p ∷ s.holders) more_others more_pos, omega arith)

  -- One holder less.
  module _ (i p : ℕ) (at : get_elem? s.holders i ≡ some p) where
    less_others : (q : ℕ) → q ≢ p → count q (drop_at i s.holders) ≡ count q s.holders
    less_others q ne =
        let c : count q (drop_at i s.holders) + 0 ≡ count q s.holders =
          rw (==_ne p q (λ j. ne (sym j))) at (count-drop_at i p q s.holders at) in
        omega arith

    less : count p (drop_at i s.holders) + 1 ≡ count p s.holders
    less = rw (==_refl p) at (count-drop_at i p p s.holders at)

    module _ (e : Entry) (h : s.registry.heap p ≡ some e) where
      left : (e.ref_count + u32 - 1) % u32 ≡ count p (drop_at i s.holders)
      left = omega (arith, less, counts p e h, count-length p s.holders)

      close-dropped :
          count p (drop_at i s.holders) ≡ 0
          → close_at i s (some p) ≡ some (dropped s p (drop_at i s.holders))
      unfolding odb_close release
      close-dropped z = rw (odb_close, h, release, left, z) refl

      close-recount :
          count p (drop_at i s.holders) ≢ 0
          → close_at i s (some p) ≡ some (recount s p e (drop_at i s.holders))
      unfolding odb_close release
      close-recount ne = rw (odb_close, h, release, left, ==_ne _ 0 ne) refl

    fewer : length (drop_at i s.holders) ≤ n + 1
    fewer = omega (arith, length-drop_at i s.holders)

    held_by : (e : Entry) × (s.registry.heap p ≡ some e)
    held_by = ok.held p (omega (arith, less))

    close-Shares : Shares (n + 1) (close_at i s (some p))
    close-Shares =
        let (e, h) = held_by in
        elim (Bool-cases (count p (drop_at i s.holders) == 0)) [
          | inl t ↦
              rw (close-dropped e h (ground arith))
                (dropped-IsShared s ok p (drop_at i s.holders) less_others (ground arith), fewer)
          | inr f ↦
              rw (close-recount e h (ground arith)) (
                recount-IsShared s ok p e h (drop_at i s.holders) less_others (ground arith),
                fewer,
              )
        ]

  -- A first holder, or an error.
  module _ (same : List ℕ → List ℕ → Bool) (same_iff : (a b : List ℕ) → (same a b ≡ true) ↔ (a ≡ b))
      (calls : OpenCalls) (rdonly : Bool) (sizeof_header : ℕ) (file : SampleFile)
      (name : List ℕ) where
    mapped-Shares :
        ((q : ℕ) (e : Entry) → s.registry.heap q ≡ some e → e.filename ≢ name)
        → (r : OpenResult)
        → Shares (n + 1) (
            Option.map (taken s.holders) (elim r [
              | opened d ↦ some (register name d s.registry, some s.registry.next, 0)
              | failed err ↦ some (s.registry, (if calls.open_errno == 0 then none else none), err)
            ]))
    unfolding taken
    mapped-Shares new (opened d) = (registered-IsShared s ok name d new, omega arith)
    mapped-Shares new (failed err) = elim (Bool-cases (calls.open_errno == 0)) [
      | inl t ↦ rw t (ok, omega arith)
      | inr f ↦ rw f (ok, omega arith)
    ]

    abbrev on_list : List ℕ
    on_list = s.registry.files_hash (hash_of name)

    met :
        Meets same same_iff s.registry.heap name on_list
          (find_samples_data same s.registry.heap name on_list)
    met =
        find-Meets same same_iff s.registry.heap name on_list
          (λ p c. let (e, h, _) = ok.listed _ p c in (e, h))

    looked_up :
        (l : Lookup)
        → Meets same same_iff s.registry.heap name on_list l
        → Shares (n + 1) (
            Option.map (taken s.holders) (elim l [
              | hit p ↦ share p s.registry
              | miss ↦ elim (map_file calls rdonly sizeof_header file) [
                | opened d ↦ some (register name d s.registry, some s.registry.next, 0)
                | failed err ↦
                    some (s.registry, (if calls.open_errno == 0 then none else none), err)
              ]
              | freed ↦ none
            ]))
    looked_up (hit p) (c, e, h, same_name) = share-Shares p e h
    looked_up miss m =
        mapped-Shares
          (λ q e h i.
            let (on, _, _, _) = ok.live q e h in
            m q e (subst (λ (x : List ℕ). 0 < count q (s.registry.files_hash (hash_of x))) i on) h
              i)
          (map_file calls rdonly sizeof_header file)
    looked_up freed m = absurd m

    open-Shares : Shares (n + 1) (
        Option.map
          (taken s.holders)
          (odb_open same calls rdonly sizeof_header file name none s.registry))
    unfolding odb_open
    open-Shares = looked_up _ met

module _ (same : List ℕ → List ℕ → Bool)
    (same_iff : (a b : List ℕ) → (same a b ≡ true) ↔ (a ≡ b)) where
  play-Shares :
      (c : Call) (s : Shared) (n : ℕ)
      → IsShared s
      → length s.holders ≤ n
      → n + 1 < u32
      → Shares (n + 1) (play same c s)
  unfolding play
  play-Shares (open_file calls rdonly sizeof_header file name) s n ok few small =
      open-Shares s ok n few small same same_iff calls rdonly sizeof_header file name
  play-Shares (close_file i) s n ok few small = elim (Option-cases (get_elem? s.holders i)) [
    | inl e ↦ rw e (ok, omega arith)
    | inr (p, e) ↦ rw e (close-Shares s ok n few small i p e)
  ]

  -- What follows a step without an error.
  play_next :
      (cs : List Call) (n : ℕ) (r : Option Shared)
      → Shares n r
      → ((s₁ : Shared)
          → IsShared s₁
          → length s₁.holders ≤ n
          → (s' : Shared) × (play_all same cs s₁ ≡ some s') × IsShared s')
      → (s' : Shared) × ((elim r [ some s' ↦ play_all same cs s' | none ↦ none ]) ≡ some s')
        × IsShared s'
  play_next cs n none l next = absurd l
  play_next cs n (some s₁) (ok₁, few₁) next = next s₁ ok₁ few₁

  -- Any sequence of opens (each of a new odb_t, with any answers of the system calls) and of
  -- closes of files that are held, fewer than 2^31 together with the holders at the start, runs
  -- without an access to freed memory and keeps the registry: each file is on the list of its
  -- name, no two live files have one name, the reference count of each is the number of its
  -- holders and is not 0, and all that is held is live.
  pub play_all-IsShared :
      (cs : List Call) (s : Shared)
      → IsShared s
      → length s.holders + length cs < 2 ^ 31
      → (s' : Shared) × (play_all same cs s ≡ some s') × IsShared s'
  unfolding play_all
  play_all-IsShared [] s ok few = (s, refl, ok)
  play_all-IsShared (c ∷ cs) s ok few =
      play_next cs (length s.holders + 1) (play same c s)
        (play-Shares c s (length s.holders) ok (omega arith) (omega arith))
        (λ s₁ ok₁ few₁. play_all-IsShared cs s₁ ok₁ (omega arith))

  -- The walk for the name of a live file meets that file.
  Meets-live :
      (s : Shared)
      → IsShared s
      → (p : ℕ) (e : Entry) → s.registry.heap p ≡ some e
      → (l : Lookup)
      → Meets same same_iff s.registry.heap e.filename
          (s.registry.files_hash (hash_of e.filename))
          l
      → l ≡ hit p
  Meets-live s ok p e h (hit q) (c, e', h', i) = ap hit (ok.unique q p e' e h' h i)
  Meets-live s ok p e h miss m = let (on, _, _, _) = ok.live p e h in absurd (m p e on h refl)
  Meets-live s ok p e h freed m = absurd m

  -- Opening a file whose name is that of a live file gives the client that file, with its
  -- reference count one higher and no system call, whatever the mode, the header's size and the
  -- file on disk.
  pub odb_open-share :
      (s : Shared)
      → IsShared s
      → (p : ℕ) (e : Entry) → s.registry.heap p ≡ some e
      → (calls : OpenCalls) (rdonly : Bool) (sizeof_header : ℕ) (file : SampleFile) (odb : Option ℕ)
      → odb_open same calls rdonly sizeof_header file e.filename odb s.registry
        ≡ some (
          record (s.registry) {
            heap = put p (some (record e { ref_count = (e.ref_count + 1) % u32 })) s.registry.heap;
          },
          some p,
          0,
        )
  unfolding odb_open share
  odb_open-share s ok p e h calls rdonly sizeof_header file odb =
      let l =
        find-Meets same same_iff s.registry.heap e.filename
          (s.registry.files_hash (hash_of e.filename))
          (λ q c. let (e', h', _) = ok.listed _ q c in (e', h')) in
      rw (odb_open, Meets-live s ok p e h _ l, share, h) refl
