-- ===== src/Sfile/Keys.antt =====
-- What of a context decides its sample file: `sfile_hash` and `do_match` of daemon/opd_sfile.c.
use oprofile.Base.{
  ℕ, ◌%◌, u32, ◌≡◌, refl, sym, ap, ◌∙◌, Bool, true, false, not, ◌&&◌, ◌||◌, inl, inr, Option, some,
  none, ◌==◌, if◌then◌else◌, arith, Bool-cases, ==_iff, ==_refl,
}
use oprofile.Trans.{InKernel, is_user}
use oprofile.Trans
use oprofile.Sfile.{
  AnonMapping, Separate, Sfile, Transient, is_some, is_same, has_app, do_match, trans_match,
  new_sfile,
}

-- A context as a search uses it: with an image in the kernel only, and an anonymous mapping of its
-- own task.
pub record IsConsistent (anon_at : ℕ → AnonMapping) (t : Transient) (ki : Option ℕ) : Type 0 where
  pub modes : is_user t.in_kernel ≡ not (is_some ki)
  pub owned : (a : ℕ) → t.anon ≡ some a → (anon_at a).tgid ≡ t.tgid
  pub mapped : is_some ki ≡ false → t.cookie ≡ Trans.no_cookie → is_some t.anon ≡ true

is_same_eq : (p q : Option ℕ) → is_same p q ≡ true → p ≡ q
unfolding is_same
is_same_eq none none h = refl
is_same_eq none (some q) h = let bad : ⊥ = cc in absurd bad
is_same_eq (some p) none h = let bad : ⊥ = cc in absurd bad
is_same_eq (some p) (some q) h = ap some ((==_iff p q).0 h)

is_same_refl : (p : Option ℕ) → is_same p p ≡ true
unfolding is_same
is_same_refl none = refl
is_same_refl (some p) = ==_refl p

-- The tests of `do_match`, passed.
match_tests :
    (k s i j c m a y ki n x : Bool)
    → (if not k
        then false
        else if s && (not i || not j)
        then false
        else if c && not m
        then false
        else if a && not y
        then false
        else if ki
        then true
        else if not n
        then false
        else x)
      ≡ true
    → (k ≡ true)
      × (s ≡ true → (i ≡ true) × (j ≡ true))
      × (c ≡ true → m ≡ true)
      × (a ≡ true → y ≡ true)
      × (ki ≡ false → (n ≡ true) × (x ≡ true))
match_tests k s i j c m a y ki n x h = ground arith

module _ (separate : Separate) where
  -- Two contexts that belong to one sample file.
  pub record IsSameKey (t : Transient) (ki : Option ℕ) (t' : Transient) (ki' : Option ℕ)
      : Type 0 where
    pub kernels : ki ≡ ki'
    pub threads : separate.thread ≡ true → (t.tid ≡ t'.tid) × (t.tgid ≡ t'.tgid)
    pub cpus : separate.cpu ≡ true → (t.cpu % u32) ≡ (t'.cpu % u32)
    pub apps : has_app separate t.anon ki ≡ has_app separate t'.anon ki'
    pub app_cookies : has_app separate t.anon ki ≡ true → t.app_cookie ≡ t'.app_cookie
    pub users : is_some ki ≡ false → (t.anon ≡ t'.anon) × (t.cookie ≡ t'.cookie)

  module _ (t : Transient) (ki : Option ℕ) (t' : Transient) (ki' : Option ℕ) where
    has_app_same :
        ki ≡ ki'
        → (is_some ki ≡ false → t.anon ≡ t'.anon)
        → has_app separate t.anon ki ≡ has_app separate t'.anon ki'
    has_app_same e users = elim (Bool-cases (is_some ki)) [
      | inl y ↦ rw (sym e) (rw y (ground arith))
      | inr n ↦ rw (sym e, users n) refl
    ]

    -- A context that matches the file made for another belongs to the same file.
    pub trans_match-IsSameKey :
        (anon_at : ℕ → AnonMapping) (address hash : ℕ) (ignored : Bool)
        → IsConsistent anon_at t ki
        → trans_match separate t'
            (record (new_sfile separate address hash t ki) { ignored = ignored })
            ki'
          ≡ true
        → IsSameKey t ki t' ki'
    unfolding trans_match do_match new_sfile
    trans_match-IsSameKey anon_at address hash ignored c h =
        let (k, th, cp, ap', us) = match_tests _ _ _ _ _ _ _ _ _ _ _ h in
        let e : ki ≡ ki' = is_same_eq ki ki' k in
        let users : is_some ki ≡ false → (t.anon ≡ t'.anon) × (t.cookie ≡ t'.cookie) = λ n.
          let (o, q) = us (ap is_some (sym e) ∙ n) in
          let m : is_user t.in_kernel ≡ true = c.modes ∙ ap not n in
          (is_same_eq _ _ o, (==_iff _ _).0 (rw m at q)) in
        let apps = has_app_same e (λ n. (users n).0) in
        record {
          kernels = e;
          threads = λ on.
              let (i, j) = th on in ((==_iff _ _).0 (rw on at i), (==_iff _ _).0 (rw on at j));
          cpus = λ on. (==_iff _ _).0 (rw on at (cp on));
          apps = apps;
          app_cookies = λ on. (==_iff _ _).0 (rw on at (ap' (sym apps ∙ on)));
          users = users;
        }

  -- A file is found again by the context that it was made for.
  pub trans_match-new_sfile :
      (t : Transient) (ki : Option ℕ) (address hash : ℕ) (ignored : Bool)
      → is_user t.in_kernel ≡ not (is_some ki)
      → trans_match separate t
          (record (new_sfile separate address hash t ki) { ignored = ignored })
          ki
        ≡ true
  unfolding trans_match do_match new_sfile
  trans_match-new_sfile t ki address hash ignored modes =
      rw (is_same_refl ki, is_same_refl t.anon)
        (ground (
          arith,
          ==_refl t.tid,
          ==_refl t.tgid,
          ==_refl (t.cpu % u32),
          ==_refl t.app_cookie,
          ==_refl t.cookie,
        ))

  trans_match_tests :
      (t : Transient) (ki : Option ℕ) (sf : Sfile)
      → trans_match separate t sf ki ≡ true
      → (is_same sf.kernel ki ≡ true)
        × (separate.thread ≡ true → ((sf.tid == t.tid) ≡ true) × ((sf.tgid == t.tgid) ≡ true))
        × (separate.cpu ≡ true → (sf.cpu == (t.cpu % u32)) ≡ true)
        × (has_app separate t.anon ki ≡ true → (sf.app_cookie == t.app_cookie) ≡ true)
        × (is_some ki ≡ false → (is_same sf.anon t.anon ≡ true) × ((sf.cookie == t.cookie) ≡ true))
  unfolding trans_match do_match
  trans_match_tests t ki sf h =
      match_tests _ _ _ _ _ _ _ _ _ (is_same sf.anon t.anon) (sf.cookie == t.cookie) h

  -- Contexts that match one file belong together.
  pub trans_match-both :
      (t : Transient) (ki : Option ℕ) (t' : Transient) (ki' : Option ℕ) (sf : Sfile)
      → trans_match separate t sf ki ≡ true
      → trans_match separate t' sf ki' ≡ true
      → IsSameKey t ki t' ki'
  trans_match-both t ki t' ki' sf h h' =
      let (k, th, cp, ap₁, us) = trans_match_tests t ki sf h in
      let (k', th', cp', ap₂, us') = trans_match_tests t' ki' sf h' in
      let e : ki ≡ ki' = sym (is_same_eq _ _ k) ∙ is_same_eq _ _ k' in
      let users : is_some ki ≡ false → (t.anon ≡ t'.anon) × (t.cookie ≡ t'.cookie) = λ n.
        let (o, q) = us n in
        let (o', q') = us' (ap is_some (sym e) ∙ n) in
        (sym (is_same_eq _ _ o) ∙ is_same_eq _ _ o', sym ((==_iff _ _).0 q) ∙ (==_iff _ _).0 q') in
      let apps = has_app_same t ki t' ki' e (λ n. (users n).0) in
      record {
        kernels = e;
        threads = λ on.
            let (i, j) = th on in
            let (i', j') = th' on in
            (
              sym ((==_iff _ _).0 i) ∙ (==_iff _ _).0 i',
              sym ((==_iff _ _).0 j) ∙ (==_iff _ _).0 j',
            );
        cpus = λ on. sym ((==_iff _ _).0 (cp on)) ∙ (==_iff _ _).0 (cp' on);
        apps = apps;
        app_cookies = λ on. sym ((==_iff _ _).0 (ap₁ on)) ∙ (==_iff _ _).0 (ap₂ (sym apps ∙ on));
        users = users;
      }
