-- ===== src/Sfile/Hash.antt =====
-- The hash and the match of a sample file depend on what decides the file only
-- (daemon/opd_sfile.c).
use oprofile.Base.{
  ℕ, ◌+◌, ◌/◌, ◌^◌, bit_and, bit_xor, ◌≡◌, refl, sym, ap, ◌∙◌, Bool, true, false, not, ◌&&◌, ◌||◌,
  inl, inr, Option, some, none, ◌==◌, if◌then◌else◌, Bool-cases, ==_iff, arith,
}
use oprofile.Base.Masks.{
  AgreeBelow, AgreeBelow-refl, AgreeBelow-bit_xor, AgreeBelow-bit_and, AgreeBelow-u32,
}
use oprofile.Trans.{InKernel, is_user}
use oprofile.Trans
use oprofile.Kernel.{KernelImage}
use oprofile.Cookie.{dcookie_shift}
use oprofile.Sfile.{
  AnonMapping, Separate, Sfile, Transient, is_some, is_same, shifted, has_app, image_bits,
  anon_bits, hash_bits, common_bits, sfile_hash, do_match, trans_match,
}
use oprofile.Sfile.Keys.{IsConsistent, IsSameKey}

is_some_with : (p : Option ℕ) → is_some p ≡ true → (a : ℕ) × (p ≡ some a)
is_some_with none h = let bad : ⊥ = cc in absurd bad
is_some_with (some a) h = (a, refl)

-- A test behind another.
guarded : (b x y : Bool) → (b ≡ true → x ≡ y) → (b && x) ≡ (b && y)
guarded true x y h = h refl
guarded false x y h = refl

guarded_else :
    {A : Type 0}
    → (b : Bool) (v x y : A) → (b ≡ false → x ≡ y)
    → (if b then v else x) ≡ (if b then v else y)
guarded_else true v x y h = refl
guarded_else false v x y h = h refl

guarded_then :
    {A : Type 0}
    → (b : Bool) (v x y : A) → (b ≡ true → x ≡ y)
    → (if b then x else v) ≡ (if b then y else v)
guarded_then true v x y h = h refl
guarded_then false v x y h = refl

abbrev passes : Bool → Bool → Bool → Bool → Bool → Bool
passes k th cp ap' rest =
    if not k then false else if th then false else if cp then false else if ap' then false else rest

masked : (v v' : ℕ) → AgreeBelow 11 v v' → bit_and v hash_bits ≡ bit_and v' hash_bits
masked v v' h = AgreeBelow-bit_and 11 v v' hash_bits (omega arith) h

xored : (v v' b : ℕ) → AgreeBelow 11 v v' → AgreeBelow 11 (bit_xor v b) (bit_xor v' b)
xored v v' b h = AgreeBelow-bit_xor 11 v v' b b h (AgreeBelow-refl 11 b)

image_bits-AgreeBelow :
    (image_at : ℕ → KernelImage) (ki : Option ℕ) (v v' : ℕ)
    → AgreeBelow 11 v v'
    → AgreeBelow 11 (image_bits image_at v ki) (image_bits image_at v' ki)
image_bits-AgreeBelow image_at none v v' h = h
image_bits-AgreeBelow image_at (some ki) v v' h = xored _ _ _ (xored v v' _ h)

anon_bits-AgreeBelow :
    (anon_at : ℕ → AnonMapping) (anon : Option ℕ) (v v' : ℕ)
    → AgreeBelow 11 v v'
    → AgreeBelow 11 (anon_bits anon_at v anon) (anon_bits anon_at v' anon)
anon_bits-AgreeBelow anon_at none v v' h = h
anon_bits-AgreeBelow anon_at (some a) v v' h = xored _ _ _ (xored v v' _ h)

-- The end of `sfile_hash` outside the kernel.
abbrev user_hash : Separate → (ℕ → AnonMapping) → ℕ → ℕ → Option ℕ → ℕ → ℕ
user_hash separate anon_at cookie tgid anon val =
    if not (cookie == Trans.no_cookie)
    then bit_and (bit_xor val (cookie / 2 ^ dcookie_shift)) hash_bits
    else bit_and
        (anon_bits anon_at (if not separate.thread then bit_xor val (shifted tgid) else val) anon)
        hash_bits

user_hash-AgreeBelow :
    (separate : Separate) (anon_at : ℕ → AnonMapping) (cookie tgid : ℕ) (anon : Option ℕ)
    → (v v' : ℕ) → AgreeBelow 11 v v'
    → user_hash separate anon_at cookie tgid anon v ≡ user_hash separate anon_at cookie tgid anon v'
user_hash-AgreeBelow separate anon_at cookie tgid anon v v' h =
    elim (Bool-cases (cookie == Trans.no_cookie)) [
      | inr named ↦ rw named (masked _ _ (xored v v' _ h))
      | inl z ↦ rw z (elim (Bool-cases separate.thread) [
        | inl on ↦ rw on (masked _ _ (anon_bits-AgreeBelow anon_at anon v v' h))
        | inr off ↦ rw off (masked _ _ (anon_bits-AgreeBelow anon_at anon _ _ (xored v v' _ h)))
      ])
    ]

module _ (separate : Separate) where
  module _ (t : Transient) (ki : Option ℕ) (t' : Transient) (ki' : Option ℕ)
      (s : IsSameKey separate t ki t' ki') where
    pub IsSameKey-trans_match :
        (sf : Sfile) → trans_match separate t sf ki ≡ trans_match separate t' sf ki'
    unfolding trans_match do_match
    IsSameKey-trans_match sf =
        let th =
          guarded separate.thread _ _
            (λ on. let (p, q) = s.threads on in λ i. not (sf.tid == p i) || not (sf.tgid == q i)) in
        let cp = guarded separate.cpu _ _ (λ on. λ i. not (sf.cpu == s.cpus on i)) in
        let ap' =
          guarded (has_app separate t.anon ki) _ _
            (λ on. λ i. not (sf.app_cookie == s.app_cookies on i))
          ∙ ap (λ (b : Bool). b && not (sf.app_cookie == t'.app_cookie)) s.apps in
        let rest =
          guarded_else (is_some ki) true _ _ (λ n.
            let (o, q) = s.users n in
            λ i. if not (is_same sf.anon (o i)) then false else sf.cookie == q i)
          ∙ ap
              (λ (k : Option ℕ).
                if is_some k
                then true
                else if not (is_same sf.anon t'.anon)
                then false
                else sf.cookie == t'.cookie)
              s.kernels in
        λ i. passes (is_same sf.kernel (s.kernels i)) (th i) (cp i) (ap' i) (rest i)

    -- Of the cpu, the hash keeps no bit that is cut off.
    IsSameKey-common_bits : AgreeBelow 11 (common_bits separate t ki) (common_bits separate t' ki')
    unfolding common_bits
    IsSameKey-common_bits =
        let th = guarded_then separate.thread 0 _ _ (λ on.
          let (p, q) = s.threads on in λ i. bit_xor (bit_xor 0 (shifted (p i))) (shifted (q i))) in
        let apps : (val : ℕ)
            → (if has_app separate t.anon ki
                then bit_xor val (t.app_cookie / 2 ^ (dcookie_shift + 3))
                else val)
              ≡ (if has_app separate t'.anon ki'
                  then bit_xor val (t'.app_cookie / 2 ^ (dcookie_shift + 3))
                  else val) =
          λ val.
            guarded_then (has_app separate t.anon ki) val _ _
              (λ on. λ i. bit_xor val (s.app_cookies on i / 2 ^ (dcookie_shift + 3)))
            ∙ ap
                (λ (b : Bool).
                  if b then bit_xor val (t'.app_cookie / 2 ^ (dcookie_shift + 3)) else val)
                s.apps in
        let cpus : (val : ℕ)
            → AgreeBelow 11 (if separate.cpu then bit_xor val t.cpu else val)
                (if separate.cpu then bit_xor val t'.cpu else val) =
          λ val. elim (Bool-cases separate.cpu) [
            | inl on ↦ rw on (
                AgreeBelow-bit_xor 11 val val t.cpu t'.cpu (AgreeBelow-refl 11 val)
                  (AgreeBelow-u32 t.cpu t'.cpu (s.cpus on)))
            | inr off ↦ rw off (AgreeBelow-refl 11 val)
          ] in
        rw (th, apps _) (cpus _)

    IsSameKey-tgid :
        (anon_at : ℕ → AnonMapping)
        → IsConsistent anon_at t ki
        → IsConsistent anon_at t' ki'
        → is_some ki ≡ false
        → t.cookie ≡ Trans.no_cookie
        → t.tgid ≡ t'.tgid
    IsSameKey-tgid anon_at c c' n z =
        let (a, found) = is_some_with t.anon (c.mapped n z) in
        sym (c.owned a found) ∙ c'.owned a (sym (s.users n).0 ∙ found)

    IsSameKey-rest :
        (anon_at : ℕ → AnonMapping) (val named : ℕ)
        → IsConsistent anon_at t ki
        → IsConsistent anon_at t' ki'
        → is_some ki ≡ false
        → (if not (t'.cookie == Trans.no_cookie)
            then named
            else bit_and
                (anon_bits anon_at
                  (if not separate.thread then bit_xor val (shifted t.tgid) else val)
                  t'.anon)
                hash_bits)
          ≡ (if not (t'.cookie == Trans.no_cookie)
              then named
              else bit_and
                  (anon_bits anon_at
                    (if not separate.thread then bit_xor val (shifted t'.tgid) else val)
                    t'.anon)
                  hash_bits)
    IsSameKey-rest anon_at val named c c' n = elim (Bool-cases (t'.cookie == Trans.no_cookie)) [
      | inl z ↦
          let q = IsSameKey-tgid anon_at c c' n ((s.users n).1 ∙ (==_iff _ _).0 z) in
          λ i.
            if not (t'.cookie == Trans.no_cookie)
            then named
            else bit_and
                (anon_bits anon_at
                  (if not separate.thread then bit_xor val (shifted (q i)) else val) t'.anon)
                hash_bits
      | inr z ↦ rw z refl
    ]

    pub IsSameKey-sfile_hash :
        (image_at : ℕ → KernelImage) (anon_at : ℕ → AnonMapping)
        → IsConsistent anon_at t ki
        → IsConsistent anon_at t' ki'
        → sfile_hash separate image_at anon_at t ki ≡ sfile_hash separate image_at anon_at t' ki'
    unfolding sfile_hash
    IsSameKey-sfile_hash image_at anon_at c c' =
        let val = common_bits separate t ki in
        let val' = common_bits separate t' ki' in
        let agree = IsSameKey-common_bits in
        elim (Bool-cases (is_some ki)) [
          | inl y ↦
              let y' : is_some ki' ≡ true = ap is_some (sym s.kernels) ∙ y in
              rw (c.modes ∙ ap not y, c'.modes ∙ ap not y', y, y')
                (masked _ _ (image_bits-AgreeBelow image_at ki val val' agree)
                  ∙ (λ i. bit_and (image_bits image_at val' (s.kernels i)) hash_bits))
          | inr n ↦
              let n' : is_some ki' ≡ false = ap is_some (sym s.kernels) ∙ n in
              let (anons, q) = s.users n in
              rw (c.modes ∙ ap not n, c'.modes ∙ ap not n')
                (user_hash-AgreeBelow separate anon_at t.cookie t.tgid t.anon val val' agree
                  ∙ (λ i. user_hash separate anon_at (q i) t.tgid (anons i) val')
                  ∙ IsSameKey-rest anon_at _ _ c c' n)
        ]
