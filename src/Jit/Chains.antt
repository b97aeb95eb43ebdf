-- ===== src/Jit/Chains.antt =====
-- Chains of shorter names among entries, which bound the rounds of `disambiguate_symbol_names`
-- (opjitconv/jitsymbol.c).
use oprofile.Base.{
  ℕ, zero, suc, ◌+◌, ◌≤◌, ◌<◌, ◌≡◌, refl, ap, inl, inr, List, [], ◌∷◌, length, ltb, lt→ltb,
  not_lt→ltb, if◌then◌else◌, arith,
}
use oprofile.Jit.{JitEntry}
use oprofile.Jit.Entries.{sum}
use oprofile.Jit.Distinct.{In, Twice}

-- Names there, each shorter than the one before, from below a length.
unfoldable pub Chain : ℕ → ℕ → List JitEntry → Type 0
unfolding In
Chain zero l entries = Unit
Chain (suc k) l entries = (y : List ℕ) × In y entries × (length y < l) × Chain k (length y) entries

pub Chain-more :
    (k l : ℕ) (entries entries' : List JitEntry)
    → ((x : List ℕ) → In x entries → In x entries')
    → Chain k l entries
    → Chain k l entries'
unfolding Chain
Chain-more zero l entries entries' more c = tt
Chain-more (suc k) l entries entries' more (y, i, s, c) =
    (y, more y i, s, Chain-more k (length y) entries entries' more c)

abbrev below : ℕ → JitEntry → ℕ
below l e = if ltb (length e.symbol_name) l then 1 else 0

below_le :
    (l m : ℕ) (entries : List JitEntry) → l ≤ m → sum (below l) entries ≤ sum (below m) entries
unfolding sum
below_le l m [] h = omega arith
below_le l m (e ∷ entries) h =
    let rest = below_le l m entries h in
    let first : below l e ≤ below m e = ground arith in omega (arith, rest, first)

below-length : (l : ℕ) (entries : List JitEntry) → sum (below l) entries ≤ length entries
unfolding sum
below-length l [] = omega arith
below-length l (e ∷ entries) =
    let rest = below-length l entries in
    let first : below l e ≤ 1 = ground arith in omega (arith, rest, first)

below-In :
    (y : List ℕ) (l : ℕ) (entries : List JitEntry)
    → In y entries
    → length y < l
    → sum (below (length y)) entries < sum (below l) entries
unfolding sum In
below-In y l [] i h = absurd i
below-In y l (e ∷ entries) i h = elim i [
  | inl q ↦
      let same = ap length q in
      let rest = below_le (length y) l entries (omega (arith, h)) in
      let none_here : below (length y) e ≡ 0 =
        rw (not_lt→ltb (length e.symbol_name) (length y) (λ z. absurd (omega (arith, z, same))))
          refl in
      let one_here : below l e ≡ 1 =
        rw (lt→ltb (length e.symbol_name) l (omega (arith, h, same))) refl in
      omega (arith, rest, none_here, one_here)
  | inr j ↦
      let rest = below-In y l entries j h in
      let first : below (length y) e ≤ below l e = ground arith in omega (arith, rest, first)
]

Chain-bound : (k l : ℕ) (entries : List JitEntry) → Chain k l entries → k ≤ sum (below l) entries
unfolding Chain
Chain-bound zero l entries c = omega arith
Chain-bound (suc k) l entries (y, i, s, c) =
    omega (arith, Chain-bound k (length y) entries c, below-In y l entries i s)

pub Twice-In : (x : List ℕ) (entries : List JitEntry) → Twice x entries → In x entries
unfolding Twice In
Twice-In x [] t = absurd t
Twice-In x (e ∷ entries) t = elim t [ inl (q, i) ↦ inl q | inr u ↦ inr (Twice-In x entries u) ]

-- A name that stands twice bounds the chain below it.
pub Chain-Twice :
    (k : ℕ) (x : List ℕ) (entries : List JitEntry)
    → Chain k (length x) entries
    → Twice x entries
    → k < length entries
Chain-Twice k x entries c t =
    let up = below-In x (length x + 1) entries (Twice-In x entries t) (omega arith) in
    omega (arith, Chain-bound k (length x) entries c, up, below-length (length x + 1) entries)
