-- ===== src/Trans/Decode/Leaves.antt =====
-- Steps over the event buffer (daemon/opd_trans.c) that keep to it: what each leaves of the buffer.
use oprofile.Base.{
  ℕ, suc, ◌+◌, ◌-◌, ◌≤◌, ◌<◌, ◌≡◌, ◌≢◌, refl, inl, inr, List, [], ◌∷◌, length, arith, leb,
  Bool-cases, ==_ne, ap,
}
use oprofile.Trans.{
  empty_buffer, past_buffer, unknown_code, elsewhere, unfinished, Run, ok, aborted, ◌>>=◌, Daemon,
}
use oprofile.Trans.Decode.{
  Buffer, Decoder, pop_buffer_value, dangling, enough_remaining, cleared, code_ctx_switch,
  code_cpu_switch, code_cookie_switch,
}

-- The buffer's memory holds what remains.
abbrev pub Covers : Buffer → Type 0
Covers b = b.remaining ≤ length b.values

-- The codes that have no handler.
abbrev pub IsUnknown : ℕ → Type 0
IsUnknown c =
    (c ≢ 1)
    × (c ≢ 2)
    × (c ≢ 3)
    × (c ≢ 4)
    × (c ≢ 5)
    × (c ≢ 6)
    × (c ≢ 8)
    × (c ≢ 10)
    × (c ≢ 13)
    × (c ≢ 14)

module _ {World Sfile Anon : Type 0} where
  -- A step that leaves at most `n` values of a covered buffer, or aborts for a reason of its own.
  abbrev pub Leaves : ℕ → Run (Decoder World Sfile Anon) → Type 0
  Leaves n (ok (d, b)) = (b.remaining ≤ n) × Covers b
  Leaves n (aborted (unknown_code c)) = IsUnknown c
  Leaves n (aborted elsewhere) = Unit
  Leaves n (aborted _) = ⊥

  -- The whole buffer is read, or the run aborts for a reason of its own.
  abbrev pub Ends : Run (Decoder World Sfile Anon) → Type 0
  Ends r = Leaves 0 r

-- Logging a sample may abort, but not for a reason of the buffer's.
abbrev pub Logs : {A : Type 0} → Run A → Type 0
Logs (ok w) = Unit
Logs (aborted elsewhere) = Unit
Logs (aborted _) = ⊥

pub pop_ok :
    (b : Buffer)
    → Covers b
    → 0 < b.remaining
    → (v : ℕ) × (r : Buffer) × (pop_buffer_value b ≡ ok (v, r))
      × (r.remaining + 1 ≡ b.remaining)
      × Covers r
unfolding pop_buffer_value
pop_ok b c pos = go b.values refl
  where
    go :
        (vs : List ℕ)
        → b.values ≡ vs
        → (v : ℕ) × (r : Buffer) × (pop_buffer_value b ≡ ok (v, r))
          × (r.remaining + 1 ≡ b.remaining)
          × Covers r
    go [] e = absurd (omega (arith, ap length e))
    go (v ∷ vs) e = (
      v,
      record { values = vs; remaining = b.remaining - 1 },
      rw (==_ne b.remaining 0 (omega arith), e),
      omega arith,
      omega (arith, ap length e),
    )

module _ {World Sfile Anon : Type 0} (n : ℕ) (s : Decoder World Sfile Anon) where
  pub dangling-Leaves : Leaves n (dangling s)
  unfolding dangling
  dangling-Leaves = (omega arith, omega arith)

  -- The guard hands on only buffers that hold enough.
  pub enough_remaining-Leaves :
      (k : ℕ) (rest : Run (Decoder World Sfile Anon))
      → (k ≤ s.1.remaining → Leaves n rest)
      → Leaves n (enough_remaining k s rest)
  unfolding enough_remaining
  enough_remaining-Leaves k rest h = elim (Bool-cases (leb k s.1.remaining)) [
    | inl t ↦ rw t (h (ground arith))
    | inr f ↦ rw f dangling-Leaves
  ]

module _ {World Sfile Anon : Type 0} where
  -- A popped value leaves one less.
  pub popped :
      (n k : ℕ) (b : Buffer) (rest : ℕ × Buffer → Run (Decoder World Sfile Anon))
      → Covers b
      → suc k ≤ b.remaining
      → b.remaining ≤ suc n
      → ((v : ℕ) (r : Buffer)
          → Covers r
          → k ≤ r.remaining
          → r.remaining ≤ n
          → Leaves n (rest (v, r)))
      → Leaves n (pop_buffer_value b >>= rest)
  popped n k b rest c low high h =
      let (v, r, run, less, c') = pop_ok b c (omega arith) in
      rw run (h v r c' (omega arith) (omega arith))

  Leaves-le : (n m : ℕ) (r : Run (Decoder World Sfile Anon)) → n ≤ m → Leaves n r → Leaves m r
  Leaves-le n m (ok (d, b)) h l = omega arith
  Leaves-le n m (aborted empty_buffer) h l = l
  Leaves-le n m (aborted past_buffer) h l = l
  Leaves-le n m (aborted (unknown_code c)) h l = l
  Leaves-le n m (aborted elsewhere) h l = l
  Leaves-le n m (aborted unfinished) h l = l

  -- A step from a covered buffer of at most `n` values.
  abbrev pub IsSafe : (Decoder World Sfile Anon → Run (Decoder World Sfile Anon)) → Type 0
  IsSafe step =
      (n : ℕ) (d : Daemon World Sfile Anon) (b : Buffer)
      → Covers b
      → b.remaining ≤ n
      → Leaves n (step (d, b))

  pub code_cpu_switch-IsSafe : IsSafe code_cpu_switch
  unfolding code_cpu_switch cleared
  code_cpu_switch-IsSafe n d b c h =
      enough_remaining-Leaves n (cleared (d, b)) 1 _
        (λ e. popped n 0 b _ c e (omega arith) (λ v r c' low high. (high, c')))

  pub code_cookie_switch-IsSafe : IsSafe code_cookie_switch
  unfolding code_cookie_switch cleared
  code_cookie_switch-IsSafe n d b c h =
      enough_remaining-Leaves n (cleared (d, b)) 1 _
        (λ e. popped n 0 b _ c e (omega arith) (λ v r c' low high. (high, c')))

  pub code_ctx_switch-IsSafe : IsSafe code_ctx_switch
  unfolding code_ctx_switch cleared
  code_ctx_switch-IsSafe n d b c h = enough_remaining-Leaves n (cleared (d, b)) 5 _ (λ e.
      popped n 4 b _ c e (omega arith) (λ v₁ b₁ c₁ l₁ h₁.
        popped n 3 b₁ _ c₁ l₁ (omega arith) (λ v₂ b₂ c₂ l₂ h₂.
          popped n 2 b₂ _ c₂ l₂ (omega arith) (λ v₃ b₃ c₃ l₃ h₃.
            popped n 1 b₃ _ c₃ l₃ (omega arith) (λ v₄ b₄ c₄ l₄ h₄.
              popped n 0 b₄ _ c₄ l₄ (omega arith) (λ v₅ b₅ c₅ l₅ h₅. (h₅, c₅)))))))
