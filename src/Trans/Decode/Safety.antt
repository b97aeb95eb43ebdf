-- ===== src/Trans/Decode/Safety.antt =====
-- The loop of `opd_process_samples` (daemon/opd_trans.c) keeps to the buffer and ends.
use oprofile.Base.{
  ℕ, zero, suc, ◌≤◌, ◌<◌, ◌≡◌, ◌≢◌, refl, Bool, true, false, Option, none, some, inl, inr, List,
  length, arith, leb, ◌==◌, ◌||◌, if◌then◌else◌, Bool-cases,
}
use oprofile.Trans.{
  empty_buffer, past_buffer, unknown_code, elsewhere, unfinished, Run, ok, aborted, ◌>>=◌, Context,
  Stats, Backend, Daemon, put_sample, begin_sample, look_up_anon, look_up_sfile, log_current,
  is_ignored_by, sample_out,
}
use oprofile.Trans.Decode.{
  Platform, Buffer, Decoder, is_escape_code, opd_put_sample, handler, process_escape, process_one,
  process_loop, opd_process_samples, last_code,
}
use oprofile.Trans.Decode.Leaves.{
  Covers, IsUnknown, Leaves, Ends, Logs, dangling-Leaves, enough_remaining-Leaves, popped, IsSafe,
  code_cpu_switch-IsSafe, code_cookie_switch-IsSafe, code_ctx_switch-IsSafe,
}

-- Two runs in a row abort for a reason of their own if each does.
>>=-Logs :
    {A B : Type 0} (r : Run A) (f : A → Run B) → Logs r → ((a : A) → Logs (f a)) → Logs (r >>= f)
>>=-Logs (ok a) f l h = h a
>>=-Logs (aborted elsewhere) f l h = tt
>>=-Logs (aborted empty_buffer) f l h = l
>>=-Logs (aborted past_buffer) f l h = l
>>=-Logs (aborted (unknown_code c)) f l h = l
>>=-Logs (aborted unfinished) f l h = l

-- A code behind the last has no handler.
IsUnknown-large : (c : ℕ) → last_code ≤ c → IsUnknown c
IsUnknown-large c h = (
  omega arith,
  omega arith,
  omega arith,
  omega arith,
  omega arith,
  omega arith,
  omega arith,
  omega arith,
  omega arith,
  omega arith,
)

test_ne : (a b : ℕ) → (a == b) ≡ false → a ≢ b
test_ne a b f e = absurd (ground arith)

if-Logs : {A : Type 0} (t : Bool) (r s : Run A) → Logs r → Logs s → Logs (if t then r else s)
if-Logs true r s h k = h
if-Logs false r s h k = k

module _ {World Sfile Anon : Type 0} (ops : Backend World Sfile Anon)
    (logs : (t : Context Sfile Anon) (w : World) → Logs (ops.sfile_log_sample t w)) where
  log_current-Logs : (d : Daemon World Sfile Anon) → Logs (log_current ops d)
  unfolding log_current
  log_current-Logs d = go d.trans.current refl
    where
      go : (m : Option Sfile) → d.trans.current ≡ m → Logs (log_current ops d)
      go none e = rw e tt
      go (some sf) e =
          rw e
            (elim (Bool-cases (
              is_ignored_by ops.is_ignored (some sf)
              || is_ignored_by ops.is_ignored d.trans.last)) [
                | inl t ↦ rw t tt
                | inr f ↦ rw f (
                    >>=-Logs (ops.sfile_log_sample (record (d.trans) { current = some sf }) d.world)
                      (λ w. ok _) (logs _ _) (λ w. tt))
              ])

  put_sample-Logs : (pc event : ℕ) (d : Daemon World Sfile Anon) → Logs (put_sample ops pc event d)
  unfolding put_sample
  put_sample-Logs pc event d =
      let (t₁, w₁) = look_up_anon ops (begin_sample pc event d.trans) d.world in
      let (t₂, w₂) = look_up_sfile ops t₁ w₁ in
      let d' = record d { trans = t₂; world = w₂ } in
      >>=-Logs (log_current ops d')
        (λ logged. ok (record logged { trans = sample_out logged.trans })) (log_current-Logs d')
        (λ logged. tt)

  -- What is left does not depend on the sample.
  logged-Leaves :
      (n : ℕ) (b : Buffer) (r : Run (Daemon World Sfile Anon))
      → Covers b
      → b.remaining ≤ n
      → Logs r
      → Leaves n (r >>= λ d. ok (d, b))
  logged-Leaves n b (ok d) c h l = (h, c)
  logged-Leaves n b (aborted elsewhere) c h l = tt
  logged-Leaves n b (aborted empty_buffer) c h l = l
  logged-Leaves n b (aborted past_buffer) c h l = l
  logged-Leaves n b (aborted (unknown_code k)) c h l = absurd l
  logged-Leaves n b (aborted unfinished) c h l = l

  module _ (p : Platform) (ibs : ℕ → Decoder World Sfile Anon → Run (Decoder World Sfile Anon))
      (ibs_safe : (code : ℕ) → IsSafe (ibs code)) where
    opd_put_sample-IsSafe : (pc : ℕ) → IsSafe (opd_put_sample ops p ibs pc)
    unfolding opd_put_sample
    opd_put_sample-IsSafe pc n d b c h =
        enough_remaining-Leaves n (d, b) 1 _
          (λ e.
            popped n 0 b _ c e (omega arith)
              (λ v r c' low high. logged-Leaves n r _ c' high (put_sample-Logs pc v d)))

    -- A test of a code, in the chain of the handlers.
    either :
        (n : ℕ) (t : Bool) (r s : Run (Decoder World Sfile Anon))
        → (t ≡ true → Leaves n r)
        → (t ≡ false → Leaves n s)
        → Leaves n (if t then r else s)
    either n true r s h k = h refl
    either n false r s h k = k refl

    handler-IsSafe : (code : ℕ) → IsSafe (handler ops p ibs code)
    unfolding handler
    handler-IsSafe code n d b c h =
        either n (code == 1) _ _ (λ _. code_ctx_switch-IsSafe n d b c h)
          (λ e₁.
            either n (code == 2) _ _ (λ _. code_cpu_switch-IsSafe n d b c h)
              (λ e₂.
                either n (code == 3) _ _ (λ _. code_cookie_switch-IsSafe n d b c h)
                  (λ e₃.
                    either n (code == 4) _ _ (λ _. (h, c))
                      (λ e₄.
                        either n (code == 5) _ _ (λ _. (h, c))
                          (λ e₅.
                            either n (code == 6) _ _ (λ _. (h, c))
                              (λ e₆.
                                either n (code == 8) _ _ (λ _. (h, c))
                                  (λ e₇.
                                    either n (code == 10) _ _ (λ _. (h, c))
                                      (λ e₈.
                                        either n (code == 13) _ _ (λ _. ibs_safe code n d b c h)
                                          (λ e₉.
                                            either n (code == 14) _ _ (λ _. ibs_safe code n d b c h)
                                              (λ e₁₀. (
                                                test_ne code 1 e₁,
                                                test_ne code 2 e₂,
                                                test_ne code 3 e₃,
                                                test_ne code 4 e₄,
                                                test_ne code 5 e₅,
                                                test_ne code 6 e₆,
                                                test_ne code 8 e₇,
                                                test_ne code 10 e₈,
                                                test_ne code 13 e₉,
                                                test_ne code 14 e₁₀,
                                              )))))))))))

    process_escape-IsSafe : IsSafe (process_escape ops p ibs)
    unfolding process_escape
    process_escape-IsSafe n d b c h =
        either n (b.remaining == 0) _ _ (λ e. dangling-Leaves n (d, b))
          (λ e. popped n 0 b _ c (ground arith) (omega arith) (λ v r c' low high.
            either n (leb last_code v) _ _ (λ e'. IsUnknown-large v (ground arith))
              (λ _. handler-IsSafe v n d r c' high)))

    -- One round takes at least one value.
    process_one-Leaves :
        (n : ℕ) (d : Daemon World Sfile Anon) (b : Buffer)
        → Covers b
        → 0 < b.remaining
        → b.remaining ≤ suc n
        → Leaves n (process_one ops p ibs (d, b))
    unfolding process_one
    process_one-Leaves n d b c pos h = popped n 0 b _ c (omega arith) h (λ v r c' low high.
        either n (is_escape_code p v) _ _ (λ _. process_escape-IsSafe n d r c' high)
          (λ _. opd_put_sample-IsSafe v n d r c' high))

    then_Ends :
        (r : Run (Decoder World Sfile Anon))
        (next : Decoder World Sfile Anon → Run (Decoder World Sfile Anon)) (rounds : ℕ)
        → Leaves rounds r
        → ((d : Daemon World Sfile Anon) (b : Buffer)
            → Covers b
            → b.remaining ≤ rounds
            → Ends (next (d, b)))
        → Ends (r >>= next)
    then_Ends (ok (d', b')) next rounds (h', c') ends = ends d' b' c' h'
    then_Ends (aborted empty_buffer) next rounds l ends = l
    then_Ends (aborted past_buffer) next rounds l ends = l
    then_Ends (aborted (unknown_code k)) next rounds l ends = l
    then_Ends (aborted elsewhere) next rounds l ends = l
    then_Ends (aborted unfinished) next rounds l ends = l

    -- Rounds for each value that remains suffice.
    process_loop-Ends :
        (rounds : ℕ) (d : Daemon World Sfile Anon) (b : Buffer)
        → Covers b
        → b.remaining ≤ rounds
        → Ends (process_loop ops p ibs rounds (d, b))
    unfolding process_loop
    process_loop-Ends zero d b c h =
        either 0 (b.remaining == 0) _ _ (λ _. (h, c)) (λ f. absurd (ground arith))
    process_loop-Ends (suc rounds) d b c h =
        either 0 (b.remaining == 0) _ _ (λ e. (ground arith, c))
          (λ f.
            then_Ends (process_one ops p ibs (d, b)) _ rounds
              (process_one-Leaves rounds d b c (ground arith) h) (process_loop-Ends rounds))

    -- On a buffer of any values, at least as long as its count, and for IBS handlers and a logging
    -- of samples that end and keep to the buffer, opd_process_samples ends: it never pops an empty
    -- buffer or reads behind the buffer, and either ends with nothing remaining, where what
    -- remained at a record that is cut short is discarded, or aborts at a code without a handler
    -- or inside the logging or an IBS handler.
    pub opd_process_samples-Ends :
        (buffer : List ℕ) (count : ℕ) (stats : Stats) (world : World)
        → count ≤ length buffer
        → Ends (opd_process_samples ops p ibs buffer count stats world)
    unfolding opd_process_samples
    opd_process_samples-Ends buffer count stats world h =
        process_loop-Ends count _ _ h (omega arith)
