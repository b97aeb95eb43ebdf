-- ===== src/Trans/Decode.antt =====
-- The event buffer: `pop_buffer_value`, the handlers of the escape codes and the loop of
-- `opd_process_samples` (daemon/opd_trans.c).
mod Leaves
mod Safety
mod Stream
mod Tests
use oprofile.Base.{
  ℕ, zero, suc, ◌+◌, ◌-◌, ◌^◌, Bool, true, false, Option, none, some, List, [], ◌∷◌, ltb, leb, ◌==◌,
  if◌then◌else◌,
}
use oprofile.Trans.{
  Abort, empty_buffer, past_buffer, unknown_code, unfinished, Run, ok, aborted, ◌>>=◌, Context,
  Stats, Backend, Daemon, unknown, tracing_off, invalid_cookie, put_sample, ctx_switch, cpu_switch,
  cookie_switch, kernel_enter, user_enter, module_loaded, trace_begin, xen_enter,
  clear_trans_current,
}

-- `kernel_pointer_size == 4`, and the largest `unsigned long` of the daemon.
pub record Platform : Type 0 where
  pub pointer_is_4 : Bool
  pub ulong_max : ℕ

pub is_escape_code : Platform → ℕ → Bool
is_escape_code p code = if p.pointer_is_4 then code == p.ulong_max else code == 2 ^ 64 - 1

abbrev pub last_code : ℕ
last_code = 15

-- What is left of the buffer, as values of `kernel_pointer_size` bytes, with `remaining`.
pub record Buffer : Type 0 where
  pub values : List ℕ
  pub remaining : ℕ

pop_cell : ℕ → List ℕ → Run (ℕ × Buffer)
pop_cell remaining [] = aborted past_buffer
pop_cell remaining (v ∷ values) = ok (v, record { values = values; remaining = remaining - 1 })

pub pop_buffer_value : Buffer → Run (ℕ × Buffer)
unfolding pop_cell
pop_buffer_value b =
    if b.remaining == 0 then aborted empty_buffer else pop_cell b.remaining b.values

-- The context that a buffer starts from.
pub initial_trans : {Sfile Anon : Type 0} → Context Sfile Anon
initial_trans = record {
  tracing = tracing_off;
  current = none;
  last = none;
  anon = none;
  last_anon = none;
  cookie = invalid_cookie;
  app_cookie = invalid_cookie;
  pc = 0;
  last_pc = 0;
  event = 0;
  in_kernel = unknown;
  cpu = 2 ^ 64 - 1;
  tid = 2 ^ 32 - 1;
  tgid = 2 ^ 32 - 1;
}

-- The daemon's state, and what is left of the buffer.
abbrev pub Decoder : Type 0 → Type 0 → Type 0 → Type 0
Decoder World Sfile Anon = Daemon World Sfile Anon × Buffer

module _ {World Sfile Anon : Type 0} where
  -- `enough_remaining` failed, and the caller sets `remaining` to 0.
  pub dangling : Decoder World Sfile Anon → Run (Decoder World Sfile Anon)
  dangling (d, b) = ok (
    record d { stats = record (d.stats) { dangling_code = d.stats.dangling_code + 1 } },
    record b { remaining = 0 },
  )

  pub enough_remaining :
      ℕ → Decoder World Sfile Anon → Run (Decoder World Sfile Anon) → Run (Decoder World Sfile Anon)
  enough_remaining n s rest = if leb n s.1.remaining then rest else dangling s

  -- The context is cleared before the handlers look at what remains.
  cleared : Decoder World Sfile Anon → Decoder World Sfile Anon
  cleared (d, b) = (record d { trans = clear_trans_current d.trans }, b)

  pub code_ctx_switch : Decoder World Sfile Anon → Run (Decoder World Sfile Anon)
  code_ctx_switch (d, b) = enough_remaining 5 (cleared (d, b)) (do
    (tid, b₁) ← pop_buffer_value b
    (app_cookie, b₂) ← pop_buffer_value b₁
    (_, b₃) ← pop_buffer_value b₂
    (_, b₄) ← pop_buffer_value b₃
    (tgid, b₅) ← pop_buffer_value b₄
    ok (ctx_switch tid app_cookie tgid d, b₅))

  pub code_cpu_switch : Decoder World Sfile Anon → Run (Decoder World Sfile Anon)
  code_cpu_switch (d, b) =
      enough_remaining 1 (cleared (d, b))
        (do (cpu, b₁) ← pop_buffer_value b; ok (cpu_switch cpu d, b₁))

  pub code_cookie_switch : Decoder World Sfile Anon → Run (Decoder World Sfile Anon)
  code_cookie_switch (d, b) =
      enough_remaining 1 (cleared (d, b))
        (do (cookie, b₁) ← pop_buffer_value b; ok (cookie_switch cookie d, b₁))

  module _ (ops : Backend World Sfile Anon) (p : Platform)
      (ibs : ℕ → Decoder World Sfile Anon → Run (Decoder World Sfile Anon)) where
    pub opd_put_sample : ℕ → Decoder World Sfile Anon → Run (Decoder World Sfile Anon)
    opd_put_sample pc (d, b) =
        enough_remaining 1 (d, b)
          (do (event, b₁) ← pop_buffer_value b; d₁ ← put_sample ops pc event d; ok (d₁, b₁))

    -- `handlers[code]`, of a daemon that is not for PowerPC; `ibs` are the handlers of opd_ibs.c.
    pub handler : ℕ → Decoder World Sfile Anon → Run (Decoder World Sfile Anon)
    handler code (d, b) =
        if code == 1
        then code_ctx_switch (d, b)
        else if code == 2
        then code_cpu_switch (d, b)
        else if code == 3
        then code_cookie_switch (d, b)
        else if code == 4
        then ok (kernel_enter d, b)
        else if code == 5
        then ok (user_enter d, b)
        else if code == 6
        then ok (module_loaded ops d, b)
        else if code == 8
        then ok (trace_begin d, b)
        else if code == 10
        then ok (xen_enter d, b)
        else if code == 13
        then ibs code (d, b)
        else if code == 14
        then ibs code (d, b)
        else aborted (unknown_code code)

    -- An escape code is popped: its type is next.
    pub process_escape : Decoder World Sfile Anon → Run (Decoder World Sfile Anon)
    process_escape (d, b) =
        let typed = (do
          (code, b₁) ← pop_buffer_value b
          if leb last_code code then aborted (unknown_code code) else handler code (d, b₁)) in
        if b.remaining == 0 then dangling (d, b) else typed

    -- One round of the `while`, with something remaining.
    pub process_one : Decoder World Sfile Anon → Run (Decoder World Sfile Anon)
    process_one (d, b) = do
      (code, b₁) ← pop_buffer_value b
      if is_escape_code p code then process_escape (d, b₁) else opd_put_sample code (d, b₁)

    -- The `while`, with rounds.
    pub process_loop : ℕ → Decoder World Sfile Anon → Run (Decoder World Sfile Anon)
    process_loop zero s = if s.1.remaining == 0 then ok s else aborted unfinished
    process_loop (suc rounds) s =
        let rest = process_one s >>= process_loop rounds in
        if s.1.remaining == 0 then ok s else rest

    -- `opd_process_samples` without a `special_processor`, with as many rounds as values.
    pub opd_process_samples : List ℕ → ℕ → Stats → World → Run (Decoder World Sfile Anon)
    opd_process_samples buffer count stats world = process_loop count (
      record { trans = initial_trans; stats = stats; world = world },
      record { values = buffer; remaining = count },
    )
