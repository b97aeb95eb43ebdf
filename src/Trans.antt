-- ===== src/Trans.antt =====
-- The transient context of the daemon and what the parts of the event buffer do to it
-- (daemon/opd_trans.h, daemon/opd_trans.c).
pub mod Decode
use oprofile.Base.{
  ℕ, ◌+◌, ◌-◌, ◌%◌, ◌^◌, Bool, true, false, not, ◌&&◌, ◌||◌, Option, none, some, List, ltb, leb,
  ◌==◌, if◌then◌else◌, u32, u64,
}

pub data Abort : Type 0 where
  -- `pop_buffer_value` on a buffer with nothing remaining
  empty_buffer : Abort
  -- a read behind the end of the buffer's memory
  past_buffer : Abort
  -- an escape code without a handler
  unknown_code : ℕ → Abort
  -- a call of `abort` in another part of the daemon
  elsewhere : Abort
  -- the rounds given to the loop do not suffice
  unfinished : Abort

pub data Run {ℓ} (A : Type ℓ) : Type ℓ where
  ok : A → Run A
  aborted : Abort → Run A

infixl 5 ◌>>=◌
abbrev pub ◌>>=◌ {ℓ κ} : {A : Type ℓ} {B : Type κ} → Run A → (A → Run B) → Run B
ok a >>= f = f a
aborted e >>= f = aborted e

pub data TracingType : Type 0 where
  tracing_off tracing_start tracing_on : TracingType

-- `in_kernel`: -1, 0 and 1
pub data InKernel : Type 0 where
  unknown user kernel : InKernel

abbrev pub is_tracing_on : TracingType → Bool
is_tracing_on tracing_on = true
is_tracing_on _ = false

abbrev pub is_user : InKernel → Bool
is_user user = true
is_user _ = false

abbrev pub is_kernel : InKernel → Bool
is_kernel kernel = true
is_kernel _ = false

abbrev pub invalid_cookie : ℕ
invalid_cookie = 2 ^ 64 - 1

abbrev pub no_cookie : ℕ
no_cookie = 0

-- `struct transient` but for the buffer, and for `embedded_offset` and `ext`, which only the
-- handlers of SPU and IBS samples set; over the sample files and anonymous mappings that its
-- pointers name; thread ids are kept as their 32 bits.
pub record Context (Sfile Anon : Type 0) : Type 0 where
  pub tracing : TracingType
  pub current : Option Sfile
  pub last : Option Sfile
  pub anon : Option Anon
  pub last_anon : Option Anon
  pub cookie : ℕ
  pub app_cookie : ℕ
  pub pc : ℕ
  pub last_pc : ℕ
  pub event : ℕ
  pub in_kernel : InKernel
  pub cpu : ℕ
  pub tid : ℕ
  pub tgid : ℕ

-- The counters of `opd_stats` that this part increments.
pub record Stats : Type 0 where
  pub samples : ℕ
  pub kernel_samples : ℕ
  pub process_samples : ℕ
  pub dangling_code : ℕ

-- What a search for an anonymous mapping finds, and whether it freed what the current or the last
-- sample used, so that the context is cleared of it.
pub record AnonFound (World Anon : Type 0) : Type 0 where
  pub found : Option Anon
  pub clears_current : Bool
  pub clears_last : Bool
  pub after : World

-- The other parts of the daemon (sample files, anonymous mappings, modules), with their state.
pub record Backend (World Sfile Anon : Type 0) : Type 0 where
  pub is_ignored : Sfile → Bool
  pub find_anon_mapping : Context Sfile Anon → World → AnonFound World Anon
  pub sfile_find : Context Sfile Anon → World → Option Sfile × World
  pub sfile_log_sample : Context Sfile Anon → World → Run World
  pub opd_reread_module_info : World → World

pub record Daemon (World Sfile Anon : Type 0) : Type 0 where
  pub trans : Context Sfile Anon
  pub stats : Stats
  pub world : World

-- `if (trans->tracing == TRACING_START) trans->tracing = TRACING_ON;`
abbrev pub next_tracing : TracingType → TracingType
next_tracing tracing_start = tracing_on
next_tracing tracing_off = tracing_off
next_tracing tracing_on = tracing_on

-- A sample counted, by where it was taken.
pub count_sample : InKernel → Stats → Stats
count_sample k s =
    if is_kernel k
    then record s { samples = s.samples + 1; kernel_samples = s.kernel_samples + 1 }
    else record s { samples = s.samples + 1; process_samples = s.process_samples + 1 }

is_ignored_by : {Sfile : Type 0} → (Sfile → Bool) → Option Sfile → Bool
is_ignored_by ignored none = false
is_ignored_by ignored (some sf) = ignored sf

module _ {Sfile Anon : Type 0} where
  abbrev pub clear_trans_last : Context Sfile Anon → Context Sfile Anon
  clear_trans_last t = record t { last = none; last_anon = none }

  abbrev pub clear_trans_current : Context Sfile Anon → Context Sfile Anon
  clear_trans_current t = record t { current = none; anon = none }

  abbrev pub update_trans_last : Context Sfile Anon → Context Sfile Anon
  update_trans_last t = record t { last = t.current; last_anon = t.anon; last_pc = t.pc }

  -- The context at the label `out` of `opd_put_sample`, and behind it.
  abbrev pub sample_out : Context Sfile Anon → Context Sfile Anon
  sample_out t = update_trans_last (record t { tracing = next_tracing t.tracing })

  -- The event and the program counter of a sample, and the kernel's current image forgotten.
  pub begin_sample : ℕ → ℕ → Context Sfile Anon → Context Sfile Anon
  begin_sample pc event t =
      let event' = if is_tracing_on t.tracing then t.event else event in
      let t' = record t { pc = pc; event = event' } in
      if is_user t.in_kernel then t' else clear_trans_current t'

module _ {World Sfile Anon : Type 0} (ops : Backend World Sfile Anon) where
  -- `trans->anon = find_anon_mapping(trans)`, for a user sample without a cookie
  pub look_up_anon : Context Sfile Anon → World → Context Sfile Anon × World
  look_up_anon t w =
      let f = ops.find_anon_mapping t w in
      let t₁ = if f.clears_current then clear_trans_current t else t in
      let t₂ = if f.clears_last then clear_trans_last t₁ else t₁ in
      if is_user t.in_kernel && t.cookie == no_cookie
      then (record t₂ { anon = f.found }, f.after)
      else (t, w)

  -- `if (!trans->current) trans->current = sfile_find(trans);`
  pub look_up_sfile : Context Sfile Anon → World → Context Sfile Anon × World
  look_up_sfile t w =
      let f = ops.sfile_find t w in
      elim t.current [ some sf ↦ (t, w) | none ↦ (record t { current = f.0 }, f.1) ]

  -- From the test of `trans->current` to `out`: counted, and logged unless ignored.
  pub log_current : Daemon World Sfile Anon → Run (Daemon World Sfile Anon)
  unfolding is_ignored_by
  log_current d =
      let counted =
        if is_tracing_on d.trans.tracing then d.stats else count_sample d.trans.in_kernel d.stats in
      let ignored =
        is_ignored_by ops.is_ignored d.trans.current || is_ignored_by ops.is_ignored d.trans.last in
      elim d.trans.current [
        | none ↦ ok d
        | some sf ↦
            if ignored
            then ok (record d { stats = counted })
            else (ops.sfile_log_sample d.trans d.world >>= λ w.
                ok (record d { stats = counted; world = w }))
      ]

  -- `opd_put_sample`, once the event is popped
  pub put_sample : ℕ → ℕ → Daemon World Sfile Anon → Run (Daemon World Sfile Anon)
  unfolding begin_sample look_up_anon look_up_sfile log_current
  put_sample pc event d = do
    let (t₁, w₁) = look_up_anon (begin_sample pc event d.trans) d.world
    let (t₂, w₂) = look_up_sfile t₁ w₁
    logged ← log_current (record d { trans = t₂; world = w₂ })
    ok (record logged { trans = sample_out logged.trans })

  pub module_loaded : Daemon World Sfile Anon → Daemon World Sfile Anon
  module_loaded d = record d {
    trans = clear_trans_last (clear_trans_current d.trans);
    world = ops.opd_reread_module_info d.world;
  }

module _ {World Sfile Anon : Type 0} where
  -- What the handlers of the escape codes do to the context.
  pub ctx_switch : ℕ → ℕ → ℕ → Daemon World Sfile Anon → Daemon World Sfile Anon
  ctx_switch tid app_cookie tgid d = record d {
    trans = record (clear_trans_current d.trans) {
      tid = tid % u32;
      app_cookie = app_cookie;
      tgid = tgid % u32;
    };
  }

  pub cpu_switch : ℕ → Daemon World Sfile Anon → Daemon World Sfile Anon
  cpu_switch cpu d = record d { trans = record (clear_trans_current d.trans) { cpu = cpu } }

  pub cookie_switch : ℕ → Daemon World Sfile Anon → Daemon World Sfile Anon
  cookie_switch cookie d = record d {
    trans = record (clear_trans_current d.trans) { cookie = cookie };
  }

  pub kernel_enter : Daemon World Sfile Anon → Daemon World Sfile Anon
  kernel_enter d = record d {
    trans = clear_trans_current (record (d.trans) { in_kernel = kernel });
  }

  pub user_enter : Daemon World Sfile Anon → Daemon World Sfile Anon
  user_enter d = record d {
    trans = clear_trans_last (clear_trans_current (record (d.trans) { in_kernel = user }));
  }

  pub trace_begin : Daemon World Sfile Anon → Daemon World Sfile Anon
  trace_begin d = record d { trans = record (d.trans) { tracing = tracing_start } }

  pub xen_enter : Daemon World Sfile Anon → Daemon World Sfile Anon
  xen_enter d = record d { trans = record (d.trans) { in_kernel = kernel; current = none } }
