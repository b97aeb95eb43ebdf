-- ===== src/Trans/Decode/Tests.antt =====
-- A run of the decoder on a small daemon that remembers the program counters it logged.
use oprofile.Base.{
  ℕ, ◌≡◌, refl, false, some, none, Option, List, [], ◌∷◌, ◌==◌, if◌then◌else◌, arith, length,
  Bool-cases, inl, inr, ◌^◌, ◌-◌,
}
use oprofile.Trans.{
  Run, ok, aborted, elsewhere, Context, Stats, Backend, put_sample, begin_sample, look_up_anon,
  look_up_sfile, log_current, count_sample, is_ignored_by, ctx_switch, cpu_switch, cookie_switch,
  kernel_enter, user_enter, module_loaded, trace_begin, xen_enter, ◌>>=◌,
}
use oprofile.Trans.Decode.{
  Platform, Decoder, is_escape_code, initial_trans, opd_process_samples, process_loop, process_one,
  process_escape, handler, opd_put_sample, code_cpu_switch, code_cookie_switch, code_ctx_switch,
  dangling, enough_remaining, cleared, pop_buffer_value, pop_cell,
}
use oprofile.Trans.Decode.Leaves.{Logs, Ends, IsSafe, popped, enough_remaining-Leaves}
use oprofile.Trans.Decode.Safety.{opd_process_samples-Ends}
use oprofile.Trans.Decode.Stream.{
  sample, to_task, to_cpu, to_image, to_user, to_kernel, encode_all, apply_all, whole, Record,
  opd_process_samples-encode,
}

-- The sample file is named by the cookie, and cookie 9 has none; image 5 is ignored; the log aborts
-- at 99.
abbrev small : Backend (List ℕ) ℕ ℕ
small = record {
  is_ignored = λ sf. sf == 5;
  find_anon_mapping =
      λ t w. record { found = some t.pc; clears_current = false; clears_last = false; after = w };
  sfile_find = λ t w. (if t.cookie == 9 then none else some t.cookie, w);
  sfile_log_sample = λ t w. if t.pc == 99 then aborted elsewhere else ok (t.pc ∷ w);
  opd_reread_module_info = λ w. w;
}

abbrev x86_64 : Platform
x86_64 = record { pointer_is_4 = false; ulong_max = 2 ^ 64 - 1 }

-- A daemon without IBS.
abbrev no_ibs : ℕ → Decoder (List ℕ) ℕ ℕ → Run (Decoder (List ℕ) ℕ ℕ)
no_ibs code s = aborted elsewhere

-- A handler that takes the two values of a sample and keeps to the buffer.
abbrev takes_two : ℕ → Decoder (List ℕ) ℕ ℕ → Run (Decoder (List ℕ) ℕ ℕ)
takes_two code (d, b) =
    enough_remaining 2 (d, b)
      (do (_, b₁) ← pop_buffer_value b; (_, b₂) ← pop_buffer_value b₁; ok (d, b₂))

takes_two-IsSafe : (code : ℕ) → IsSafe (takes_two code)
takes_two-IsSafe code n d b c h =
    enough_remaining-Leaves n (d, b) 2 _
      (λ e.
        popped n 1 b _ c e (omega arith)
          (λ v₁ b₁ c₁ l₁ h₁. popped n 0 b₁ _ c₁ l₁ (omega arith) (λ v₂ b₂ c₂ l₂ h₂. (h₂, c₂))))

abbrev no_stats : Stats
no_stats = record { samples = 0; kernel_samples = 0; process_samples = 0; dangling_code = 0 }

abbrev escape : ℕ
escape = 2 ^ 64 - 1

-- Two user samples of an image, one of an image without a file, one in the kernel.
abbrev records : List Record
records =
    to_cpu 1
    ∷ to_task 70 3 70
    ∷ to_image 3
    ∷ to_user
    ∷ sample 16 0
    ∷ sample 20 1
    ∷ to_image 9
    ∷ sample 24 0
    ∷ to_kernel
    ∷ to_image 4
    ∷ sample 28 0
    ∷ []

program : Unit {0}
unfolding opd_process_samples process_loop process_one process_escape handler opd_put_sample
    code_cpu_switch code_cookie_switch code_ctx_switch dangling enough_remaining cleared
    pop_buffer_value pop_cell is_escape_code initial_trans put_sample begin_sample look_up_anon
    look_up_sfile log_current count_sample is_ignored_by ctx_switch cpu_switch cookie_switch
    kernel_enter user_enter module_loaded trace_begin xen_enter
program = tt

abbrev outcome : Run (Decoder (List ℕ) ℕ ℕ) → Option (List ℕ × ℕ × ℕ × ℕ)
outcome (ok (d, b)) =
    some (d.world, d.stats.kernel_samples, d.stats.process_samples, d.stats.dangling_code)
outcome (aborted e) = none

-- The samples that have a file are logged, in order, and counted.
records_run :
    outcome (
      opd_process_samples small x86_64 no_ibs
        (encode_all escape records)
        (length (encode_all escape records))
        no_stats
        [])
    ≡ some (28 ∷ 20 ∷ 16 ∷ [], 1, 2, 0)
unfolding program
records_run = refl

-- A context switch cut short ends the buffer.
cut_run :
    outcome (opd_process_samples small x86_64 no_ibs (escape ∷ 1 ∷ 70 ∷ 3 ∷ []) 4 no_stats [])
    ≡ some ([], 0, 0, 1)
unfolding program
cut_run = refl

small-Logs : (t : Context ℕ ℕ) (w : List ℕ) → Logs (small.sfile_log_sample t w)
small-Logs t w = elim (Bool-cases (t.pc == 99)) [ inl e ↦ rw e tt | inr e ↦ rw e tt ]

-- An IBS sample, a record of a cpu, and a sample that is cut short.
abbrev with_ibs : List ℕ
with_ibs = escape ∷ 13 ∷ 7 ∷ 8 ∷ escape ∷ 2 ∷ 1 ∷ 4096 ∷ []

opd_process_samples-Ends_example :
    Ends (opd_process_samples small x86_64 takes_two with_ibs 8 no_stats [])
opd_process_samples-Ends_example =
    opd_process_samples-Ends small small-Logs x86_64 takes_two takes_two-IsSafe with_ibs 8 no_stats
      [] (omega arith)

-- The values of an IBS sample are taken, and the last one dangles.
with_ibs_run :
    outcome (opd_process_samples small x86_64 takes_two with_ibs 8 no_stats []) ≡ some ([], 0, 0, 1)
unfolding program
with_ibs_run = refl

opd_process_samples-encode_example :
    opd_process_samples small x86_64 no_ibs
      (encode_all escape records)
      (length (encode_all escape records))
      no_stats
      []
    ≡ (apply_all small records (record { trans = initial_trans; stats = no_stats; world = [] })
        >>= λ d. ok (d, whole []))
unfolding is_escape_code
opd_process_samples-encode_example =
    opd_process_samples-encode small x86_64 no_ibs escape refl records no_stats []
      (refl, (refl, (refl, (refl, tt))))
