-- ===== src/Trans/Decode/Stream.antt =====
-- The records of the event buffer as the kernel's module writes them, and what `opd_process_samples`
-- (daemon/opd_trans.c) makes of a sequence of them.
use oprofile.Base.{
  ℕ, zero, suc, ◌-◌, ◌≤◌, ◌≡◌, refl, true, false, List, [], ◌∷◌, ◌++◌, ◌∙◌, length, length-append,
  arith, leb, ◌==◌, ==_ne,
}
use oprofile.Trans.{
  Run, ok, aborted, ◌>>=◌, Stats, Backend, Daemon, put_sample, ctx_switch, cpu_switch,
  cookie_switch, kernel_enter, user_enter, module_loaded, trace_begin, xen_enter,
}
use oprofile.Trans.Decode.{
  Platform, Buffer, Decoder, initial_trans, is_escape_code, pop_buffer_value, pop_cell,
  enough_remaining, cleared, code_ctx_switch, code_cpu_switch, code_cookie_switch, opd_put_sample,
  handler, process_escape, process_one, process_loop, opd_process_samples,
}

-- The records, with what they carry (libop/op_events.h, the codes of daemon/opd_interface.h).
pub data Record : Type 0 where
  sample : (pc event : ℕ) → Record
  to_task : (tid app_cookie tgid : ℕ) → Record
  to_cpu : ℕ → Record
  to_image : ℕ → Record
  to_kernel to_user loaded begin to_xen : Record

-- A record's values, with the escape code `esc`.
abbrev pub encode : ℕ → Record → List ℕ
encode esc (sample pc event) = pc ∷ event ∷ []
encode esc (to_task tid app_cookie tgid) = esc ∷ 1 ∷ tid ∷ app_cookie ∷ esc ∷ 7 ∷ tgid ∷ []
encode esc (to_cpu cpu) = esc ∷ 2 ∷ cpu ∷ []
encode esc (to_image cookie) = esc ∷ 3 ∷ cookie ∷ []
encode esc to_kernel = esc ∷ 4 ∷ []
encode esc to_user = esc ∷ 5 ∷ []
encode esc loaded = esc ∷ 6 ∷ []
encode esc begin = esc ∷ 8 ∷ []
encode esc to_xen = esc ∷ 10 ∷ []

abbrev pub encode_all : ℕ → List Record → List ℕ
encode_all esc [] = []
encode_all esc (r ∷ rs) = encode esc r ++ encode_all esc rs

-- No sample's program counter is an escape code.
abbrev pub IsWritable : Platform → List Record → Type 0
IsWritable p [] = Unit
IsWritable p (sample pc event ∷ rs) = (is_escape_code p pc ≡ false) × IsWritable p rs
IsWritable p (_ ∷ rs) = IsWritable p rs

suc_test : (k : ℕ) → (suc k == 0) ≡ false
suc_test k = ==_ne (suc k) 0 (omega arith)

suc_pred : (k : ℕ) → suc k - 1 ≡ k
suc_pred k = omega arith

enough : (n k : ℕ) → n ≤ k → leb n k ≡ true
enough n k h = ground arith

-- A buffer, none of it read.
abbrev pub whole : List ℕ → Buffer
whole vs = record { values = vs; remaining = length vs }

pop_run : (v : ℕ) (vs : List ℕ) → pop_buffer_value (whole (v ∷ vs)) ≡ ok (v, whole vs)
unfolding pop_buffer_value pop_cell
pop_run v vs = rw (suc_test (length vs), suc_pred (length vs)) refl

module _ {World Sfile Anon : Type 0} (ops : Backend World Sfile Anon) where
  -- What one record does.
  abbrev pub apply : Record → Daemon World Sfile Anon → Run (Daemon World Sfile Anon)
  apply (sample pc event) d = put_sample ops pc event d
  apply (to_task tid app_cookie tgid) d = ok (ctx_switch tid app_cookie tgid d)
  apply (to_cpu cpu) d = ok (cpu_switch cpu d)
  apply (to_image cookie) d = ok (cookie_switch cookie d)
  apply to_kernel d = ok (kernel_enter d)
  apply to_user d = ok (user_enter d)
  apply loaded d = ok (module_loaded ops d)
  apply begin d = ok (trace_begin d)
  apply to_xen d = ok (xen_enter d)

  abbrev pub apply_all : List Record → Daemon World Sfile Anon → Run (Daemon World Sfile Anon)
  apply_all [] d = ok d
  apply_all (r ∷ rs) d = apply r d >>= apply_all rs

  module _ (p : Platform) (ibs : ℕ → Decoder World Sfile Anon → Run (Decoder World Sfile Anon))
      (esc : ℕ) (escapes : is_escape_code p esc ≡ true) where
    process_one-escape :
        (d : Daemon World Sfile Anon) (vs : List ℕ)
        → process_one ops p ibs (d, whole (esc ∷ vs)) ≡ process_escape ops p ibs (d, whole vs)
    unfolding process_one
    process_one-escape d vs = rw (pop_run esc vs, escapes) refl

    process_one-pc :
        (pc : ℕ) (d : Daemon World Sfile Anon) (vs : List ℕ)
        → is_escape_code p pc ≡ false
        → process_one ops p ibs (d, whole (pc ∷ vs)) ≡ opd_put_sample ops p ibs pc (d, whole vs)
    unfolding process_one
    process_one-pc pc d vs w = rw (pop_run pc vs, w) refl

    process_escape-handler :
        (c : ℕ) (d : Daemon World Sfile Anon) (vs : List ℕ)
        → leb 15 c ≡ false
        → process_escape ops p ibs (d, whole (c ∷ vs)) ≡ handler ops p ibs c (d, whole vs)
    unfolding process_escape
    process_escape-handler c d vs f = rw (suc_test (length vs), pop_run c vs, f) refl

    -- The handler of a record's code is the one reached.
    to_handler :
        (c : ℕ) (d : Daemon World Sfile Anon) (vs : List ℕ)
        → leb 15 c ≡ false
        → process_one ops p ibs (d, whole (esc ∷ c ∷ vs)) ≡ handler ops p ibs c (d, whole vs)
    to_handler c d vs f = process_one-escape d (c ∷ vs) ∙ process_escape-handler c d vs f

    sample-reads :
        (pc event : ℕ) (vs : List ℕ) (d : Daemon World Sfile Anon)
        → is_escape_code p pc ≡ false
        → opd_put_sample ops p ibs pc (d, whole (event ∷ vs))
          ≡ (put_sample ops pc event d >>= λ d'. ok (d', whole vs))
    unfolding opd_put_sample enough_remaining
    sample-reads pc event vs d w =
        rw (enough 1 (suc (length vs)) (omega arith), pop_run event vs) refl

    cpu-reads :
        (cpu : ℕ) (vs : List ℕ) (d : Daemon World Sfile Anon)
        → code_cpu_switch (d, whole (cpu ∷ vs)) ≡ ok (cpu_switch cpu d, whole vs)
    unfolding code_cpu_switch enough_remaining cleared cpu_switch
    cpu-reads cpu vs d = rw (enough 1 (suc (length vs)) (omega arith), pop_run cpu vs) refl

    image-reads :
        (cookie : ℕ) (vs : List ℕ) (d : Daemon World Sfile Anon)
        → code_cookie_switch (d, whole (cookie ∷ vs)) ≡ ok (cookie_switch cookie d, whole vs)
    unfolding code_cookie_switch enough_remaining cleared cookie_switch
    image-reads cookie vs d = rw (enough 1 (suc (length vs)) (omega arith), pop_run cookie vs) refl

    task-reads :
        (tid app_cookie x y tgid : ℕ) (vs : List ℕ) (d : Daemon World Sfile Anon)
        → code_ctx_switch (d, whole (tid ∷ app_cookie ∷ x ∷ y ∷ tgid ∷ vs))
          ≡ ok (ctx_switch tid app_cookie tgid d, whole vs)
    unfolding code_ctx_switch enough_remaining cleared ctx_switch
    task-reads tid app_cookie x y tgid vs d =
        rw
          (
            enough 5 (length (tid ∷ app_cookie ∷ x ∷ y ∷ tgid ∷ vs)) (omega arith),
            pop_run tid (app_cookie ∷ x ∷ y ∷ tgid ∷ vs),
            pop_run app_cookie (x ∷ y ∷ tgid ∷ vs),
            pop_run x (y ∷ tgid ∷ vs),
            pop_run y (tgid ∷ vs),
            pop_run tgid vs,
          )
          refl

    -- One round reads one record, and does what the record says.
    process_one-encode :
        (r : Record) (rs : List Record) (vs : List ℕ) (d : Daemon World Sfile Anon)
        → IsWritable p (r ∷ rs)
        → process_one ops p ibs (d, whole (encode esc r ++ vs))
          ≡ (apply r d >>= λ d'. ok (d', whole vs))
    unfolding handler
    process_one-encode (sample pc event) rs vs d (w, _) =
        process_one-pc pc d (event ∷ vs) w ∙ sample-reads pc event vs d w
    process_one-encode (to_task tid app_cookie tgid) rs vs d w =
        to_handler 1 d (tid ∷ app_cookie ∷ esc ∷ 7 ∷ tgid ∷ vs) refl
        ∙ task-reads tid app_cookie esc 7 tgid vs d
    process_one-encode (to_cpu cpu) rs vs d w = to_handler 2 d (cpu ∷ vs) refl ∙ cpu-reads cpu vs d
    process_one-encode (to_image cookie) rs vs d w =
        to_handler 3 d (cookie ∷ vs) refl ∙ image-reads cookie vs d
    process_one-encode to_kernel rs vs d w = to_handler 4 d vs refl
    process_one-encode to_user rs vs d w = to_handler 5 d vs refl
    process_one-encode loaded rs vs d w = to_handler 6 d vs refl
    process_one-encode begin rs vs d w = to_handler 8 d vs refl
    process_one-encode to_xen rs vs d w = to_handler 10 d vs refl

    IsWritable-tail : (r : Record) (rs : List Record) → IsWritable p (r ∷ rs) → IsWritable p rs
    IsWritable-tail (sample pc event) rs (w, ws) = ws
    IsWritable-tail (to_task tid app_cookie tgid) rs w = w
    IsWritable-tail (to_cpu cpu) rs w = w
    IsWritable-tail (to_image cookie) rs w = w
    IsWritable-tail to_kernel rs w = w
    IsWritable-tail to_user rs w = w
    IsWritable-tail loaded rs w = w
    IsWritable-tail begin rs w = w
    IsWritable-tail to_xen rs w = w

    encode-pos : (r : Record) → 1 ≤ length (encode esc r)
    encode-pos (sample pc event) = omega arith
    encode-pos (to_task tid app_cookie tgid) = omega arith
    encode-pos (to_cpu cpu) = omega arith
    encode-pos (to_image cookie) = omega arith
    encode-pos to_kernel = omega arith
    encode-pos to_user = omega arith
    encode-pos loaded = omega arith
    encode-pos begin = omega arith
    encode-pos to_xen = omega arith

    -- The runs of the parts of a sequence, one behind the other.
    then_run :
        (r : Run (Daemon World Sfile Anon))
        (f : Daemon World Sfile Anon → Run (Daemon World Sfile Anon)) (vs : List ℕ)
        (next : Decoder World Sfile Anon → Run (Decoder World Sfile Anon))
        → ((d : Daemon World Sfile Anon) → next (d, whole vs) ≡ (f d >>= λ d'. ok (d', whole [])))
        → ((r >>= λ d. ok (d, whole vs)) >>= next) ≡ ((r >>= f) >>= λ d'. ok (d', whole []))
    then_run (ok d) f vs next h = h d
    then_run (aborted e) f vs next h = refl

    process_loop-encode :
        (rs : List Record) (rounds : ℕ) (d : Daemon World Sfile Anon)
        → IsWritable p rs
        → length (encode_all esc rs) ≤ rounds
        → process_loop ops p ibs rounds (d, whole (encode_all esc rs))
          ≡ (apply_all rs d >>= λ d'. ok (d', whole []))
    unfolding process_loop
    process_loop-encode [] zero d w h = refl
    process_loop-encode [] (suc rounds) d w h = refl
    process_loop-encode (r ∷ rs) zero d w h =
        absurd (omega (arith, length-append (encode esc r) (encode_all esc rs), encode-pos r))
    process_loop-encode (r ∷ rs) (suc rounds) d w h =
        let e = length-append (encode esc r) (encode_all esc rs) in
        rw
          (
            ==_ne (length (encode esc r ++ encode_all esc rs)) 0 (omega (arith, e, encode-pos r)),
            process_one-encode r rs (encode_all esc rs) d w,
          )
          (then_run (apply r d) (apply_all rs) (encode_all esc rs) (process_loop ops p ibs rounds)
            (λ d'.
              process_loop-encode rs rounds d' (IsWritable-tail r rs w)
                (omega (arith, e, encode-pos r))))

    -- Of a buffer that holds a sequence of records, each written with its escape code and no
    -- sample's program counter an escape code, opd_process_samples reads every value, and does to
    -- the daemon what the records say, one behind the other: samples are put, and switches of
    -- task, cpu, image and mode set the context.
    pub opd_process_samples-encode :
        (rs : List Record) (stats : Stats) (world : World)
        → IsWritable p rs
        → opd_process_samples ops p ibs (encode_all esc rs) (length (encode_all esc rs)) stats world
          ≡ (apply_all rs (record { trans = initial_trans; stats = stats; world = world }) >>= λ d'.
              ok (d', whole []))
    unfolding opd_process_samples
    opd_process_samples-encode rs stats world w = process_loop-encode rs _ _ w (omega arith)
