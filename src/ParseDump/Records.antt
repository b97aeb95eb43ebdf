-- ===== src/ParseDump/Records.antt =====
-- The other records of the agent library (libopagent/opagent.c), read by the parser of dumps
-- (opjitconv/parse_dump.c).
use oprofile.ParseDump.{
  Dump, end_life, parse_code_unload, parse_code_debug_info, parse_record, parse_entries,
}
use oprofile.ParseDump.Laws.{parse_entries-step}
use oprofile.Agent.Laws.{unload_bytes, close_bytes, padding_bytes}
use oprofile.Agent.DebugLines.{DebugLineInfo}
use oprofile.Agent.DebugLines.Laws.{
  length-padding_bytes, lines_bytes, lines_size, sized, debug_bytes,
}
use oprofile.JitDump.{
  padding_8aligned, CodeUnload, CodeClose, CodeDebugInfo, put_code_unload, put_code_close,
  put_code_debug_info, get32, get64, get_code_unload,
}
use oprofile.JitDump.Laws.{
  padding_8aligned_lem, get64-put64, get_code_unload-put_code_unload, id-put_code_unload,
  total_size-put_code_unload, id-put_code_close, total_size-put_code_close, id-put_code_debug_info,
  total_size-put_code_debug_info,
}
use oprofile.Base.{
  ℕ, suc, ◌+◌, ◌%◌, ◌<◌, ◌≤◌, ◌≡◌, refl, sym, ap, ◌∙◌, true, not, ◌&&◌, some, List, ◌∷◌, ◌++◌,
  length, drop, drop-append, length-append, ltb, ==_ne, ◌==◌, if◌then◌else◌, u32, u64, arith,
}

-- What a report of unloaded code does to the entries.
pub unloaded : ℕ → ℕ → ℕ → Dump → Dump
unloaded vma now end_time d =
    if ltb 0 now && not (vma == 0)
    then record d { jitentry_list = end_life vma now end_time d.jitentry_list }
    else d

unload_of : ℕ → ℕ → CodeUnload
unload_of vma now = record { id = 1; total_size = 24; timestamp = now; vma = vma }

whole_unload :
    (vma now : ℕ) (rest : List ℕ)
    → unload_bytes vma now ++ rest ≡ put_code_unload (unload_of vma now) rest
unfolding unload_bytes put_code_unload unload_of
whole_unload vma now rest = refl

length-put_code_unload :
    (r : CodeUnload) (xs : List ℕ) → length (put_code_unload r xs) ≡ 24 + length xs
unfolding put_code_unload
length-put_code_unload r xs = omega arith

drop-unload_bytes : (vma now : ℕ) (rest : List ℕ) → drop 24 (unload_bytes vma now ++ rest) ≡ rest
unfolding unload_bytes put_code_unload
drop-unload_bytes vma now rest = refl

parse_record-unload :
    (vma now end_time : ℕ) (rest : List ℕ) (d : Dump)
    → vma < u64
    → now < u64
    → parse_record 1 (unload_bytes vma now ++ rest) 24 end_time d
      ≡ some (unloaded vma now end_time d, true)
unfolding parse_record parse_code_unload unloaded unload_of
parse_record-unload vma now end_time rest d hv hn =
    let r : get_code_unload (unload_bytes vma now ++ rest) ≡ some (unload_of vma now) =
      ap get_code_unload (whole_unload vma now rest)
      ∙ get_code_unload-put_code_unload (unload_of vma now) rest (omega arith) (omega arith) hn
          hv in
    rw r refl

pub parse_entries-unload :
    (n vma now end_time : ℕ) (rest : List ℕ) (d : Dump)
    → vma < u64
    → now < u64
    → parse_entries (suc n) (unload_bytes vma now ++ rest) end_time true d
      ≡ parse_entries n rest end_time true (unloaded vma now end_time d)
unfolding unload_of
parse_entries-unload n vma now end_time rest d hv hn =
    let r = unload_of vma now in
    let bytes = unload_bytes vma now ++ rest in
    let e = whole_unload vma now rest in
    let long : length bytes ≡ 24 + length rest = ap length e ∙ length-put_code_unload r rest in
    parse_entries-step n 1 24 end_time bytes true true d (unloaded vma now end_time d)
      (omega (arith, long)) (ap get32 e ∙ id-put_code_unload r rest (omega arith))
      (ap (λ x. get32 (drop 4 x)) e ∙ total_size-put_code_unload r rest (omega arith))
      (omega (arith, long)) (parse_record-unload vma now end_time rest d hv hn)
    ∙ ap (λ x. parse_entries n x end_time true (unloaded vma now end_time d))
        (drop-unload_bytes vma now rest)

close_of : ℕ → CodeClose
close_of now = record { id = 2; total_size = 16; timestamp = now }

whole_close :
    (now : ℕ) (rest : List ℕ) → close_bytes now ++ rest ≡ put_code_close (close_of now) rest
unfolding close_bytes put_code_close close_of
whole_close now rest = refl

length-put_code_close :
    (r : CodeClose) (xs : List ℕ) → length (put_code_close r xs) ≡ 16 + length xs
unfolding put_code_close
length-put_code_close r xs = omega arith

drop-close_bytes : (now : ℕ) (rest : List ℕ) → drop 16 (close_bytes now ++ rest) ≡ rest
unfolding close_bytes put_code_close
drop-close_bytes now rest = refl

parse_record-close :
    (end_time : ℕ) (rec : List ℕ) (d : Dump) → parse_record 2 rec 16 end_time d ≡ some (d, true)
unfolding parse_record
parse_record-close end_time rec d = refl

pub parse_entries-close :
    (n now end_time : ℕ) (rest : List ℕ) (d : Dump)
    → parse_entries (suc n) (close_bytes now ++ rest) end_time true d
      ≡ parse_entries n rest end_time true d
unfolding close_of
parse_entries-close n now end_time rest d =
    let r = close_of now in
    let bytes = close_bytes now ++ rest in
    let e = whole_close now rest in
    let long : length bytes ≡ 16 + length rest = ap length e ∙ length-put_code_close r rest in
    parse_entries-step n 2 16 end_time bytes true true d d (omega (arith, long))
      (ap get32 e ∙ id-put_code_close r rest (omega arith))
      (ap (λ x. get32 (drop 4 x)) e ∙ total_size-put_code_close r rest (omega arith))
      (omega (arith, long)) (parse_record-close end_time bytes d)
    ∙ ap (λ x. parse_entries n x end_time true d) (drop-close_bytes now rest)

-- What a report of debug lines adds: the bytes of its record, and those behind it.
pub debugged : CodeDebugInfo → List DebugLineInfo → List ℕ → ℕ → Dump → Dump
debugged rec lines rest end_time d = record d {
  jitentry_debug_line_list =
      record {
        data_to_end = debug_bytes rec lines ++ rest;
        life_start = rec.timestamp;
        life_end = end_time;
      }
      ∷ d.jitentry_debug_line_list;
}

length-put_code_debug_info :
    (r : CodeDebugInfo) (xs : List ℕ) → length (put_code_debug_info r xs) ≡ 32 + length xs
unfolding put_code_debug_info
length-put_code_debug_info r xs = omega arith

module _ (rec : CodeDebugInfo) (lines : List DebugLineInfo)
    (fits : length (lines_bytes lines) + 48 < u32) where
  tail : List ℕ
  tail = lines_bytes lines ++ padding_bytes (lines_size lines)

  total : ℕ
  total = (lines_size lines + padding_8aligned (lines_size lines)) % u32

  length-debug_bytes : length (debug_bytes rec lines) ≡ total
  unfolding debug_bytes tail total lines_size
  length-debug_bytes = omega (
    arith,
    fits,
    length-put_code_debug_info (sized rec lines) tail,
    length-append (lines_bytes lines) (padding_bytes (lines_size lines)),
    length-padding_bytes (lines_size lines),
    padding_8aligned_lem (lines_size lines),
  )

  total_bounds : (32 ≤ total) × (total < u32)
  unfolding total lines_size
  total_bounds = (omega (arith, fits, padding_8aligned_lem (lines_size lines)), omega arith)

  whole :
      (rest : List ℕ)
      → debug_bytes rec lines ++ rest ≡ put_code_debug_info (sized rec lines) (tail ++ rest)
  unfolding debug_bytes tail put_code_debug_info
  whole rest = refl

  timestamp-debug_bytes :
      (rest : List ℕ)
      → rec.timestamp < u64
      → get64 (drop 8 (debug_bytes rec lines ++ rest)) ≡ some rec.timestamp
  unfolding debug_bytes put_code_debug_info sized
  timestamp-debug_bytes rest h = get64-put64 rec.timestamp _ h

  parse_record-debug :
      (end_time : ℕ) (rest : List ℕ) (d : Dump)
      → rec.timestamp < u64
      → parse_record 3 (debug_bytes rec lines ++ rest) total end_time d
        ≡ some (debugged rec lines rest end_time d, true)
  unfolding parse_record parse_code_debug_info debugged
  parse_record-debug end_time rest d h =
      rw
        (==_ne total 0 (λ e. absurd (omega (arith, e, total_bounds))), timestamp-debug_bytes rest h)
        refl

  pub parse_entries-debug :
      (n end_time : ℕ) (rest : List ℕ) (d : Dump)
      → rec.timestamp < u64
      → rec.id ≡ 3
      → parse_entries (suc n) (debug_bytes rec lines ++ rest) end_time true d
        ≡ parse_entries n rest end_time true (debugged rec lines rest end_time d)
  unfolding sized total
  parse_entries-debug n end_time rest d h h₃ =
      let r = sized rec lines in
      let bytes = debug_bytes rec lines ++ rest in
      let len = length-append (debug_bytes rec lines) rest in
      let id : get32 bytes ≡ some 3 =
        ap get32 (whole rest)
        ∙ id-put_code_debug_info r (tail ++ rest) (omega (arith, h₃))
        ∙ ap some h₃ in
      let dropped : drop total bytes ≡ rest =
        ap (λ k. drop k bytes) (sym length-debug_bytes)
        ∙ drop-append (debug_bytes rec lines) rest in
      parse_entries-step n 3 total end_time bytes true true d (debugged rec lines rest end_time d)
        (omega (arith, len, length-debug_bytes, total_bounds)) id
        (ap (λ x. get32 (drop 4 x)) (whole rest)
          ∙ total_size-put_code_debug_info r (tail ++ rest) (omega arith))
        (omega (arith, len, length-debug_bytes)) (parse_record-debug end_time rest d h)
      ∙ ap (λ x. parse_entries n x end_time true (debugged rec lines rest end_time d)) dropped
