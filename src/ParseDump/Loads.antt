-- ===== src/ParseDump/Loads.antt =====
-- A record of loaded code that the agent library writes (libopagent/opagent.c), read by the parser
-- of dumps (opjitconv/parse_dump.c).
use mathlib.Core.List.{append_assoc}
use oprofile.ParseDump.{
  Dump, sign_extended, size_agrees, loaded_entry, parse_code_load, parse_record, parse_entries,
}
use oprofile.ParseDump.Laws.{parse_entries-step}
use oprofile.Agent.{load_size, load_record}
use oprofile.Agent.Laws.{code_bytes, padding_bytes}
use oprofile.JitDump.{padding_8aligned, get32}
use oprofile.JitDump.Laws.{padding_8aligned_lem, id-put_code_load, total_size-put_code_load}
use oprofile.Base.{
  ℕ, suc, ◌+◌, ◌%◌, ◌^◌, ◌≡◌, ◌≢◌, refl, sym, subst, ap, ◌∙◌, inl, inr, true, false, Bool-cases,
  some, List, ◌∷◌, ◌++◌, length, take, drop, take_all, drop-append, take-append, length-append,
  lt→ltb, ==_refl, ◌==◌, u32, u64, arith,
}
use oprofile.ParseDump.LoadBytes.{
  Load, bytes_of, IsSaneLoad, entry_made, record_of, length-put_code_load, load_tail,
  length-bytes_of, whole, get_code_load-bytes_of, name-bytes_of, code-bytes_of,
}

module _ (c : Load) (sane : IsSaneLoad c) where
  load_size-given :
      (c.code_addr == 0) ≡ false → load_size c.name c.code_addr c.size ≡ 41 + length c.name + c.size
  unfolding load_size
  load_size-given h = rw h (omega (arith, sane.fits))

  size_agrees-given :
      (c.code_addr == 0) ≡ false → size_agrees (record_of c) c.name (record_of c).total_size ≡ true
  unfolding size_agrees record_of load_record
  size_agrees-given h =
      let x = load_size c.name c.code_addr c.size in
      let given = load_size-given h in
      let s : sign_extended c.size ≡ c.size =
        rw (lt→ltb c.size (2 ^ 31) (omega (arith, sane.fits))) refl in
      let b : (40 + length c.name + 1 + c.size) % u64 ≡ x = omega (arith, given, sane.fits) in
      let t : sign_extended ((x + padding_8aligned x) % u32)
          ≡ (40 + length c.name + 1 + c.size + padding_8aligned x) % u64 =
        rw
          (lt→ltb ((x + padding_8aligned x) % u32) (2 ^ 31)
            (omega (arith, given, sane.fits, padding_8aligned_lem x)))
          (omega (arith, given, sane.fits, padding_8aligned_lem x)) in
      rw (h, s, b, t) (==_refl ((40 + length c.name + 1 + c.size + padding_8aligned x) % u64))

  size_agrees-null :
      (c.code_addr == 0) ≡ true → size_agrees (record_of c) c.name (record_of c).total_size ≡ true
  unfolding size_agrees record_of load_record
  size_agrees-null h = rw (size_agrees, h) refl

  size_agrees-record_of : size_agrees (record_of c) c.name (record_of c).total_size ≡ true
  size_agrees-record_of = elim (Bool-cases (c.code_addr == 0)) [
    | inr h ↦ size_agrees-given h
    | inl h ↦ size_agrees-null h
  ]

  code-given :
      (rest : List ℕ)
      → (c.code_addr == 0) ≡ false
      → take c.size (drop (length c.name + 1) (drop 40 (bytes_of c ++ rest))) ≡ c.code
  unfolding code_bytes
  code-given rest h =
      let ne : c.code_addr ≢ 0 = λ e. let bad : ⊥ = grind (arith, h, e) in bad in
      let all : take c.size c.code ≡ c.code =
        subst (λ n. take n c.code ≡ c.code) (sane.given ne) (take_all c.code) in
      let pad = padding_bytes (load_size c.name c.code_addr c.size) in
      let e : code_bytes c.code_addr c.size c.code ≡ c.code = rw h all in
      rw ((code-bytes_of c sane rest), e, append_assoc c.code pad rest)
        (subst (λ n. take n (c.code ++ (pad ++ rest)) ≡ c.code) (sane.given ne)
          (take-append c.code (pad ++ rest)))

  entry-bytes_of :
      (end_time : ℕ) (rest : List ℕ)
      → loaded_entry
          (record_of c)
          c.name
          (drop (length c.name + 1) (drop 40 (bytes_of c ++ rest)))
          end_time
        ≡ entry_made end_time c
  unfolding loaded_entry record_of load_record entry_made
  entry-bytes_of end_time rest = elim (Bool-cases (c.code_addr == 0)) [
    | inl h ↦ rw h refl
    | inr h ↦ rw (h, code-given rest h) refl
  ]

  -- The record of a report read back.
  pub parse_record-load :
      (end_time : ℕ) (rest : List ℕ) (d : Dump)
      → parse_record 0 (bytes_of c ++ rest) (record_of c).total_size end_time d
        ≡ some (record d { jitentry_list = entry_made end_time c ∷ d.jitentry_list }, true)
  unfolding parse_record parse_code_load
  parse_record-load end_time rest d =
      rw
        (
          (get_code_load-bytes_of c sane rest),
          (name-bytes_of c sane rest),
          entry-bytes_of end_time rest,
          size_agrees-record_of,
        )
        refl

  -- A round of the parser over the record.
  pub parse_entries-load :
      (n end_time : ℕ) (rest : List ℕ) (d : Dump)
      → parse_entries (suc n) (bytes_of c ++ rest) end_time true d
        ≡ parse_entries n rest end_time true
            (record d { jitentry_list = entry_made end_time c ∷ d.jitentry_list })
  unfolding record_of load_record
  parse_entries-load n end_time rest d =
      let r = record_of c in
      let d' : Dump = record d { jitentry_list = entry_made end_time c ∷ d.jitentry_list } in
      let len = length-append (bytes_of c) rest in
      let long = length-put_code_load r (load_tail c ++ rest) in
      let id : get32 (bytes_of c ++ rest) ≡ some 0 =
        ap get32 ((whole c sane rest)) ∙ id-put_code_load r (load_tail c ++ rest) (omega arith) in
      let total : get32 (drop 4 (bytes_of c ++ rest)) ≡ some r.total_size =
        ap (λ x. get32 (drop 4 x)) ((whole c sane rest))
        ∙ total_size-put_code_load r (load_tail c ++ rest) (omega arith) in
      let dropped : drop r.total_size (bytes_of c ++ rest) ≡ rest =
        ap (λ k. drop k (bytes_of c ++ rest)) (sym (length-bytes_of c sane))
        ∙ drop-append (bytes_of c) rest in
      parse_entries-step n 0 r.total_size end_time (bytes_of c ++ rest) true true d d'
        (omega (arith, long, ap length ((whole c sane rest)))) id total
        (omega (arith, len, (length-bytes_of c sane))) (parse_record-load end_time rest d)
      ∙ ap (λ x. parse_entries n x end_time true d') dropped
