-- ===== src/ParseDump/Header.antt =====
-- The header of a dump, written by libopagent/opagent.c and read by opjitconv/parse_dump.c.
use mathlib.Core.List.{append_assoc}
use oprofile.ParseDump.{Dump, c_string, parse_header, read_header}
use oprofile.ParseDump.Laws.{IsText, c_string-IsText}
use oprofile.Agent.{BfdVars, with_zero, header_size}
use oprofile.Agent.Laws.{padding_bytes, header_of, header_bytes}
use oprofile.Agent.DebugLines.Laws.{length-padding_bytes}
use oprofile.JitDump.{padding_8aligned, JitHeader, put_jitheader}
use oprofile.JitDump.Laws.{padding_8aligned_lem, get32-put32}
use oprofile.Base.{
  ℕ, ◌+◌, ◌%◌, ◌<◌, ◌≤◌, ◌≡◌, refl, sym, ap, ◌∙◌, false, some, List, [], ◌∷◌, ◌++◌, length, drop,
  drop-append, length-append, leb, not_lt→ltb, u32, arith,
}

-- What a running program is found to be.
pub record IsSaneVars (vars : BfdVars) : Type 0 where
  pub text : IsText vars.target_name
  pub name_bound : length vars.target_name < 4096
  pub arch_bound : vars.arch < u32
  pub mach_bound : vars.mach < u32

-- What the parser knows of the program.
pub opened : BfdVars → Dump → Dump
opened vars d = record d {
  dump_bfd_arch = vars.arch;
  dump_bfd_mach = vars.mach;
  dump_bfd_target_name = some vars.target_name;
}

length-put_jitheader : (h : JitHeader) (xs : List ℕ) → length (put_jitheader h xs) ≡ 32 + length xs
unfolding put_jitheader
length-put_jitheader h xs = omega arith

put_jitheader-append :
    (h : JitHeader) (xs ys : List ℕ) → put_jitheader h xs ++ ys ≡ put_jitheader h (xs ++ ys)
unfolding put_jitheader
put_jitheader-append h xs ys = refl

read_header_lem :
    (h : JitHeader) (name : List ℕ) (xs : List ℕ) (d : Dump)
    → h.magic ≡ 0x4F74496A
    → h.version ≡ 1
    → h.totalsize < u32
    → h.bfd_arch < u32
    → h.bfd_mach < u32
    → c_string xs ≡ some name
    → h.totalsize ≤ 32 + length xs
    → read_header (put_jitheader h xs) d
      ≡ some (
        record d {
          dump_bfd_arch = h.bfd_arch;
          dump_bfd_mach = h.bfd_mach;
          dump_bfd_target_name = some name;
        },
        drop h.totalsize (put_jitheader h xs),
      )
unfolding read_header put_jitheader
read_header_lem h name xs d m v t a b s fits =
    rw
      (
        get32-put32 h.magic _ (omega (arith, m)),
        get32-put32 h.version _ (omega (arith, v)),
        get32-put32 h.totalsize _ t,
        get32-put32 h.bfd_arch _ a,
        get32-put32 h.bfd_mach _ b,
        s,
        m,
        v,
        not_lt→ltb (length (put_jitheader h xs)) h.totalsize
            (λ l. absurd (omega (arith, fits, l, length-put_jitheader h xs))),
      )
      refl

module _ (gap now : ℕ) (vars : BfdVars) (sane : IsSaneVars vars) where
  pad : List ℕ
  pad = padding_bytes ((32 + length vars.target_name + 1) % u32)

  length-pad :
      length (with_zero vars.target_name ++ pad)
      ≡ length vars.target_name + 1 + padding_8aligned ((32 + length vars.target_name + 1) % u32)
  unfolding pad
  length-pad = omega (
    arith,
    length-append (with_zero vars.target_name) pad,
    length-append vars.target_name (0 ∷ []),
    length-padding_bytes ((32 + length vars.target_name + 1) % u32),
  )

  header_size_lem : header_size vars.target_name ≡ 32 + length (with_zero vars.target_name ++ pad)
  unfolding header_size
  header_size_lem = omega (
    arith,
    length-pad,
    sane.name_bound,
    padding_8aligned_lem ((32 + length vars.target_name + 1) % u32),
  )

  length-header_bytes : length (header_bytes gap now vars) ≡ header_size vars.target_name
  unfolding header_bytes pad
  length-header_bytes = omega (
    arith,
    header_size_lem,
    length-put_jitheader (header_of gap now vars) (with_zero vars.target_name ++ pad),
  )

  -- The header is read back, and the entries begin behind it.
  pub parse_header-header_bytes :
      (rest : List ℕ) (d : Dump)
      → parse_header (header_bytes gap now vars ++ rest) d ≡ some (opened vars d, rest)
  unfolding parse_header header_bytes pad header_of opened
  parse_header-header_bytes rest d =
      let h = header_of gap now vars in
      let xs = with_zero vars.target_name ++ (pad ++ rest) in
      let whole : header_bytes gap now vars ++ rest ≡ put_jitheader h xs =
        put_jitheader-append h (with_zero vars.target_name ++ pad) rest
        ∙ ap (put_jitheader h) (append_assoc (with_zero vars.target_name) pad rest) in
      let size = length-append (header_bytes gap now vars) rest in
      let long = length-put_jitheader h xs in
      let more = length-append (with_zero vars.target_name) (pad ++ rest) in
      let more' = length-append vars.target_name (0 ∷ []) in
      let e : leb (length (header_bytes gap now vars ++ rest)) 32 ≡ false =
        ground (arith, long, ap length whole, more, more') in
      let dropped : drop (header_size vars.target_name) (header_bytes gap now vars ++ rest) ≡ rest =
        ap (λ k. drop k (header_bytes gap now vars ++ rest)) (sym length-header_bytes)
        ∙ drop-append (header_bytes gap now vars) rest in
      let fits : header_size vars.target_name ≤ 32 + length xs =
        omega (arith, size, length-header_bytes, long, ap length whole) in
      let bound : header_size vars.target_name < u32 = omega (
        arith,
        header_size_lem,
        length-pad,
        sane.name_bound,
        padding_8aligned_lem ((32 + length vars.target_name + 1) % u32),
      ) in
      rw e (
        ap (λ x. read_header x d) whole
        ∙ read_header_lem h vars.target_name xs d refl refl bound sane.arch_bound sane.mach_bound
            (c_string-IsText vars.target_name (pad ++ rest) sane.text) fits
        ∙ λ i.
            some
              (opened vars d, (ap (drop (header_size vars.target_name)) (sym whole) ∙ dropped) i))
