-- ===== src/ParseDump/LoadBytes.antt =====
-- The bytes of a record of loaded code that the agent library writes (libopagent/opagent.c), read
-- field by field.
use mathlib.Core.List.{append_assoc}
use oprofile.ParseDump.{DumpEntry, c_string}
use oprofile.ParseDump.Laws.{IsText, c_string-IsText}
use oprofile.Agent.{with_zero, load_size, load_record}
use oprofile.Agent.Laws.{code_bytes, padding_bytes, load_bytes}
use oprofile.Agent.DebugLines.Laws.{length-padding_bytes}
use oprofile.JitDump.{CodeLoad, put_code_load, get_code_load}
use oprofile.JitDump.Laws.{padding_8aligned_lem, get_code_load-put_code_load}
use oprofile.Base.{
  ℕ, ◌+◌, ◌^◌, ◌<◌, ◌≤◌, ◌≡◌, ◌≢◌, refl, sym, subst, ap, ◌∙◌, inl, inr, Bool-cases, some, none,
  List, [], ◌∷◌, ◌++◌, length, take, drop, take_all, drop-append, length-append, length-take-le,
  ◌==◌, if◌then◌else◌, u32, u64, arith,
}

-- A report of loaded code, at its time. At address 0 the code is not given.
pub record Load : Type 0 where
  pub now : ℕ
  pub align : ℕ
  pub name : List ℕ
  pub vma : ℕ
  pub code_addr : ℕ
  pub code : List ℕ
  pub size : ℕ

unfoldable pub bytes_of : Load → List ℕ
bytes_of c = load_bytes c.align c.name c.vma c.code_addr c.code c.size c.now

-- What fits the types, and a record that fits a positive `int`.
pub record IsSaneLoad (c : Load) : Type 0 where
  pub now_bound : c.now < u64
  pub align_bound : c.align < u32
  pub vma_bound : c.vma < u64
  pub addr_bound : c.code_addr < u64
  pub text : IsText c.name
  pub given : (c.code_addr ≢ 0) → length c.code ≡ c.size
  pub fits : length c.name + c.size + 48 < 2 ^ 31

-- The entry that a report makes.
unfoldable pub entry_made : ℕ → Load → DumpEntry
entry_made end_time c = record {
  symbol = record {
    vma = c.vma;
    code_size = c.size;
    symbol_name = c.name;
    life_start = c.now;
    life_end = end_time;
  };
  code = if c.code_addr == 0 then none else some c.code;
}

unfoldable pub record_of : Load → CodeLoad
record_of c = load_record c.align c.name c.vma c.code_addr c.size c.now

pub length-put_code_load :
    (r : CodeLoad) (xs : List ℕ) → length (put_code_load r xs) ≡ 40 + length xs
unfolding put_code_load
length-put_code_load r xs = omega arith

pub length-with_zero : (name : List ℕ) → length (with_zero name) ≡ length name + 1
length-with_zero name = length-append name (0 ∷ [])

unfoldable pub load_tail : Load → List ℕ
load_tail c =
    with_zero c.name
    ++ (code_bytes c.code_addr c.size c.code ++ padding_bytes (load_size c.name c.code_addr c.size))

put_code_load-append :
    (r : CodeLoad) (xs ys : List ℕ) → put_code_load r xs ++ ys ≡ put_code_load r (xs ++ ys)
unfolding put_code_load
put_code_load-append r xs ys = refl

drop-put_code_load : (r : CodeLoad) (xs : List ℕ) → drop 40 (put_code_load r xs) ≡ xs
unfolding put_code_load
drop-put_code_load r xs = refl

module _ (c : Load) (sane : IsSaneLoad c) where
  pub size_lem :
      load_size c.name c.code_addr c.size
      ≡ 41 + length c.name + length (code_bytes c.code_addr c.size c.code)
  unfolding load_size code_bytes
  size_lem =
      let fits = sane.fits in
      elim (Bool-cases (c.code_addr == 0)) [
        | inl h ↦ rw h (omega (arith, fits))
        | inr h ↦
            let ne : c.code_addr ≢ 0 = λ e. let bad : ⊥ = grind (arith, h, e) in bad in
            let all : take c.size c.code ≡ c.code =
              subst (λ n. take n c.code ≡ c.code) (sane.given ne) (take_all c.code) in
            rw (h, all) (omega (arith, fits, sane.given ne))
      ]

  pub code_fits : length (code_bytes c.code_addr c.size c.code) ≤ c.size
  unfolding code_bytes
  code_fits = elim (Bool-cases (c.code_addr == 0)) [
    | inl h ↦ rw h (omega arith)
    | inr h ↦ rw h (length-take-le c.size c.code)
  ]

  pub length-bytes_of : length (bytes_of c) ≡ (record_of c).total_size
  unfolding bytes_of load_bytes record_of load_record put_code_load load_size
  length-bytes_of =
      let code = code_bytes c.code_addr c.size c.code in
      let pad = padding_bytes (load_size c.name c.code_addr c.size) in
      omega (
        arith,
        size_lem,
        sane.fits,
        code_fits,
        length-put_code_load (record_of c) (load_tail c),
        length-append (with_zero c.name) (code ++ pad),
        length-with_zero c.name,
        length-append code pad,
        length-padding_bytes (load_size c.name c.code_addr c.size),
        padding_8aligned_lem (load_size c.name c.code_addr c.size),
      )

  pub whole :
      (rest : List ℕ) → bytes_of c ++ rest ≡ put_code_load (record_of c) (load_tail c ++ rest)
  unfolding bytes_of load_bytes record_of load_tail
  whole rest = put_code_load-append (record_of c) (load_tail c) rest

  pub get_code_load-bytes_of :
      (rest : List ℕ) → get_code_load (bytes_of c ++ rest) ≡ some (record_of c)
  unfolding record_of load_record
  get_code_load-bytes_of rest =
      let total : (record_of c).total_size < u32 = omega arith in
      ap get_code_load (whole rest)
      ∙ get_code_load-put_code_load (record_of c) (load_tail c ++ rest) (omega arith) total
          sane.now_bound sane.vma_bound sane.addr_bound (omega (arith, sane.fits)) sane.align_bound

  pub drop-bytes_of : (rest : List ℕ) → drop 40 (bytes_of c ++ rest) ≡ load_tail c ++ rest
  drop-bytes_of rest =
      ap (drop 40) (whole rest) ∙ drop-put_code_load (record_of c) (load_tail c ++ rest)

  pub name-bytes_of : (rest : List ℕ) → c_string (drop 40 (bytes_of c ++ rest)) ≡ some c.name
  unfolding load_tail
  name-bytes_of rest =
      let tail =
        code_bytes c.code_addr c.size c.code
        ++ padding_bytes (load_size c.name c.code_addr c.size) in
      rw (drop-bytes_of rest, append_assoc (with_zero c.name) tail rest)
        (c_string-IsText c.name (tail ++ rest) sane.text)

  -- The memory behind the name.
  pub code-bytes_of :
      (rest : List ℕ)
      → drop (length c.name + 1) (drop 40 (bytes_of c ++ rest))
        ≡ (code_bytes c.code_addr c.size c.code
            ++ padding_bytes (load_size c.name c.code_addr c.size))
          ++ rest
  unfolding load_tail
  code-bytes_of rest =
      let tail =
        code_bytes c.code_addr c.size c.code
        ++ padding_bytes (load_size c.name c.code_addr c.size) in
      rw
        (
          drop-bytes_of rest,
          append_assoc (with_zero c.name) tail rest,
          sym (length-with_zero c.name),
        )
        (drop-append (with_zero c.name) (tail ++ rest))
