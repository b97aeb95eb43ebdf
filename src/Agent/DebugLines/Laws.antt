-- ===== src/Agent/DebugLines/Laws.antt =====
-- The bytes that `op_write_debug_line_info` leaves when every call of the system succeeds.
use mathlib.Core.List.{append_assoc, append-nil}
use oprofile.Agent.{DumpFile, fwrite, write_prefix, seek, pad_bytes, with_zero}
use oprofile.Agent.DebugLines.{
  DebugLineInfo, write_lines, finish_lines, write_debug_record, op_write_debug_line_info,
}
use oprofile.Agent.Laws.{
  working, at_end, fwrite_lem, obtain_lock_lem, padding_bytes, write_padding_lem,
}
use oprofile.JitDump.{
  padding_8aligned, put32, put64, jit_code_debug_info, CodeDebugInfo, put_code_debug_info,
}
use oprofile.JitDump.Laws.{padding_8aligned_lem}
use oprofile.Base.{
  ℕ, ◌+◌, ◌*◌, ◌-◌, ◌%◌, ◌≡◌, refl, sym, ap, ◌∙◌, Bool, true, false, List, [], ◌∷◌, ◌++◌, length,
  take_all, drop_all, drop-append, take-append, length-take, length-append, u32, arith,
}

pub length-padding_bytes : (x : ℕ) → length (padding_bytes x) ≡ padding_8aligned x
length-padding_bytes x =
    length-take (padding_8aligned x) pad_bytes (omega (arith, padding_8aligned_lem x))

unfoldable pub lines_bytes : List DebugLineInfo → List ℕ
lines_bytes [] = []
lines_bytes (line ∷ lines) =
    put64 line.vma (put32 line.lineno (with_zero line.filename ++ lines_bytes lines))

write_lines_lem :
    (now n : ℕ) (lines : List DebugLineInfo) (file : List ℕ) (l : Bool)
    → write_lines (working now) n lines (at_end file l)
      ≡ (at_end (file ++ lines_bytes lines) l, true)
unfolding write_lines lines_bytes
write_lines_lem now n [] file l = λ i. (at_end (sym (append-nil file) i) l, true)
write_lines_lem now n (line ∷ lines) file l =
    let vma = put64 line.vma [] in
    let no = put32 line.lineno [] in
    let name = with_zero line.filename in
    let joined : ((file ++ vma) ++ no) ++ name ≡ file ++ (vma ++ (no ++ name)) =
      append_assoc (file ++ vma) no name ∙ append_assoc file vma (no ++ name) in
    let all : (((file ++ vma) ++ no) ++ name) ++ lines_bytes lines
        ≡ file ++ lines_bytes (line ∷ lines) =
      ap (λ x. x ++ lines_bytes lines) joined
      ∙ append_assoc file (vma ++ (no ++ name)) (lines_bytes lines) in
    rw
      (
        fwrite_lem now n vma file l,
        fwrite_lem now (n + 1) no (file ++ vma) l,
        fwrite_lem now (n + 2) name ((file ++ vma) ++ no) l,
        write_lines_lem now (n + 3) lines (((file ++ vma) ++ no) ++ name) l,
      )
      (λ i. (at_end (all i) l, true))

-- A position within the file, between two parts of it.
seek_lem :
    (file rest : List ℕ) (l : Bool)
    → seek (length file) (at_end (file ++ rest) l)
      ≡ record { before = file; behind = rest; locked = l; closed = false }
unfolding seek
seek_lem file rest l =
    let whole : (file ++ rest) ++ [] ≡ file ++ rest = append-nil (file ++ rest) in
    rw (whole, take-append file rest, drop-append file rest)

overwrite :
    (now n : ℕ) (file : List ℕ) (old new : CodeDebugInfo) (rest : List ℕ) (l : Bool)
    → fwrite (working now) n (put_code_debug_info new []) (record {
      before = file;
      behind = put_code_debug_info old rest;
      locked = l;
      closed = false;
    })
      ≡ (
        record {
          before = file ++ put_code_debug_info new [];
          behind = rest;
          locked = l;
          closed = false;
        },
        true,
      )
unfolding fwrite write_prefix put_code_debug_info
overwrite now n file old new rest l = refl

put_code_debug_info-append :
    (r : CodeDebugInfo) (xs ys : List ℕ)
    → put_code_debug_info r xs ++ ys ≡ put_code_debug_info r (xs ++ ys)
unfolding put_code_debug_info
put_code_debug_info-append r xs ys = refl

seek_end :
    (file rest : List ℕ) (n : ℕ) (l : Bool)
    → n ≡ length (file ++ rest)
    → seek n (record { before = file; behind = rest; locked = l; closed = false })
      ≡ at_end (file ++ rest) l
unfolding seek
seek_end file rest n l h = rw (h, take_all (file ++ rest), drop_all (file ++ rest))

unfoldable pub lines_size : List DebugLineInfo → ℕ
lines_size lines = (32 + length (lines_bytes lines)) % u32

-- The record as it is written at last.
unfoldable pub sized : CodeDebugInfo → List DebugLineInfo → CodeDebugInfo
sized rec lines = record rec {
  total_size = (lines_size lines + padding_8aligned (lines_size lines)) % u32;
}

unfoldable pub debug_bytes : CodeDebugInfo → List DebugLineInfo → List ℕ
debug_bytes rec lines =
    put_code_debug_info (sized rec lines) (lines_bytes lines ++ padding_bytes (lines_size lines))

length-put_code_debug_info :
    (r : CodeDebugInfo) (xs : List ℕ) → length (put_code_debug_info r xs) ≡ 32 + length xs
unfolding put_code_debug_info
length-put_code_debug_info r xs = omega arith

-- The position behind the last entry, from that of the record.
size_lem :
    (file : List ℕ) (rec : CodeDebugInfo) (lines : List DebugLineInfo)
    → (length (file ++ put_code_debug_info rec (lines_bytes lines)) - length file) % u32
      ≡ lines_size lines
unfolding lines_size
size_lem file rec lines =
    let whole = put_code_debug_info rec (lines_bytes lines) in
    let n : length (file ++ whole) - length file ≡ 32 + length (lines_bytes lines) =
      omega (arith, length-append file whole, length-put_code_debug_info rec (lines_bytes lines)) in
    ap (λ k. k % u32) n

-- The last position, from the length of what is written.
end_lem :
    (file : List ℕ) (old new : CodeDebugInfo) (xs pad : List ℕ) (count : ℕ)
    → length pad ≡ count
    → length (file ++ put_code_debug_info old xs) + count
      ≡ length ((file ++ put_code_debug_info new []) ++ (xs ++ pad))
end_lem file old new xs pad count h = omega (
  arith,
  h,
  length-append file (put_code_debug_info old xs),
  length-put_code_debug_info old xs,
  length-append (file ++ put_code_debug_info new []) (xs ++ pad),
  length-append file (put_code_debug_info new []),
  length-put_code_debug_info new [],
  length-append xs pad,
)

finish_lines_lem :
    (now n : ℕ) (file : List ℕ) (rec : CodeDebugInfo) (lines : List DebugLineInfo) (l : Bool)
    → finish_lines
        (working now)
        n
        (length file)
        rec
        (at_end (file ++ put_code_debug_info rec (lines_bytes lines)) l)
      ≡ (at_end (file ++ debug_bytes rec lines) l, true)
unfolding finish_lines debug_bytes sized
finish_lines_lem now n file rec lines l =
    let body = lines_bytes lines in
    let pad = padding_bytes (lines_size lines) in
    let whole = file ++ put_code_debug_info rec body in
    let padded : whole ++ pad ≡ file ++ put_code_debug_info rec (body ++ pad) =
      append_assoc file (put_code_debug_info rec body) pad
      ∙ ap (λ x. file ++ x) (put_code_debug_info-append rec body pad) in
    let joined : (file ++ put_code_debug_info (sized rec lines) []) ++ (body ++ pad)
        ≡ file ++ debug_bytes rec lines =
      append_assoc file (put_code_debug_info (sized rec lines) []) (body ++ pad)
      ∙ ap (λ x. file ++ x) (put_code_debug_info-append (sized rec lines) [] (body ++ pad)) in
    let at_last =
      seek_end (file ++ put_code_debug_info (sized rec lines) []) (body ++ pad)
        (length whole + padding_8aligned (lines_size lines)) l
        (end_lem file rec (sized rec lines) body pad (padding_8aligned (lines_size lines))
          (length-padding_bytes (lines_size lines))) in
    rw
      (
        size_lem file rec lines,
        write_padding_lem now n (padding_8aligned (lines_size lines)) whole l,
        padded,
        seek_lem file (put_code_debug_info rec (body ++ pad)) l,
        overwrite now (n + 1) file rec (sized rec lines) (body ++ pad) l,
        at_last,
      )
      (λ i. (at_end (joined i) l, true))

-- The record as it is written at first.
unfoldable pub debug_record : ℕ → ℕ → ℕ → List DebugLineInfo → CodeDebugInfo
debug_record align code_addr now lines = record {
  id = jit_code_debug_info;
  total_size = 0;
  timestamp = now;
  code_addr = code_addr;
  nr_entry = length lines % u32;
  align = align;
}

write_debug_record_lem :
    (now : ℕ) (file : List ℕ) (rec : CodeDebugInfo) (lines : List DebugLineInfo) (l : Bool)
    → write_debug_record (working now) rec lines (at_end file l)
      ≡ (at_end (file ++ debug_bytes rec lines) l, true)
unfolding write_debug_record
write_debug_record_lem now file rec lines l =
    let r = put_code_debug_info rec [] in
    let joined : (file ++ r) ++ lines_bytes lines
        ≡ file ++ put_code_debug_info rec (lines_bytes lines) =
      append_assoc file r (lines_bytes lines)
      ∙ ap (λ x. file ++ x) (put_code_debug_info-append rec [] (lines_bytes lines)) in
    rw
      (
        fwrite_lem now 0 r file l,
        write_lines_lem now 1 lines (file ++ r) l,
        joined,
        finish_lines_lem now (1 + 3 * length lines) file rec lines l,
      )
      refl

pub op_write_debug_line_info-debug_bytes :
    (now align code_addr : ℕ) (line : DebugLineInfo) (lines : List DebugLineInfo) (file : List ℕ)
    → op_write_debug_line_info (working now) align code_addr (line ∷ lines) (at_end file false) ≡ (
      at_end
          (file ++ debug_bytes (debug_record align code_addr now (line ∷ lines)) (line ∷ lines))
          false,
      true,
    )
unfolding op_write_debug_line_info debug_record
op_write_debug_line_info-debug_bytes now align code_addr line lines file =
    rw
      (
        op_write_debug_line_info,
        write_debug_record_lem now file (debug_record align code_addr now (line ∷ lines))
            (line ∷ lines) true,
        obtain_lock_lem now,
      )
      refl

pub op_write_debug_line_info-nil :
    (now align code_addr : ℕ) (f : DumpFile)
    → op_write_debug_line_info (working now) align code_addr [] f ≡ (f, true)
unfolding op_write_debug_line_info
op_write_debug_line_info-nil now align code_addr f = refl
