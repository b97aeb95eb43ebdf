-- ===== src/Mangle/Tests.antt =====
-- Names of sample files, and the theorems at them.
use oprofile.Base.{
  ℕ, zero, suc, ◌≤◌, ◌<◌, ◌≡◌, refl, some, none, List, [], ◌∷◌, ◌++◌, length, arith,
}
use oprofile.Base.Digits.{decimal, decimal_from}
use oprofile.Mangle.{
  MangleValues, has_flag, has_slash, append_image, print_int, mangled_len, op_mangle_filename,
}
use oprofile.Mangle.Laws.{
  IsAnonymousArc, op_mangle_filename-mangled_len, op_mangle_filename-mangled_len_overflows,
}

-- A sample of /a by CPU, for task 7.
abbrev values : MangleValues
values = record {
  flags = 2;
  image_name = b'/' ∷ b'a' ∷ [];
  anon_name = none;
  dep_name = b'/' ∷ b'a' ∷ [];
  cg_image_name = none;
  event_name = b'C' ∷ [];
  count = 500;
  unit_mask = 0;
  tgid = 7;
  tid = 0;
  cpu = 0;
}

-- The last parts of the name, behind "{root}//a/{dep}/{root}//a/": "C.500.0.7.all.all".
tail : List ℕ
tail =
    b'C' ∷ b'.' ∷ b'5' ∷ b'0' ∷ b'0' ∷ b'.' ∷ b'0' ∷ b'.' ∷ b'7' ∷ b'.' ∷ b'a' ∷ b'l' ∷ b'l' ∷ b'.'
    ∷ b'a' ∷ b'l' ∷ b'l' ∷ []

abbrev root : List ℕ
root = b'{' ∷ b'r' ∷ b'o' ∷ b'o' ∷ b't' ∷ b'}' ∷ b'/' ∷ b'/' ∷ b'a' ∷ b'/' ∷ []

mangled_run :
    op_mangle_filename [] values
    ≡ root ++ ((b'{' ∷ b'd' ∷ b'e' ∷ b'p' ∷ b'}' ∷ b'/' ∷ []) ++ (root ++ tail))
unfolding op_mangle_filename append_image has_flag has_slash print_int decimal decimal_from tail
mangled_run = refl

op_mangle_filename-mangled_len_example :
    length (op_mangle_filename (b'/' ∷ []) values) < mangled_len (b'/' ∷ []) values
op_mangle_filename-mangled_len_example =
    op_mangle_filename-mangled_len (b'/' ∷ []) values (omega arith)

letters : ℕ → List ℕ
letters zero = []
letters (suc n) = b'x' ∷ letters n

abbrev arc : MangleValues
arc = record values {
  flags = 112;
  anon_name = some (letters 300);
  cg_image_name = some (b'/' ∷ b'b' ∷ []);
}

arc-IsAnonymousArc : IsAnonymousArc arc (letters 300) (b'/' ∷ b'b' ∷ [])
unfolding has_flag
arc-IsAnonymousArc = record {
  user = refl;
  anon = refl;
  cg_anon = refl;
  callgraph = refl;
  named = refl;
  cg_named = refl;
}

long_letters : 256 ≤ length (letters 300)
unfolding letters
long_letters = omega arith

op_mangle_filename-mangled_len_overflows_example :
    mangled_len [] arc ≤ length (op_mangle_filename [] arc)
op_mangle_filename-mangled_len_overflows_example =
    op_mangle_filename-mangled_len_overflows [] arc (letters 300) (b'/' ∷ b'b' ∷ [])
      arc-IsAnonymousArc long_letters
