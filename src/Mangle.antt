-- ===== src/Mangle.antt =====
-- The names of sample files (libop/op_mangle.c, libop/op_mangle.h).
mod Laws
mod Tests
use oprofile.Base.Digits.{decimal}
use oprofile.Base.{
  ℕ, ◌+◌, ◌-◌, ◌^◌, bit_and, Bool, true, false, not, ◌&&◌, ◌||◌, Option, some, none, List, [], ◌∷◌,
  ◌++◌, length, ltb, ◌==◌, if◌then◌else◌, u32,
}

abbrev pub mangle_cpu : ℕ
mangle_cpu = 2 ^ 0

abbrev pub mangle_tgid : ℕ
mangle_tgid = 2 ^ 1

abbrev pub mangle_tid : ℕ
mangle_tid = 2 ^ 2

abbrev pub mangle_kernel : ℕ
mangle_kernel = 2 ^ 3

abbrev pub mangle_callgraph : ℕ
mangle_callgraph = 2 ^ 4

abbrev pub mangle_anon : ℕ
mangle_anon = 2 ^ 5

abbrev pub mangle_cg_anon : ℕ
mangle_cg_anon = 2 ^ 6

-- `struct mangle_values`; a number is kept as its 32 bits.
pub record MangleValues : Type 0 where
  pub flags : ℕ
  pub image_name : List ℕ
  pub anon_name : Option (List ℕ)
  pub dep_name : List ℕ
  pub cg_image_name : Option (List ℕ)
  pub event_name : List ℕ
  pub count : ℕ
  pub unit_mask : ℕ
  pub tgid : ℕ
  pub tid : ℕ
  pub cpu : ℕ

pub has_flag : ℕ → ℕ → Bool
has_flag flags flag = not (bit_and flags flag == 0)

-- Whether `strchr` finds a slash.
pub has_slash : List ℕ → Bool
has_slash [] = false
has_slash (c ∷ name) = let rest = has_slash name in if c == b'/' then true else rest

abbrev pub anon_text : Bool → Option (List ℕ) → List ℕ
anon_text true (some name) =
    (b'{' ∷ b'a' ∷ b'n' ∷ b'o' ∷ b'n' ∷ b':' ∷ []) ++ (name ++ (b'}' ∷ b'/' ∷ []))
anon_text true none = b'{' ∷ b'r' ∷ b'o' ∷ b'o' ∷ b't' ∷ b'}' ∷ b'/' ∷ []
anon_text false _ = b'{' ∷ b'r' ∷ b'o' ∷ b'o' ∷ b't' ∷ b'}' ∷ b'/' ∷ []

-- What is appended for an image.
pub append_image : ℕ → Bool → List ℕ → Option (List ℕ) → List ℕ
unfolding has_flag has_slash
append_image flags anon name anon_name =
    (if has_flag flags mangle_kernel && not (has_slash name)
      then b'{' ∷ b'k' ∷ b'e' ∷ b'r' ∷ b'n' ∷ b'}' ∷ b'/' ∷ []
      else anon_text anon anon_name)
    ++ (name ++ (b'/' ∷ []))

-- "%d"
pub print_int : ℕ → List ℕ
print_int n = if ltb n (2 ^ 31) then decimal n else b'-' ∷ decimal (u32 - n)

abbrev pub int_or_all : Bool → ℕ → List ℕ
int_or_all true n = print_int n
int_or_all false n = b'a' ∷ b'l' ∷ b'l' ∷ []

abbrev pub callgraph_part : Bool → ℕ → Option (List ℕ) → Option (List ℕ) → List ℕ
callgraph_part true flags (some name) anon_name =
    (b'{' ∷ b'c' ∷ b'g' ∷ b'}' ∷ b'/' ∷ [])
    ++ append_image flags (has_flag flags mangle_cg_anon) name anon_name
callgraph_part true flags none anon_name = []
callgraph_part false flags _ anon_name = []

abbrev pub callgraph_len : Bool → Option (List ℕ) → ℕ
callgraph_len true (some name) = length name + 1
callgraph_len true none = 0
callgraph_len false _ = 0

abbrev pub anon_len : Bool → Option (List ℕ) → ℕ
anon_len true (some name) = length name
anon_len true none = 0
anon_len false _ = 0

-- In the directory `op_samples_current_dir`
module _ (op_samples_current_dir : List ℕ) where
  -- The size of the memory allocated.
  pub mangled_len : MangleValues → ℕ
  unfolding has_flag
  mangled_len v =
      length op_samples_current_dir
      + length v.image_name
      + 1
      + length v.event_name
      + 1
      + length v.dep_name
      + 1
      + callgraph_len (has_flag v.flags mangle_callgraph) v.cg_image_name
      + anon_len (has_flag v.flags mangle_anon || has_flag v.flags mangle_cg_anon) v.anon_name
      + 256

  -- The name that is written; what the model calls the image is the source's `dep_name`.
  pub op_mangle_filename : MangleValues → List ℕ
  unfolding append_image print_int has_flag
  op_mangle_filename v =
      op_samples_current_dir
      ++ (append_image v.flags false v.dep_name v.anon_name
          ++ ((b'{' ∷ b'd' ∷ b'e' ∷ b'p' ∷ b'}' ∷ b'/' ∷ [])
              ++ (append_image v.flags (has_flag v.flags mangle_anon) v.image_name v.anon_name
                  ++ (callgraph_part (has_flag v.flags mangle_callgraph) v.flags v.cg_image_name
                        v.anon_name
                      ++ (v.event_name
                          ++ ((b'.' ∷ print_int v.count)
                              ++ ((b'.' ∷ print_int v.unit_mask)
                                  ++ ((b'.' ∷ int_or_all (has_flag v.flags mangle_tgid) v.tgid)
                                      ++ ((b'.' ∷ int_or_all (has_flag v.flags mangle_tid) v.tid)
                                          ++ (b'.'
                                              ∷ int_or_all (has_flag v.flags mangle_cpu)
                                                  v.cpu))))))))))
