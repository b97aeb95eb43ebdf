-- ===== src/Mangle/Laws.antt =====
-- The name of a sample file fits the memory allocated for it (libop/op_mangle.c).
use oprofile.Base.Digits.{length-decimal}
use oprofile.Base.{
  ℕ, ◌+◌, ◌-◌, ◌^◌, ◌≤◌, ◌<◌, ◌≡◌, refl, Bool, true, false, not, ◌&&◌, ◌||◌, inl, inr, Option, some,
  none, List, [], ◌∷◌, ◌++◌, length, length-append, ltb, u32, arith, Bool-cases,
}
use oprofile.Mangle.{
  MangleValues, mangle_kernel, mangle_callgraph, mangle_anon, mangle_cg_anon, mangle_tgid,
  mangle_tid, mangle_cpu, has_flag, has_slash, anon_text, append_image, print_int, int_or_all,
  callgraph_part, callgraph_len, anon_len, mangled_len, op_mangle_filename,
}

length-print_int : (n : ℕ) → length (print_int n) ≤ 21
unfolding print_int
length-print_int n = elim (Bool-cases (ltb n (2 ^ 31))) [
  | inl y ↦ rw y (omega (arith, length-decimal n))
  | inr f ↦ rw f (omega (arith, length-decimal (u32 - n)))
]

length-int_or_all : (b : Bool) (n : ℕ) → length (int_or_all b n) ≤ 21
length-int_or_all true n = length-print_int n
length-int_or_all false n = omega arith

length-anon_text :
    (anon : Bool) (anon_name : Option (List ℕ))
    → length (anon_text anon anon_name) ≤ 8 + anon_len anon anon_name
length-anon_text true (some name) = omega (arith, length-append name (b'}' ∷ b'/' ∷ []))
length-anon_text true none = omega arith
length-anon_text false o = omega arith

length-append_image :
    (flags : ℕ) (anon : Bool) (name : List ℕ) (anon_name : Option (List ℕ))
    → length (append_image flags anon name anon_name) ≤ length name + 9 + anon_len anon anon_name
unfolding append_image
length-append_image flags anon name anon_name =
    elim (Bool-cases (has_flag flags mangle_kernel && not (has_slash name))) [
      | inl y ↦ rw y (omega (arith, length-append name (b'/' ∷ [])))
      | inr n ↦ rw n (
          omega (
            arith,
            length-append (anon_text anon anon_name) (name ++ (b'/' ∷ [])),
            length-append name (b'/' ∷ []),
            length-anon_text anon anon_name,
          ))
    ]

length-callgraph_part :
    (b : Bool) (flags : ℕ) (cg anon_name : Option (List ℕ))
    → length (callgraph_part b flags cg anon_name)
      ≤ callgraph_len b cg + 13 + anon_len (has_flag flags mangle_cg_anon) anon_name
length-callgraph_part true flags (some name) anon_name =
    omega (arith, length-append_image flags (has_flag flags mangle_cg_anon) name anon_name)
length-callgraph_part true flags none anon_name = omega arith
length-callgraph_part false flags o anon_name = omega arith

-- Both places of the anonymous name, against the one that is counted.
anon_len_twice :
    (a b : Bool) (o : Option (List ℕ))
    → anon_len true o ≤ 100
    → anon_len a o + anon_len b o ≤ anon_len (a || b) o + 100
anon_len_twice true true o h = omega arith
anon_len_twice true false o h = omega arith
anon_len_twice false true o h = omega arith
anon_len_twice false false o h = omega arith

-- The length of eleven parts.
length-parts :
    (a b c d e f g h i j k : List ℕ)
    → length (a ++ (b ++ (c ++ (d ++ (e ++ (f ++ (g ++ (h ++ (i ++ (j ++ k))))))))))
      ≡ length a
        + length b
        + length c
        + length d
        + length e
        + length f
        + length g
        + length h
        + length i
        + length j
        + length k
length-parts a b c d e f g h i j k = omega (
  arith,
  length-append a (b ++ (c ++ (d ++ (e ++ (f ++ (g ++ (h ++ (i ++ (j ++ k))))))))),
  length-append b (c ++ (d ++ (e ++ (f ++ (g ++ (h ++ (i ++ (j ++ k)))))))),
  length-append c (d ++ (e ++ (f ++ (g ++ (h ++ (i ++ (j ++ k))))))),
  length-append d (e ++ (f ++ (g ++ (h ++ (i ++ (j ++ k)))))),
  length-append e (f ++ (g ++ (h ++ (i ++ (j ++ k))))),
  length-append f (g ++ (h ++ (i ++ (j ++ k)))),
  length-append g (h ++ (i ++ (j ++ k))),
  length-append h (i ++ (j ++ k)),
  length-append i (j ++ k),
  length-append j k,
)

-- When the anonymous name, if there is one, has at most 100 characters, the name that
-- op_mangle_filename writes is shorter than the memory allocated for it, so that its final zero
-- fits too, whatever the flags, names and numbers.
pub op_mangle_filename-mangled_len :
    (dir : List ℕ) (v : MangleValues)
    → anon_len true v.anon_name ≤ 100
    → length (op_mangle_filename dir v) < mangled_len dir v
unfolding op_mangle_filename mangled_len
op_mangle_filename-mangled_len dir v h = omega (
  arith,
  length-parts dir (append_image v.flags false v.dep_name v.anon_name)
      (b'{' ∷ b'd' ∷ b'e' ∷ b'p' ∷ b'}' ∷ b'/' ∷ [])
      (append_image v.flags (has_flag v.flags mangle_anon) v.image_name v.anon_name)
      (callgraph_part (has_flag v.flags mangle_callgraph) v.flags v.cg_image_name v.anon_name)
      v.event_name (b'.' ∷ print_int v.count) (b'.' ∷ print_int v.unit_mask)
      (b'.' ∷ int_or_all (has_flag v.flags mangle_tgid) v.tgid)
      (b'.' ∷ int_or_all (has_flag v.flags mangle_tid) v.tid)
      (b'.' ∷ int_or_all (has_flag v.flags mangle_cpu) v.cpu),
  length-append_image v.flags false v.dep_name v.anon_name,
  length-append_image v.flags (has_flag v.flags mangle_anon) v.image_name v.anon_name,
  length-callgraph_part (has_flag v.flags mangle_callgraph) v.flags v.cg_image_name v.anon_name,
  length-print_int v.count,
  length-print_int v.unit_mask,
  length-int_or_all (has_flag v.flags mangle_tgid) v.tgid,
  length-int_or_all (has_flag v.flags mangle_tid) v.tid,
  length-int_or_all (has_flag v.flags mangle_cpu) v.cpu,
  anon_len_twice (has_flag v.flags mangle_anon) (has_flag v.flags mangle_cg_anon) v.anon_name h,
)

length-append_image_user :
    (flags : ℕ) (anon : Bool) (name : List ℕ) (anon_name : Option (List ℕ))
    → has_flag flags mangle_kernel ≡ false
    → length (append_image flags anon name anon_name)
      ≡ length (anon_text anon anon_name) + length name + 1
unfolding append_image
length-append_image_user flags anon name anon_name user = rw user (
    omega (
      arith,
      length-append (anon_text anon anon_name) (name ++ (b'/' ∷ [])),
      length-append name (b'/' ∷ []),
    ))

length-anon_text_long : (name : List ℕ) → length (anon_text true (some name)) ≡ 8 + length name
length-anon_text_long name = omega (arith, length-append name (b'}' ∷ b'/' ∷ []))

-- An anonymous callgraph of an anonymous mapping, of one name.
pub record IsAnonymousArc (v : MangleValues) (name cg : List ℕ) : Type 0 where
  pub user : has_flag v.flags mangle_kernel ≡ false
  pub anon : has_flag v.flags mangle_anon ≡ true
  pub cg_anon : has_flag v.flags mangle_cg_anon ≡ true
  pub callgraph : has_flag v.flags mangle_callgraph ≡ true
  pub named : v.anon_name ≡ some name
  pub cg_named : v.cg_image_name ≡ some cg

module _ (v : MangleValues) (name cg : List ℕ) (a : IsAnonymousArc v name cg) where
  length-dep : length (append_image v.flags false v.dep_name v.anon_name) ≡ 8 + length v.dep_name
  length-dep = omega (arith, length-append_image_user v.flags false v.dep_name v.anon_name a.user)

  length-image :
      length (append_image v.flags (has_flag v.flags mangle_anon) v.image_name v.anon_name)
      ≡ 9 + length name + length v.image_name
  length-image =
      rw (a.anon, a.named)
        (omega (
          arith,
          length-append_image_user v.flags true v.image_name (some name) a.user,
          length-anon_text_long name,
        ))

  length-cg :
      length
        (callgraph_part (has_flag v.flags mangle_callgraph) v.flags v.cg_image_name v.anon_name)
      ≡ 14 + length name + length cg
  length-cg =
      rw (a.callgraph, a.cg_named, a.cg_anon, a.named)
        (omega (
          arith,
          length-append_image_user v.flags true cg (some name) a.user,
          length-anon_text_long name,
        ))

  callgraph_len-cg :
      callgraph_len (has_flag v.flags mangle_callgraph) v.cg_image_name ≡ length cg + 1
  callgraph_len-cg = rw (a.callgraph, a.cg_named) refl

  anon_len-name :
      anon_len (has_flag v.flags mangle_anon || has_flag v.flags mangle_cg_anon) v.anon_name
      ≡ length name
  anon_len-name = rw (a.anon, a.named) refl

-- For a call graph of two anonymous mappings, not of the kernel, with an anonymous name of at
-- least 256 characters, the name that op_mangle_filename writes is at least as long as the memory
-- allocated, so that at least its final zero stands behind that.
pub op_mangle_filename-mangled_len_overflows :
    (dir : List ℕ) (v : MangleValues) (name cg : List ℕ)
    → IsAnonymousArc v name cg
    → 256 ≤ length name
    → mangled_len dir v ≤ length (op_mangle_filename dir v)
unfolding op_mangle_filename mangled_len
op_mangle_filename-mangled_len_overflows dir v name cg a long = omega (
  arith,
  length-parts dir (append_image v.flags false v.dep_name v.anon_name)
      (b'{' ∷ b'd' ∷ b'e' ∷ b'p' ∷ b'}' ∷ b'/' ∷ [])
      (append_image v.flags (has_flag v.flags mangle_anon) v.image_name v.anon_name)
      (callgraph_part (has_flag v.flags mangle_callgraph) v.flags v.cg_image_name v.anon_name)
      v.event_name (b'.' ∷ print_int v.count) (b'.' ∷ print_int v.unit_mask)
      (b'.' ∷ int_or_all (has_flag v.flags mangle_tgid) v.tgid)
      (b'.' ∷ int_or_all (has_flag v.flags mangle_tid) v.tid)
      (b'.' ∷ int_or_all (has_flag v.flags mangle_cpu) v.cpu),
  length-dep v name cg a,
  length-image v name cg a,
  length-cg v name cg a,
  callgraph_len-cg v name cg a,
  anon_len-name v name cg a,
)
