-- ===== src/Odb/Registry/Tests.antt =====
-- Runs of opens and closes of two sample files, and the theorems at inputs.
use oprofile.Base.{
  ℕ, ◌+◌, ◌≡◌, ◌%◌, u32, Bool, true, false, refl, some, none, Option, List, [], ◌∷◌, ◌==◌, arith,
  if◌then◌else◌, ◌↔◌, Bool-cases, ==_iff, ==_refl, inl, inr, subst,
}
use mathlib.Core.Option.{none-ne-some}
use oprofile.Odb.{tables_size}
use oprofile.Odb.Open.{SampleFile, OpenCalls, fresh_database, map_file, create, reopen, node_nr_of}
use oprofile.Odb.Registry.{
  Entry, put, hash_of, op_hash_string, hash_from, find_samples_data, share, register, odb_open,
  release, odb_close, odb_open_count, remove,
}
use oprofile.Odb.Registry.Shared.{count, drop_at, Shared, IsShared}
use oprofile.Odb.Registry.Added.{registered-IsShared}
use oprofile.Odb.Registry.Calls.{
  Call, open_file, close_file, taken, play, play_all, play_all-IsShared, odb_open-share,
}

-- Two strings are the same.
same : List ℕ → List ℕ → Bool
same [] [] = true
same [] (b ∷ bs) = false
same (a ∷ xs) [] = false
same (a ∷ xs) (b ∷ bs) = let rest = same xs bs in if a == b then rest else false

same-eq : (a b : List ℕ) → same a b ≡ true → a ≡ b
unfolding same
same-eq [] [] h = refl
same-eq [] (b ∷ bs) h = let bad : ⊥ = cc in absurd bad
same-eq (a ∷ xs) [] h = let bad : ⊥ = cc in absurd bad
same-eq (a ∷ xs) (b ∷ bs) h = elim (Bool-cases (a == b)) [
  | inl t ↦ (let i : a ≡ b = (==_iff a b).0 t in let j : xs ≡ bs = same-eq xs bs (rw t at h) in cc)
  | inr f ↦ let h' : false ≡ true = rw f at h in let bad : ⊥ = cc in absurd bad
]

same_refl : (a : List ℕ) → same a a ≡ true
unfolding same
same_refl [] = refl
same_refl (a ∷ xs) = rw (==_refl a, same_refl xs) refl

same_iff : (a b : List ℕ) → (same a b ≡ true) ↔ (a ≡ b)
same_iff a b = (same-eq a b, λ e. subst (λ (x : List ℕ). same a x ≡ true) e (same_refl a))

abbrev fine : OpenCalls
fine = record { open_errno = 0; fstat_errno = 0; ftruncate_errno = 0; mmap_errno = 0 }

abbrev denied : OpenCalls
denied = record { open_errno = 13; fstat_errno = 0; ftruncate_errno = 0; mmap_errno = 0 }

abbrev empty_file : SampleFile
empty_file = record { words = λ w. 0; descr_size = 0; descr_current_size = 0; st_size = 0 }

abbrev nothing : Shared
nothing = record {
  registry = record { files_hash = λ h. []; heap = λ p. none; next = 1 };
  holders = [];
}

nothing-IsShared : IsShared nothing
unfolding count
nothing-IsShared = record {
  listed = λ h p c. absurd (omega arith);
  live = λ p e h. absurd (none-ne-some _ h);
  unique = λ p q e e' h h' n. absurd (none-ne-some _ h);
  held = λ p c. absurd (omega arith);
}

-- Names of two files, of which the first is opened twice.
abbrev calls : List Call
calls =
    open_file fine false 64 empty_file (97 ∷ [])
    ∷ open_file denied false 64 empty_file (98 ∷ [])
    ∷ open_file fine false 64 empty_file (98 ∷ [])
    ∷ open_file fine true 64 empty_file (97 ∷ [])
    ∷ close_file 1
    ∷ []

program : Unit {0}
unfolding same op_hash_string hash_from hash_of find_samples_data share register odb_open release
    odb_close remove count drop_at taken play play_all map_file create reopen node_nr_of tables_size
    odb_open_count
program = tt

counts : Option Shared → Option (List ℕ × Option ℕ × Option ℕ)
counts (some s) =
    some (s.holders, odb_open_count (some 1) s.registry, odb_open_count (some 2) s.registry)
counts none = none

calls_run : counts (play_all same calls nothing) ≡ some (1 ∷ 1 ∷ [], some 2, none)
unfolding program counts
calls_run = refl

play_all-IsShared_example : (s' : Shared) × (play_all same calls nothing ≡ some s') × IsShared s'
play_all-IsShared_example =
    play_all-IsShared same same_iff calls nothing nothing-IsShared (omega arith)

hash_run : hash_of (97 ∷ []) ≡ 97
unfolding program
hash_run = refl

-- The first file, held once.
abbrev first : Entry
first = record { filename = 97 ∷ []; ref_count = 1; database = fresh_database 96 }

abbrev one : Shared
one = record {
  registry = register (97 ∷ []) (fresh_database 96) nothing.registry;
  holders = 1 ∷ [];
}

one-IsShared : IsShared one
one-IsShared =
    registered-IsShared nothing nothing-IsShared (97 ∷ []) (fresh_database 96)
      (λ q e h. absurd (none-ne-some _ h))

first_live : one.registry.heap 1 ≡ some first
unfolding register
first_live = refl

odb_open-share_example :
    odb_open same denied true 0 empty_file (97 ∷ []) none one.registry
    ≡ some (
      record (one.registry) {
        heap = put 1 (some (record first { ref_count = (1 + 1) % u32 })) one.registry.heap;
      },
      some 1,
      0,
    )
odb_open-share_example =
    odb_open-share same same_iff one one-IsShared 1 first first_live denied true 0 empty_file none
