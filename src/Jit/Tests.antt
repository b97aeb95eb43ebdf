-- ===== src/Jit/Tests.antt =====
-- Runs of the removal of overlaps, with an insertion sort for `qsort`, and the theorems at inputs.
mod Names
use oprofile.Base.{
  ℕ, ◌+◌, ◌-◌, ◌^◌, ◌≤◌, ◌≡◌, ◌↔◌, refl, ap, ◌∙◌, true, false, inl, inr, Option, some, none, List,
  [], ◌∷◌, map, leb, if◌then◌else◌, arith, Bool-cases,
}
use oprofile.Jit.{
  JitEntry, end_addr, lifetime, left_part, right_part, is_overlapping, select_one, Resolved,
  resolved, conv_fail, unfinished, resolve_overlaps, resolve_loop, split_entry, is_sound,
  eliminate_one, eliminate_from, finish_region, keep_at, handle_overlap_region, close_region,
  scan_from, scan_overlaps, drop_invalid, resort_address, invalidate_earlybirds, percent_name,
  int_digits, select_from,
}
use oprofile.Jit.Entries.{sum, cover, covers, IsSane, split-cover}
use oprofile.Jit.Scan.{Ascends, Apart}
use oprofile.Jit.Resolve.{SortsByAddress, IsCovered, alive_at, resolve_overlaps-Apart}
use oprofile.Jit.Stall.{Increasing, resolve_loop-stalls}

insert : JitEntry → List JitEntry → List JitEntry
insert e [] = e ∷ []
insert e (b ∷ entries) =
    let rest = insert e entries in if leb e.vma b.vma then e ∷ b ∷ entries else b ∷ rest

sort : List JitEntry → List JitEntry
sort [] = []
sort (e ∷ entries) = insert e (sort entries)

sum-insert :
    (f : JitEntry → ℕ) (e : JitEntry) (entries : List JitEntry)
    → sum f (insert e entries) ≡ f e + sum f entries
unfolding insert sum
sum-insert f e [] = refl
sum-insert f e (b ∷ entries) = elim (Bool-cases (leb e.vma b.vma)) [
  | inl t ↦ rw t refl
  | inr g ↦ rw g (omega (arith, sum-insert f e entries))
]

insert-Ascends :
    (e : JitEntry) (entries : List JitEntry) (lo : ℕ)
    → lo ≤ e.vma
    → Ascends lo entries
    → Ascends lo (insert e entries)
unfolding insert
insert-Ascends e [] lo le up = (le, tt)
insert-Ascends e (b ∷ entries) lo le (le', up) = elim (Bool-cases (leb e.vma b.vma)) [
  | inl t ↦ rw t (le, (ground arith, up))
  | inr g ↦ rw g (le', insert-Ascends e entries b.vma (ground arith) up)
]

sum-sort : (f : JitEntry → ℕ) (entries : List JitEntry) → sum f (sort entries) ≡ sum f entries
unfolding sort sum
sum-sort f [] = refl
sum-sort f (e ∷ entries) = omega (arith, sum-insert f e (sort entries), sum-sort f entries)

sort-Ascends : (entries : List JitEntry) → Ascends 0 (sort entries)
unfolding sort
sort-Ascends [] = tt
sort-Ascends (e ∷ entries) = insert-Ascends e (sort entries) 0 (omega arith) (sort-Ascends entries)

sort-SortsByAddress : SortsByAddress sort
sort-SortsByAddress = record { permutes = sum-sort; sorts = sort-Ascends }

-- A method of a class that lives long inside one that lives shortly.
abbrev outer : JitEntry
outer = record {
  vma = 100;
  code_size = 50;
  symbol_name = b'f' ∷ [];
  life_start = 10;
  life_end = 20;
}

abbrev inner : JitEntry
inner = record {
  vma = 110;
  code_size = 10;
  symbol_name = b'g' ∷ [];
  life_start = 10;
  life_end = 50;
}

abbrev early : JitEntry
early = record { vma = 120; code_size = 5; symbol_name = b'h' ∷ []; life_start = 1; life_end = 4 }

-- A symbol of size -50.
abbrev backward : JitEntry
backward = record {
  vma = 120;
  code_size = 2 ^ 32 - 50;
  symbol_name = b'e' ∷ [];
  life_start = 10;
  life_end = 20;
}

abbrev dump : List JitEntry
dump = outer ∷ inner ∷ early ∷ []

program : Unit {0}
unfolding resolve_overlaps resolve_loop scan_overlaps scan_from close_region handle_overlap_region
    keep_at finish_region eliminate_from eliminate_one is_sound split_entry left_part right_part
    is_overlapping select_one select_from lifetime end_addr drop_invalid resort_address
    invalidate_earlybirds percent_name int_digits sort insert
program = tt

abbrev spans : Resolved → Option (List (ℕ × ℕ))
spans (resolved entries) = some (map (λ (e : JitEntry). (e.vma, e.code_size)) entries)
spans conv_fail = none
spans unfinished = none

dump_run :
    spans (resolve_overlaps sort 5 true 5 dump) ≡ some ((100, 10) ∷ (110, 10) ∷ (120, 30) ∷ [])
unfolding program
dump_run = refl

outer-IsSane : IsSane outer
outer-IsSane = omega arith

resolve_overlaps-Apart_example :
    (entries' : List JitEntry) × (resolve_overlaps sort 66 true 5 dump ≡ resolved entries')
    × Apart 0 entries'
    × ((x : ℕ) → IsCovered x entries' ↔ IsCovered x (alive_at 5 dump))
unfolding sum
resolve_overlaps-Apart_example =
    resolve_overlaps-Apart sort sort-SortsByAddress 66 true 5 dump
      (outer-IsSane, (omega arith, (omega arith, tt)))
      (omega arith, (omega arith, (omega arith, tt))) (omega arith)

insert-sorted :
    (e b : JitEntry) (entries : List JitEntry)
    → e.vma ≤ b.vma
    → insert e (b ∷ entries) ≡ e ∷ b ∷ entries
unfolding insert
insert-sorted e b entries le = let t : leb e.vma b.vma ≡ true = ground arith in rw t refl

sort-sorted : (entries : List JitEntry) (lo : ℕ) → Increasing lo entries → sort entries ≡ entries
unfolding sort insert
sort-sorted [] lo up = refl
sort-sorted (e ∷ []) lo up = refl
sort-sorted (e ∷ b ∷ entries) lo (_, up) =
    ap (insert e) (sort-sorted (b ∷ entries) e.vma up)
    ∙ insert-sorted e b entries (omega (arith, up.0))

inner_overlaps : is_overlapping inner outer ≡ true
unfolding program
inner_overlaps = refl

resolve_loop-stalls_example : resolve_loop sort 1000 false (outer ∷ backward ∷ []) ≡ unfinished
unfolding end_addr
resolve_loop-stalls_example =
    resolve_loop-stalls sort (λ entries up. sort-sorted entries 0 up) 1000 outer backward
      (omega arith)

split-cover_example :
    cover 115 (left_part outer inner) + sum (cover 115) (right_part outer inner)
    ≡ (if covers 115 inner then 0 else cover 115 outer)
split-cover_example = split-cover outer inner outer-IsSane (omega arith) inner_overlaps 115
