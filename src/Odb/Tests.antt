-- ===== src/Odb/Tests.antt =====
-- Runs of libdb on small databases, and the theorems at inputs that meet their hypotheses.
use oprofile.Base.{
  u32, ℕ, ◌+◌, ◌-◌, ◌*◌, ◌<◌, ◌≡◌, ◌∙◌, sym, refl, true, false, some, List, [], ◌∷◌, arith,
}
use oprofile.Odb.{
  OdbData, GrowCalls, einval, node_value, hash_base, odb_do_hash, tables_size, extend_file, rehash,
  ftruncate, odb_grow_hashtable, add_node, find_node, update_at, odb_update_node_with_offset,
}
use oprofile.Odb.Chain.{latest}
use oprofile.Odb.Valid.{IsValid, CanGrow, count_of}
use oprofile.Odb.Grow.{Grown, odb_grow_hashtable-Grown, odb_grow_hashtable_fails}
use oprofile.Odb.Count.{Added, found, find_node-found, add_node-Added, add_node_fails}
use oprofile.Odb.Refine.{Updated, odb_update_node_with_offset-Updated}
use oprofile.Odb.Samples.{Sample, Logged, sum_of, log_samples, log_samples-Logged}
use oprofile.Odb.Overflow.{odb_update_node_with_offset_wraps, extend_file_shrinks}
use oprofile.Odb.Stat.{OdbHashStat, odb_hash_stat}
use oprofile.Odb.Stat.Laws.{IsStat, odb_hash_stat-IsStat}
use oprofile.Odb.Open.{SampleFile, OpenCalls, opened, failed, map_file, file_of, fresh_database}
use oprofile.Odb.Open.Laws.{
  Answers, Fresh, map_file-file_of, map_file-mremap_failed, fresh_database-Fresh,
}

abbrev fine : GrowCalls
fine = record { ftruncate_ok = true; mremap_ok = true }

abbrev no_memory : GrowCalls
no_memory = record { ftruncate_ok = true; mremap_ok = false }

abbrev empty : OdbData
empty = fresh_database 32

empty-Fresh : Fresh empty
empty-Fresh = fresh_database-Fresh 32 (omega arith)

abbrev sample_of : ℕ → ℕ → Sample
sample_of key offset = record { calls = fine; key = key; offset = offset }

-- Two keys of one bucket, and one of them again.
abbrev three_samples : List Sample
three_samples = sample_of 0x1234 5 ∷ sample_of 0x3412 7 ∷ sample_of 0x1234 1 ∷ []

three_samples_small : (k : ℕ) → count_of empty k + sum_of three_samples k < u32
three_samples_small k = ground (arith, empty-Fresh.counts k)

log_samples-Logged_example :
    (r : OdbData) × (log_samples 9 three_samples empty ≡ some r) × Logged empty three_samples r
unfolding fresh_database
log_samples-Logged_example =
    log_samples-Logged 9 three_samples empty empty-Fresh.valid empty-Fresh.tight
      ((refl, refl), ((refl, refl), ((refl, refl), tt))) (omega arith) (omega arith)
      three_samples_small

abbrev logged : OdbData
logged = log_samples-Logged_example.0

logged-Logged : Logged empty three_samples logged
logged-Logged = log_samples-Logged_example.2

odb_hash_stat-IsStat_example :
    (r : OdbHashStat) × (odb_hash_stat logged.current_size logged ≡ some r)
    × IsStat logged logged-Logged.valid r
odb_hash_stat-IsStat_example =
    odb_hash_stat-IsStat logged logged-Logged.valid logged.current_size (omega arith)

logged-CanGrow : CanGrow logged
unfolding fresh_database
logged-CanGrow =
    omega
      (arith, logged-Logged.tight empty-Fresh.tight, logged-Logged.nodes, logged-Logged.offset_node)

logged-small : count_of logged 0x1234 + 9 < u32
logged-small = omega (arith, logged-Logged.counts 0x1234, empty-Fresh.counts 0x1234)

odb_update_node_with_offset-Updated_example :
    (r : OdbData) × (odb_update_node_with_offset 9 fine logged 0x1234 9 ≡ some (r, 0))
    × Updated logged 0x1234 9 r
unfolding fresh_database
odb_update_node_with_offset-Updated_example =
    odb_update_node_with_offset-Updated 9 fine logged 0x1234 9 logged-Logged.valid logged-CanGrow
      (refl, refl) (omega (arith, logged-Logged.nodes)) logged-small

find_node-found_example :
    find_node 9 logged.mem 0x1234
      (hash_base logged.size logged.mem (odb_do_hash logged.hash_mask 0x1234))
    ≡ some (found logged 0x1234)
unfolding fresh_database
find_node-found_example =
    find_node-found logged 0x1234 9 logged-Logged.valid (omega (arith, logged-Logged.nodes))

-- A full table of one bucket and no node.
abbrev tiny : OdbData
tiny = record {
  mem = λ w. 0;
  size = 1;
  current_size = 1;
  hash_mask = 0;
  offset_node = 32;
  file_size = 52;
}

tiny-IsValid : IsValid tiny
unfolding latest
tiny-IsValid = record {
  first = omega arith;
  room = omega arith;
  mask = omega arith;
  mapped = omega arith;
  small = omega arith;
  blank = λ w b. refl;
  linked = record { buckets = λ j b. ground arith; nexts = λ i p b. absurd (omega arith) };
}

-- A full table of two buckets and one node, whose count is near the limit.
abbrev pair : OdbData
pair = (add_node fine tiny 7 4_294_967_290).0

pair-Added : Added tiny 7 4_294_967_290 pair
pair-Added = (add_node-Added fine tiny 7 4_294_967_290 tiny-IsValid (omega arith) (refl, refl)).1

program : Unit {0}
unfolding add_node rehash ftruncate odb_grow_hashtable odb_do_hash latest find_node update_at
    extend_file tables_size fresh_database
program = tt

pair-sizes : (pair.size ≡ 2) × (pair.current_size ≡ 2) × (pair.offset_node ≡ 32)
unfolding program
pair-sizes = (refl, refl, refl)

pair-CanGrow : CanGrow pair
pair-CanGrow = omega (arith, pair-sizes)

add_node-Added_example :
    ((add_node fine pair 9 3).1 ≡ 0) × Added pair 9 3 (add_node fine pair 9 3).0
add_node-Added_example = add_node-Added fine pair 9 3 pair-Added.valid pair-CanGrow (refl, refl)

odb_grow_hashtable-Grown_example :
    ((odb_grow_hashtable fine pair).1 ≡ 0) × Grown pair (odb_grow_hashtable fine pair).0
odb_grow_hashtable-Grown_example =
    odb_grow_hashtable-Grown pair-Added.valid fine refl refl pair-CanGrow

odb_grow_hashtable_fails_example :
    ((odb_grow_hashtable no_memory pair).1 ≡ 1)
    × ((odb_grow_hashtable no_memory pair).0.mem ≡ pair.mem)
    × ((odb_grow_hashtable no_memory pair).0.size ≡ pair.size)
    × ((odb_grow_hashtable no_memory pair).0.current_size ≡ pair.current_size)
    × IsValid (odb_grow_hashtable no_memory pair).0
odb_grow_hashtable_fails_example =
    odb_grow_hashtable_fails pair-Added.valid no_memory refl pair-CanGrow

add_node_fails_example :
    ((add_node no_memory pair 9 3).1 ≡ einval)
    × IsValid (add_node no_memory pair 9 3).0
    × ((k : ℕ) → count_of (add_node no_memory pair 9 3).0 k ≡ count_of pair k)
add_node_fails_example =
    add_node_fails no_memory pair 9 3 pair-Added.valid pair-CanGrow
      (pair-sizes.1 ∙ sym pair-sizes.0) refl

pair-found : found pair 7 ≡ 1
unfolding program
pair-found = refl

pair-value : node_value pair.mem 1 ≡ 4_294_967_290
unfolding program
pair-value = refl

odb_update_node_with_offset_wraps_example :
    (r : OdbData) × (odb_update_node_with_offset 2 fine pair 7 8 ≡ some (r, 0))
    × (node_value r.mem 1 ≡ node_value pair.mem 1 + 8 - u32)
odb_update_node_with_offset_wraps_example =
    odb_update_node_with_offset_wraps 2 fine pair 7 8 0 pair-Added.valid (omega (arith, pair-sizes))
      pair-found (omega (arith, pair-value)) (omega (arith, pair-value))

abbrev vast : OdbData
vast = record {
  mem = λ w. 0;
  size = 134_217_728;
  current_size = 134_217_728;
  hash_mask = 134_217_727;
  offset_node = 32;
  file_size = 2_684_354_592;
}

extend_file_shrinks_example : (extend_file vast).file_size < vast.file_size
extend_file_shrinks_example = extend_file_shrinks vast refl (omega arith) refl

abbrev answers : OpenCalls
answers = record { open_errno = 0; fstat_errno = 0; ftruncate_errno = 0; mmap_errno = 0 }

answers-Answers : Answers answers
answers-Answers = record { opens = refl; fstat = refl; ftruncate = refl; mmap = refl }

abbrev no_file : SampleFile
no_file = record { words = λ w. 0; descr_size = 0; descr_current_size = 0; st_size = 0 }

pair-file_size : pair.file_size ≡ pair.offset_node + 20 * pair.size
unfolding program
pair-file_size = refl

map_file-file_of_example : map_file answers true 0 (file_of pair) ≡ opened pair
map_file-file_of_example =
    map_file-file_of answers true 0 pair answers-Answers pair-Added.valid pair-sizes.2
      pair-file_size

map_file-mremap_failed_example :
    map_file answers true 0 (file_of (odb_grow_hashtable no_memory pair).0) ≡ failed einval
map_file-mremap_failed_example =
    map_file-mremap_failed answers true 0 pair no_memory answers-Answers pair-Added.valid
      pair-CanGrow pair-sizes.2 refl refl
