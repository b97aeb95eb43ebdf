-- ===== src/Odb/Stat.antt =====
-- The statistics of a sample file's hash table (libdb/db_stat.c).
mod Lists
pub mod Laws
use oprofile.Base.{
  u64, ℕ, zero, suc, ◌+◌, ◌-◌, ◌*◌, ◌%◌, Option, none, some, ltb, ◌==◌, if◌then◌else◌,
}
use oprofile.Odb.{Words, OdbData, node_value, node_next, hash_base}

-- What the loop over the lists adds up: the counts, the longest list, the lengths of the lists, and
-- how many are not empty.
pub record Sums : Type 0 where
  pub total_count : ℕ
  pub max_length : ℕ
  pub total_length : ℕ
  pub nr_non_empty_list : ℕ

-- `odb_hash_stat_t`; the average is kept as the two numbers that are divided.
pub record OdbHashStat : Type 0 where
  pub node_nr : ℕ
  pub used_node_nr : ℕ
  pub hash_table_size : ℕ
  pub sums : Sums

-- The walk along a list in at most `rounds` rounds: the counts so far, and the length.
pub list_stat : ℕ → Words → ℕ → ℕ → ℕ → Option (ℕ × ℕ)
list_stat zero mem index total cur_length = if index == 0 then some (total, cur_length) else none
list_stat (suc rounds) mem index total cur_length =
    let rest =
      list_stat rounds mem (node_next mem index) ((total + node_value mem index) % u64)
        (cur_length + 1) in
    if index == 0 then some (total, cur_length) else rest

pub add_list : Sums → ℕ × ℕ → Sums
add_list s (total, cur_length) = record {
  total_count = total;
  max_length = if ltb s.max_length cur_length then cur_length else s.max_length;
  total_length = if cur_length == 0 then s.total_length else s.total_length + cur_length;
  nr_non_empty_list = if cur_length == 0 then s.nr_non_empty_list else s.nr_non_empty_list + 1;
}

-- The lists before `pos`.
pub sum_lists : ℕ → OdbData → ℕ → Option Sums
unfolding list_stat add_list
sum_lists rounds d zero =
    some (record { total_count = 0; max_length = 0; total_length = 0; nr_non_empty_list = 0 })
sum_lists rounds d (suc pos) = elim (sum_lists rounds d pos) [
  | none ↦ none
  | some s ↦ elim (list_stat rounds d.mem (hash_base d.size d.mem pos) s.total_count 0) [
    | none ↦ none
    | some list ↦ some (add_list s list)
  ]
]

pub odb_hash_stat : ℕ → OdbData → Option OdbHashStat
unfolding sum_lists
odb_hash_stat rounds d = elim (sum_lists rounds d d.size) [
  | none ↦ none
  | some s ↦ some (record {
    node_nr = d.size;
    used_node_nr = d.current_size;
    hash_table_size = d.size;
    sums = s;
  })
]
