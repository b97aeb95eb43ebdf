-- ===== src/Odb/Update.antt =====
-- `odb_update_node_with_offset` and `add_node` (libdb/db_insert.c) against the counts that a
-- database stands for.
use native.Mathlib.Decide.{dec_lt}
use oprofile.Base.{
  u32, ℕ, zero, suc, ◌+◌, ◌*◌, ◌/◌, ◌%◌, ◌≤◌, ◌<◌, ◌≡◌, refl, ◌∙◌, arith, ◌==◌, if◌then◌else◌,
}
use oprofile.Odb.{Words, OdbData, store, node_key, node_value, relink, link_node}
use oprofile.Odb.Chain.{
  IsLinked, IsLinked-congr, SameNodes, relink-behind, relink-SameNodes, relink-IsLinked,
}
use oprofile.Odb.Valid.{IsValid, tally}
use oprofile.Odb.Grow.{tally_congr}

abbrev pub added : ℕ → ℕ → ℕ → ℕ
added key offset k = if key == k then offset else 0

-- A value written at a node of the table changes the sum of its key alone.
pub tally-store :
    (mem : Words) (i v k n : ℕ)
    → 0 < i
    → i < n
    → tally (store mem (4 * i + 2) v) k n + added (node_key mem i) (node_value mem i) k
      ≡ tally mem k n + added (node_key mem i) v k
unfolding tally
tally-store mem i v k zero p b = absurd (omega arith)
tally-store mem i v k (suc zero) p b = absurd (omega arith)
tally-store mem i v k (suc (suc n)) p b = elim (dec_lt i (suc n)) [
  | yes q ↦ ground (arith, tally-store mem i v k (suc n) p q)
  | no q ↦
      let e : i ≡ suc n = omega arith in
      let below : SameNodes (suc n) (store mem (4 * i + 2) v) mem = record {
        keys = λ j c. ground arith;
        values = λ j c. ground arith;
      } in
      ground (arith, tally_congr (store mem (4 * i + 2) v) mem k (suc n) below, e)
]

pub node_value-le-tally :
    (mem : Words) (i n : ℕ) → 0 < i → i < n → node_value mem i ≤ tally mem (node_key mem i) n
unfolding tally
node_value-le-tally mem i zero p b = absurd (omega arith)
node_value-le-tally mem i (suc zero) p b = absurd (omega arith)
node_value-le-tally mem i (suc (suc n)) p b = elim (dec_lt i (suc n)) [
  | yes q ↦ omega (arith, node_value-le-tally mem i (suc n) p q)
  | no q ↦ let e : i ≡ suc n = omega arith in rw e (ground arith)
]

-- A value written at a node keeps the table valid.
pub store_value-IsValid :
    (d : OdbData) (i v : ℕ)
    → i < d.size
    → IsValid d
    → IsValid (record d { mem = store d.mem (4 * i + 2) v })
store_value-IsValid d i v b w = record {
  first = w.first;
  room = w.room;
  mask = w.mask;
  mapped = w.mapped;
  small = w.small;
  blank = λ u h. ground (arith, w.blank u);
  linked =
      IsLinked-congr d.size d.hash_mask d.current_size d.mem (store d.mem (4 * i + 2) v)
        (λ j c. ground arith) (λ j p c. ground arith) (λ j c. ground arith) w.linked;
}

-- The table `r` is `d` with one more node, last, for the key.
pub record Linked (d : OdbData) (key value : ℕ) (r : OdbData) : Type 0 where
  pub valid : IsValid r
  pub current_size : r.current_size ≡ d.current_size + 1
  pub same : SameNodes d.current_size r.mem d.mem
  pub new_key : node_key r.mem d.current_size ≡ key
  pub new_value : node_value r.mem d.current_size ≡ value
  pub size : r.size ≡ d.size
  pub offset : r.offset_node ≡ d.offset_node

module _ (d : OdbData) (key value : ℕ) (v : IsValid d) (room : d.current_size < d.size) where
  -- The node written, before it is linked.
  abbrev written : Words
  written =
      store (store (store d.mem (4 * d.current_size + 2) value) (4 * d.current_size) (key % u32))
        (4 * d.current_size + 1) (key / u32)

  written-key : node_key written d.current_size ≡ key
  written-key = ground arith

  written-IsLinked : IsLinked d.size d.hash_mask d.current_size written
  written-IsLinked =
      IsLinked-congr d.size d.hash_mask d.current_size d.mem written (λ j c. ground arith)
        (λ j p c. ground arith) (λ j c. ground arith) v.linked

  abbrev linked_table : OdbData
  linked_table = record d {
    mem = relink d.size d.hash_mask written d.current_size;
    current_size = suc d.current_size;
  }

  link_node-linked_table : link_node d key value ≡ linked_table
  unfolding link_node relink
  link_node-linked_table = λ i. record d { mem = mems i; current_size = counts i }
    where
      mems : (link_node d key value).mem ≡ linked_table.mem
      mems = rw written-key

      counts : (link_node d key value).current_size ≡ suc d.current_size
      counts = omega (arith, v.small)

  below_size : d.hash_mask < d.size
  below_size = omega (arith, v.mask)

  linked_table-IsValid : IsValid linked_table
  linked_table-IsValid = record {
    first = omega arith;
    room = omega arith;
    mask = v.mask;
    mapped = v.mapped;
    small = v.small;
    blank = λ w b.
        relink-behind d.size d.hash_mask written d.current_size below_size room w b
        ∙ ground (arith, v.blank w);
    linked =
        relink-IsLinked d.size d.hash_mask written d.current_size below_size room v.first
          written-IsLinked;
  }

  linked_table-Linked : Linked d key value linked_table
  linked_table-Linked =
      let same = relink-SameNodes d.size d.hash_mask written d.current_size below_size room in
      record {
        valid = linked_table-IsValid;
        current_size = omega arith;
        same = record {
          keys = λ i b. same.keys i (omega arith) ∙ ground arith;
          values = λ i b. same.values i (omega arith) ∙ ground arith;
        };
        new_key = same.keys d.current_size room ∙ written-key;
        new_value = same.values d.current_size room ∙ ground arith;
        size = refl;
        offset = refl;
      }

  -- A free node is written and linked, and nothing else changes.
  pub link_node-Linked : Linked d key value (link_node d key value)
  link_node-Linked = rw link_node-linked_table linked_table-Linked
