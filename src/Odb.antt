-- ===== src/Odb.antt =====
-- libdb: the growable hash table that holds one sample file (libdb/odb.h, db_manage.c,
-- db_insert.c, db_travel.c).
mod Chain
mod Valid
mod Grow
mod Find
mod Update
mod Count
mod Refine
mod Samples
mod Overflow
pub mod Stat
mod Tests
pub mod Open
pub mod Registry
use mathlib.Core.Option
use oprofile.Base.{
  u32, u64, ℕ, zero, suc, ◌+◌, ◌-◌, ◌*◌, ◌/◌, ◌%◌, ◌^◌, ◌<◌, bit_and, bit_xor, Bool, Option, none,
  some, ltb, ◌==◌, if◌then◌else◌,
}

-- The mapped file from `node_base` on, as 32-bit words. Node `i` is the words 4i to 4i + 3 (the
-- two halves of its key, its value, its next); the hash table starts at word 4 * size.
abbrev pub Words : Type 0
Words = ℕ → ℕ

abbrev pub store : Words → ℕ → ℕ → Words
store mem a v w = if w == a then v else mem w

abbrev pub node_key : Words → ℕ → ℕ
node_key mem i = mem (4 * i) + mem (4 * i + 1) * u32

abbrev pub node_value : Words → ℕ → ℕ
node_value mem i = mem (4 * i + 2)

abbrev pub node_next : Words → ℕ → ℕ
node_next mem i = mem (4 * i + 3)

-- `hash_base[j]` of a table of `size` nodes
abbrev pub hash_base : ℕ → Words → ℕ → ℕ
hash_base size mem j = mem (4 * size + j)

-- `odb_data_t` with the `odb_descr_t` that it points to; `file_size` is in bytes.
pub record OdbData : Type 0 where
  pub mem : Words
  pub size : ℕ
  pub current_size : ℕ
  pub hash_mask : ℕ
  pub offset_node : ℕ
  pub file_size : ℕ

-- `odb_do_hash`
pub odb_do_hash : ℕ → ℕ → ℕ
odb_do_hash hash_mask value =
    let temp = bit_xor (value / u32) value % u32 in bit_and (bit_xor temp (temp / 2 ^ 8)) hash_mask

-- `tables_size`: the sum is a `size_t`, the result an `unsigned int`.
pub tables_size : ℕ → ℕ → ℕ
tables_size offset_node node_nr = (node_nr * 4 + node_nr * 16 + offset_node) % u32

-- What the system calls of one `odb_grow_hashtable` answer.
pub record GrowCalls : Type 0 where
  pub ftruncate_ok : Bool
  pub mremap_ok : Bool

-- A file of a new size keeps its words and reads zero in the part that it gained.
pub ftruncate : OdbData → ℕ → OdbData
ftruncate d new_size = record d {
  mem = λ w.
      if ltb (d.offset_node + 4 * w) d.file_size
      then if ltb (d.offset_node + 4 * w) new_size then d.mem w else 0
      else 0;
  file_size = new_size;
}

-- One round of the rebuild, for the node `pos`.
pub relink : ℕ → ℕ → Words → ℕ → Words
relink size hash_mask mem pos =
    let index = odb_do_hash hash_mask (node_key mem pos) in
    store (store mem (4 * pos + 3) (hash_base size mem index)) (4 * size + index) pos

-- The rounds for `pos` from 1 up to, and not at, the given number.
pub rebuild : ℕ → ℕ → Words → ℕ → Words
rebuild size hash_mask mem zero = mem
rebuild size hash_mask mem (suc zero) = mem
rebuild size hash_mask mem (suc (suc n)) =
    relink size hash_mask (rebuild size hash_mask mem (suc n)) (suc n)

-- `ftruncate` of the file to the tables of twice the size
pub extend_file : OdbData → OdbData
extend_file d = ftruncate d (tables_size d.offset_node ((d.size * 2) % u32))

-- What follows a successful `mremap`: the new layout, and the table rebuilt.
pub rehash : OdbData → OdbData
rehash d =
    let size = (d.size * 2) % u32 in
    let hash_mask = (size + u32 - 1) % u32 in
    record d {
      mem = rebuild size hash_mask d.mem d.current_size;
      size = size;
      hash_mask = hash_mask;
    }

-- `odb_grow_hashtable`, with the code that it returns
pub odb_grow_hashtable : GrowCalls → OdbData → OdbData × ℕ
odb_grow_hashtable calls d =
    if calls.ftruncate_ok
    then (if calls.mremap_ok then (rehash (extend_file d), 0) else (extend_file d, 1))
    else (d, 1)

abbrev pub einval : ℕ
einval = 22

-- The free node that `add_node` writes.
pub reserve : GrowCalls → OdbData → OdbData × ℕ
reserve calls d = if ltb d.current_size d.size then (d, 0) else odb_grow_hashtable calls d

-- The node written and linked, and the reservation committed.
pub link_node : OdbData → ℕ → ℕ → OdbData
link_node d key value =
    let new_node = d.current_size in
    let m₁ = store d.mem (4 * new_node + 2) value in
    let m₂ = store (store m₁ (4 * new_node) (key % u32)) (4 * new_node + 1) (key / u32) in
    let index = odb_do_hash d.hash_mask key in
    let m₃ = store m₂ (4 * new_node + 3) (hash_base d.size m₂ index) in
    record d { mem = store m₃ (4 * d.size + index) new_node; current_size = (new_node + 1) % u32 }

-- `add_node`, and so `odb_add_node`
pub add_node : GrowCalls → OdbData → ℕ → ℕ → OdbData × ℕ
unfolding reserve link_node
add_node calls d key value =
    let (r, err) = reserve calls d in if err == 0 then (link_node r key value, 0) else (r, einval)

-- The `while` of `odb_update_node_with_offset`: the node with the key, or 0; `none` when the
-- rounds given do not suffice.
pub find_node : ℕ → Words → ℕ → ℕ → Option ℕ
find_node zero mem key index = none
find_node (suc rounds) mem key index =
    let rest = find_node rounds mem key (node_next mem index) in
    if index == 0 then some 0 else if node_key mem index == key then some index else rest

-- The value of a found node with the offset added: the test is on 64 bits, the store on 32.
pub add_value : ℕ → ℕ → ℕ
add_value value offset = if (value + offset) % u64 == 0 then value else (value + offset) % u32

-- What follows the loop of `odb_update_node_with_offset`, or ends it, at the node that it reached.
pub update_at : GrowCalls → OdbData → ℕ → ℕ → ℕ → OdbData × ℕ
update_at calls d key offset zero = add_node calls d key (offset % u32)
update_at calls d key offset (suc n) =
    let at = 4 * suc n + 2 in (record d { mem = store d.mem at (add_value (d.mem at) offset) }, 0)

-- `odb_update_node_with_offset`, with the rounds that its loop is given
pub odb_update_node_with_offset : ℕ → GrowCalls → OdbData → ℕ → ℕ → Option (OdbData × ℕ)
odb_update_node_with_offset rounds calls d key offset =
    Option.map (update_at calls d key offset)
      (find_node rounds d.mem key (hash_base d.size d.mem (odb_do_hash d.hash_mask key)))

pub odb_update_node : ℕ → GrowCalls → OdbData → ℕ → Option (OdbData × ℕ)
odb_update_node rounds calls d key = odb_update_node_with_offset rounds calls d key 1
