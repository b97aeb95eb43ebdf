-- ===== src/Odb/Overflow.antt =====
-- Where the 32-bit numbers of libdb/db_insert.c and db_manage.c wrap.
use oprofile.Base.{u32, ℕ, suc, ◌+◌, ◌-◌, ◌*◌, ◌^◌, ◌≤◌, ◌<◌, ◌≡◌, arith, some}
use oprofile.Odb.{
  OdbData, GrowCalls, node_value, add_value, tables_size, ftruncate, extend_file, update_at,
  odb_update_node_with_offset,
}
use oprofile.Odb.Valid.{IsValid}
use oprofile.Odb.Count.{found}
use oprofile.Odb.Refine.{odb_update_node_with_offset-update_at}

add_value_wraps :
    (value offset : ℕ)
    → u32 ≤ value + offset
    → value + offset < 2 * u32
    → add_value value offset ≡ value + offset - u32
unfolding add_value
add_value_wraps value offset h b = ground arith

-- When the value of the node found and the offset add up to at least 2^32 (and less than 2^33),
-- the update returns 0 and stores the sum less 2^32.
pub odb_update_node_with_offset_wraps :
    (rounds : ℕ) (calls : GrowCalls) (d : OdbData) (key offset n : ℕ)
    → IsValid d
    → d.current_size ≤ rounds
    → found d key ≡ suc n
    → u32 ≤ node_value d.mem (suc n) + offset
    → node_value d.mem (suc n) + offset < 2 * u32
    → (r : OdbData) × (odb_update_node_with_offset rounds calls d key offset ≡ some (r, 0))
      × (node_value r.mem (suc n) ≡ node_value d.mem (suc n) + offset - u32)
unfolding update_at
odb_update_node_with_offset_wraps rounds calls d key offset n v enough f h b = (
  (update_at calls d key offset (suc n)).0,
  rw (odb_update_node_with_offset-update_at rounds calls d key offset v enough, f),
  ground (arith, add_value_wraps (node_value d.mem (suc n)) offset h b),
)

-- A full database file of 2^27 nodes, behind less than 2^30 bytes of header, gets shorter when the
-- table is to double.
pub extend_file_shrinks :
    (d : OdbData)
    → d.size ≡ 2 ^ 27
    → d.offset_node < 2 ^ 30
    → d.file_size ≡ d.offset_node + 20 * d.size
    → (extend_file d).file_size < d.file_size
unfolding extend_file ftruncate tables_size
extend_file_shrinks d s o f = omega arith
