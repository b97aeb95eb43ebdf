-- ===== src/Odb/Grow.antt =====
-- `odb_grow_hashtable` (libdb/db_manage.c): what it keeps, and what its failures leave behind.
use mathlib.Core.Path.{fun_ext}
use oprofile.Base.{
  u32, ℕ, zero, suc, ◌+◌, ◌*◌, ◌≤◌, ◌<◌, ◌≡◌, refl, ◌∙◌, true, false, arith, ap, sym, subst, inl,
  inr, ◌&&◌, Bool-cases, ◌%◌, ◌-◌,
}
use oprofile.Odb.{
  Words, OdbData, GrowCalls, node_key, relink, rebuild, ftruncate, tables_size, extend_file, rehash,
  odb_grow_hashtable,
}
use oprofile.Odb.Chain.{
  IsLinked, SameNodes, odb_do_hash-le, SameNodes-le, rebuild-SameNodes, rebuild-IsLinked,
}
use oprofile.Odb.Valid.{IsValid, CanGrow, tally}

-- Without overflow the tables take 20 bytes a node.
pub tables_size_exact :
    (offset_node n : ℕ)
    → offset_node + 20 * n < u32
    → tables_size offset_node n ≡ offset_node + 20 * n
unfolding tables_size
tables_size_exact offset_node n h = omega arith

-- A rebuild writes nothing behind the hash table.
rebuild-behind :
    (size mask : ℕ) (mem : Words) (n w : ℕ)
    → mask < size
    → n ≤ size
    → 5 * size ≤ w
    → rebuild size mask mem n w ≡ mem w
unfolding rebuild relink
rebuild-behind size mask mem zero w small h b = refl
rebuild-behind size mask mem (suc zero) w small h b = refl
rebuild-behind size mask mem (suc (suc n)) w small h b = ground (
  arith,
  rebuild-behind size mask mem (suc n) w,
  odb_do_hash-le mask (node_key (rebuild size mask mem (suc n)) (suc n)),
)

pub tally_congr : (m m' : Words) (key n : ℕ) → SameNodes n m m' → tally m key n ≡ tally m' key n
unfolding tally
tally_congr m m' key zero s = refl
tally_congr m m' key (suc zero) s = refl
tally_congr m m' key (suc (suc n)) s =
    let less : SameNodes (suc n) m m' = record {
      keys = λ i b. s.keys i (omega arith);
      values = λ i b. s.values i (omega arith);
    } in
    ground (arith, s.keys (suc n), s.values (suc n), tally_congr m m' key (suc n) less)

module _ {d : OdbData} (v : IsValid d) where
  -- Making the file longer changes no word.
  extend_file-mem : CanGrow d → (extend_file d).mem ≡ d.mem
  unfolding extend_file ftruncate tables_size
  extend_file-mem g = fun_ext (λ w. ground (arith, v.blank w, v.mapped, v.small))

  pub extend_file-IsValid : CanGrow d → IsValid (extend_file d)
  unfolding extend_file ftruncate
  extend_file-IsValid g = record {
    first = v.first;
    room = v.room;
    mask = v.mask;
    mapped = omega (arith, tables_size_exact d.offset_node ((d.size * 2) % u32));
    small = v.small;
    blank = λ w b. ap (λ (m : Words). m w) (extend_file-mem g) ∙ v.blank w b;
    linked = subst (IsLinked d.size d.hash_mask d.current_size) (sym (extend_file-mem g)) v.linked;
  }

  pub extend_file-file_size : CanGrow d → (extend_file d).file_size ≡ d.offset_node + 40 * d.size
  unfolding extend_file ftruncate
  extend_file-file_size g = omega (arith, tables_size_exact d.offset_node ((d.size * 2) % u32))

-- The table `r` is valid, has twice the buckets of `d`, and links the same nodes.
pub record Grown (d r : OdbData) : Type 0 where
  pub valid : IsValid r
  pub size : r.size ≡ d.size * 2
  pub current_size : r.current_size ≡ d.current_size
  pub same : SameNodes d.current_size r.mem d.mem
  pub offset : r.offset_node ≡ d.offset_node

module _ {d : OdbData} (v : IsValid d) where
  double : CanGrow d → (d.size * 2) % u32 ≡ d.size * 2
  double g = omega arith

  half_mask : CanGrow d → (d.size * 2 + u32 - 1) % u32 ≡ d.size * 2 - 1
  half_mask g = omega (arith, v.first, v.room)

  rehash-Grown : CanGrow d → d.offset_node + 40 * d.size ≤ d.file_size → Grown d (rehash d)
  unfolding rehash
  rehash-Grown g big =
      rw (double g, half_mask g)
        record {
          valid = record {
            first = v.first;
            room = omega (arith, v.room);
            mask = omega (arith, v.first, v.room);
            mapped = omega arith;
            small = omega arith;
            blank = λ w b.
                rebuild-behind (d.size * 2) (d.size * 2 - 1) d.mem d.current_size w below
                  (omega (arith, v.room)) (omega arith)
                ∙ v.blank w (omega arith);
            linked =
                rebuild-IsLinked (d.size * 2) (d.size * 2 - 1) d.mem below
                  (λ j b. v.blank _ (omega arith)) d.current_size v.first (omega (arith, v.room));
          };
          size = refl;
          current_size = refl;
          same = SameNodes-le (omega (arith, v.room)) (
              rebuild-SameNodes (d.size * 2) (d.size * 2 - 1) d.mem below d.current_size
                (omega (arith, v.room)));
          offset = refl;
        }
    where
      below : d.size * 2 - 1 < d.size * 2
      below = omega (arith, v.first, v.room)

module _ {d : OdbData} (v : IsValid d) where
  extended-Grown : CanGrow d → Grown d (rehash (extend_file d))
  unfolding extend_file ftruncate
  extended-Grown g =
      let e = extend_file d in
      let t = rehash-Grown (extend_file-IsValid v g) g (omega (arith, extend_file-file_size v g)) in
      record {
        valid = t.valid;
        size = t.size;
        current_size = t.current_size;
        same = subst (SameNodes d.current_size (rehash e).mem) (extend_file-mem v g) t.same;
        offset = t.offset;
      }

  -- When both system calls succeed on a valid database whose doubled tables fit 32 bits, growing
  -- returns 0 and a valid database of twice the size that has the same nodes and links them into
  -- the rebuilt chains.
  pub odb_grow_hashtable-Grown :
      (calls : GrowCalls)
      → calls.ftruncate_ok ≡ true
      → calls.mremap_ok ≡ true
      → CanGrow d
      → ((odb_grow_hashtable calls d).1 ≡ 0) × Grown d (odb_grow_hashtable calls d).0
  unfolding odb_grow_hashtable
  odb_grow_hashtable-Grown calls f m g = rw (f, m) (refl, extended-Grown g)

  -- When ftruncate or mremap fails on a valid database whose doubled tables fit 32 bits, growing
  -- returns 1 and keeps the table's words, size and number of nodes, in a valid database.
  pub odb_grow_hashtable_fails :
      (calls : GrowCalls)
      → (calls.ftruncate_ok && calls.mremap_ok) ≡ false
      → CanGrow d
      → ((odb_grow_hashtable calls d).1 ≡ 1)
        × ((odb_grow_hashtable calls d).0.mem ≡ d.mem)
        × ((odb_grow_hashtable calls d).0.size ≡ d.size)
        × ((odb_grow_hashtable calls d).0.current_size ≡ d.current_size)
        × IsValid (odb_grow_hashtable calls d).0
  unfolding odb_grow_hashtable extend_file ftruncate
  odb_grow_hashtable_fails calls f g = elim (Bool-cases calls.ftruncate_ok) [
    | inr no_file ↦ rw no_file (refl, refl, refl, refl, v)
    | inl file ↦
        let no_map : calls.mremap_ok ≡ false = ground arith in
        rw (file, no_map) (refl, extend_file-mem v g, refl, refl, extend_file-IsValid v g)
  ]
