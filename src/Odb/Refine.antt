-- ===== src/Odb/Refine.antt =====
-- A sequence of `odb_update_node_with_offset` (libdb/db_insert.c) counts the samples it is given.
use native.Mathlib.Decide.{dec_lt}
use oprofile.Base.{
  u32, ℕ, zero, suc, ◌+◌, ◌*◌, ◌%◌, ◌≤◌, ◌<◌, ◌≡◌, ◌≢◌, refl, sym, ◌∙◌, subst, some, arith, ==_iff,
}
use oprofile.Odb.{
  OdbData, GrowCalls, store, node_key, node_value, add_node, add_value, update_at,
  odb_update_node_with_offset,
}
use oprofile.Odb.Chain.{latest_passes, latest-zero}
use oprofile.Odb.Valid.{IsValid, IsKeyed, CanGrow, tally, count_of}
use oprofile.Odb.Find.{has_key}
use oprofile.Odb.Update.{added, tally-store, node_value-le-tally, store_value-IsValid}
use oprofile.Odb.Count.{Succeeds, Added, add_node-Added, Added-count_of, found, find_node-found}

-- The table stays within twice its nodes, but for the 128 that it starts with.
abbrev pub IsTight : OdbData → Type 0
IsTight d = d.size ≤ 128 + 2 * d.current_size

-- The table `r` counts `offset` more for the key than `d`, and the same for every other key.
pub record Updated (d : OdbData) (key offset : ℕ) (r : OdbData) : Type 0 where
  pub valid : IsValid r
  pub counts : (k : ℕ) → count_of r k ≡ count_of d k + added key offset k
  pub keyed : IsKeyed d → IsKeyed r
  pub tight : IsTight d → IsTight r
  pub grows : (d.current_size ≤ r.current_size) × (r.current_size ≤ d.current_size + 1)
  pub offset_node : r.offset_node ≡ d.offset_node

add_value_exact :
    (value offset : ℕ) → value + offset < u32 → add_value value offset ≡ value + offset
unfolding add_value
add_value_exact value offset h = ground arith

-- The walk found a node: its value grows.
module _ (d : OdbData) (key offset n : ℕ) (v : IsValid d) where
  hit : OdbData
  hit = record d { mem = store d.mem (4 * suc n + 2) (add_value (d.mem (4 * suc n + 2)) offset) }

  hit-Updated : found d key ≡ suc n → count_of d key + offset < u32 → Updated d key offset hit
  unfolding hit
  hit-Updated f fits =
      let (same, below) = latest_passes (has_key d.mem key) d.current_size n f in
      let e : node_key d.mem (suc n) ≡ key = (==_iff _ key).0 same in
      let value = node_value d.mem (suc n) in
      let le : value ≤ count_of d key =
        subst (λ k. value ≤ tally d.mem k d.current_size) e
          (node_value-le-tally d.mem (suc n) d.current_size (omega arith) below) in
      let exact = add_value_exact value offset (omega arith) in
      record {
        valid = store_value-IsValid d (suc n) (add_value value offset) (omega (arith, v.room)) v;
        counts = λ k.
            ground (
              arith,
              tally-store d.mem (suc n) (add_value value offset) k d.current_size,
              e,
              exact,
            );
        keyed = λ keyed i j p q b same_key. keyed i j p q b (ground arith);
        tight = λ t. t;
        grows = omega arith;
        offset_node = refl;
      }

-- The walk found none: the key gets a node.
Added-Updated :
    (d r : OdbData) (key offset : ℕ)
    → IsValid d
    → found d key ≡ 0
    → Added d key offset r
    → Updated d key offset r
Added-Updated d r key offset v f a = record {
  valid = a.valid;
  counts = Added-count_of v a;
  keyed = λ keyed i j p q b. added_keyed keyed i j p q (omega (arith, a.current_size));
  tight = λ t. omega (arith, a.size, a.current_size);
  grows = omega (arith, a.current_size);
  offset_node = a.offset;
}
  where
    added_keyed :
        IsKeyed d
        → (i j : ℕ) → 0 < i
        → i < j
        → j < suc d.current_size
        → node_key r.mem i ≢ node_key r.mem j
    added_keyed keyed i j p q b same_key = elim (dec_lt j d.current_size) [
      | yes old ↦
          keyed i j p q old (sym (a.same.keys i (omega arith)) ∙ same_key ∙ a.same.keys j old)
      | no new ↦
          let e : d.current_size ≡ j = omega arith in
          let last : node_key r.mem j ≡ key = subst (λ k. node_key r.mem k ≡ key) e a.new_key in
          let absent = latest-zero (has_key d.mem key) d.current_size f i p (omega arith) in
          cc (
            (==_iff (node_key d.mem i) key).1 (sym (a.same.keys i (omega arith)) ∙ same_key ∙ last),
            absent,
          )
    ]

update_at-Updated :
    (calls : GrowCalls) (d : OdbData) (key offset : ℕ)
    → IsValid d
    → CanGrow d
    → Succeeds calls
    → count_of d key + offset < u32
    → (n : ℕ) → found d key ≡ n
    → (r : OdbData) × (update_at calls d key offset n ≡ (r, 0)) × Updated d key offset r
unfolding update_at hit
update_at-Updated calls d key offset v g s fits zero f =
    let (code, a) = add_node-Added calls d key (offset % u32) v g s in
    let r = add_node calls d key (offset % u32) in
    let same : offset % u32 ≡ offset = omega arith in
    (
      r.0,
      (λ i. (r.0, code i)),
      Added-Updated d r.0 key offset v f (subst (λ x. Added d key x r.0) same a),
    )
update_at-Updated calls d key offset v g s fits (suc n) f =
    (hit d key offset n v, refl, hit-Updated d key offset n v f fits)

-- The loop ends within as many rounds as there are nodes.
pub odb_update_node_with_offset-update_at :
    (rounds : ℕ) (calls : GrowCalls) (d : OdbData) (key offset : ℕ)
    → IsValid d
    → d.current_size ≤ rounds
    → odb_update_node_with_offset rounds calls d key offset
      ≡ some (update_at calls d key offset (found d key))
unfolding odb_update_node_with_offset
odb_update_node_with_offset-update_at rounds calls d key offset v enough =
    rw (find_node-found d key rounds v enough)

-- One update of a valid database whose doubled tables fit 32 bits (system calls succeed, the count
-- stays below 2^32, as many loop rounds as nodes) returns 0 and a valid database in which the
-- key's count grew by the offset and every other count is unchanged, whether the key had a node,
-- got one, or got one in a doubled table.
pub odb_update_node_with_offset-Updated :
    (rounds : ℕ) (calls : GrowCalls) (d : OdbData) (key offset : ℕ)
    → IsValid d
    → CanGrow d
    → Succeeds calls
    → d.current_size ≤ rounds
    → count_of d key + offset < u32
    → (r : OdbData) × (odb_update_node_with_offset rounds calls d key offset ≡ some (r, 0))
      × Updated d key offset r
odb_update_node_with_offset-Updated rounds calls d key offset v g s enough fits =
    let (r, run, u) = update_at-Updated calls d key offset v g s fits (found d key) refl in
    (r, rw (odb_update_node_with_offset-update_at rounds calls d key offset v enough, run), u)
