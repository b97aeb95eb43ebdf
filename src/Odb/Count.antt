-- ===== src/Odb/Count.antt =====
-- What `add_node` and `odb_update_node_with_offset` (libdb/db_insert.c) do to the counts that a
-- database stands for, on every path.
use native.Mathlib.Decide.{dec_lt}
use oprofile.Base.{
  ℕ, zero, suc, ◌+◌, ◌*◌, ◌≤◌, ◌<◌, ◌≡◌, refl, ◌∙◌, subst, true, false, some, arith, inl, inr, ◌⊎◌,
  ◌&&◌, lt→ltb, not_lt→ltb,
}
use oprofile.Odb.{
  OdbData, GrowCalls, einval, node_key, node_value, hash_base, odb_do_hash, odb_grow_hashtable,
  reserve, add_node, find_node,
}
use oprofile.Odb.Chain.{latest, SameNodes, SameNodes-le, odb_do_hash-le}
use oprofile.Odb.Valid.{IsValid, CanGrow, tally, count_of}
use oprofile.Odb.Find.{has_key, find_node-latest}
use oprofile.Odb.Grow.{Grown, tally_congr, odb_grow_hashtable-Grown, odb_grow_hashtable_fails}
use oprofile.Odb.Update.{added, Linked, link_node-Linked}

abbrev pub Succeeds : GrowCalls → Type 0
Succeeds calls = (calls.ftruncate_ok ≡ true) × (calls.mremap_ok ≡ true)

-- The table `r` is `d` with a node more; it may have doubled, but only when `d` was full.
pub record Added (d : OdbData) (key value : ℕ) (r : OdbData) : Type 0 where
  pub valid : IsValid r
  pub current_size : r.current_size ≡ d.current_size + 1
  pub same : SameNodes d.current_size r.mem d.mem
  pub new_key : node_key r.mem d.current_size ≡ key
  pub new_value : node_value r.mem d.current_size ≡ value
  pub offset : r.offset_node ≡ d.offset_node
  pub size : (r.size ≡ d.size) ⊎ ((r.size ≡ d.size * 2) × (d.size ≡ d.current_size))

Linked-Added : {d r : OdbData} {key value : ℕ} → Linked d key value r → Added d key value r
Linked-Added t = record {
  valid = t.valid;
  current_size = t.current_size;
  same = t.same;
  new_key = t.new_key;
  new_value = t.new_value;
  offset = t.offset;
  size = inl t.size;
}

Grown-Added :
    {d g r : OdbData} {key value : ℕ}
    → d.size ≡ d.current_size
    → Grown d g
    → Linked g key value r
    → Added d key value r
Grown-Added {d} {g} {r} {key} {value} full w t = record {
  valid = t.valid;
  current_size = omega (arith, t.current_size, w.current_size);
  same = record {
    keys = λ i b. t.same.keys i (omega (arith, w.current_size)) ∙ w.same.keys i b;
    values = λ i b. t.same.values i (omega (arith, w.current_size)) ∙ w.same.values i b;
  };
  new_key = subst (λ i. node_key r.mem i ≡ key) w.current_size t.new_key;
  new_value = subst (λ i. node_value r.mem i ≡ value) w.current_size t.new_value;
  offset = t.offset ∙ w.offset;
  size = inr (t.size ∙ w.size, full);
}

-- Adding a node to a valid database (system calls succeed, the doubled tables fit 32 bits) returns
-- 0 and a valid database with one node more, last, that holds the key and the value; the other
-- nodes keep theirs.
pub add_node-Added :
    (calls : GrowCalls) (d : OdbData) (key value : ℕ)
    → IsValid d
    → CanGrow d
    → Succeeds calls
    → ((add_node calls d key value).1 ≡ 0) × Added d key value (add_node calls d key value).0
unfolding add_node reserve
add_node-Added calls d key value v g s = elim (dec_lt d.current_size d.size) [
  | yes room ↦
      rw (lt→ltb d.current_size d.size room)
        (refl, Linked-Added (link_node-Linked d key value v room))
  | no full ↦
      let (code, w) = odb_grow_hashtable-Grown v calls s.0 s.1 g in
      let r = (odb_grow_hashtable calls d).0 in
      let free : r.current_size < r.size = omega (arith, w.size, w.current_size, v.first, v.room) in
      rw (not_lt→ltb d.current_size d.size full, code)
        (refl, Grown-Added (omega (arith, v.room)) w (link_node-Linked r key value w.valid free))
]

-- When the table of a valid database whose doubled tables fit 32 bits is full and a system call
-- fails, adding a node returns EINVAL, which is not the EXIT_FAILURE of the documentation, and
-- leaves a valid database in which every count is what it was.
pub add_node_fails :
    (calls : GrowCalls) (d : OdbData) (key value : ℕ)
    → IsValid d
    → CanGrow d
    → d.current_size ≡ d.size
    → (calls.ftruncate_ok && calls.mremap_ok) ≡ false
    → ((add_node calls d key value).1 ≡ einval)
      × IsValid (add_node calls d key value).0
      × ((k : ℕ) → count_of (add_node calls d key value).0 k ≡ count_of d k)
unfolding add_node reserve
add_node_fails calls d key value v g full f =
    let (code, mem, size, current_size, valid) = odb_grow_hashtable_fails v calls f g in
    rw (not_lt→ltb d.current_size d.size (omega arith), code)
      (refl, valid, λ k. rw (mem, current_size))

-- The counts after a node is added.
pub Added-count_of :
    {d r : OdbData} {key value : ℕ}
    → IsValid d
    → Added d key value r
    → (k : ℕ) → count_of r k ≡ count_of d k + added key value k
unfolding tally
Added-count_of {d} {r} {key} {value} v a k = go d.current_size refl
  where
    go : (n : ℕ) → d.current_size ≡ n → count_of r k ≡ count_of d k + added key value k
    go zero e = absurd (omega (arith, v.first))
    go (suc n) e =
        rw (a.current_size, e)
          (ground (
            arith,
            tally_congr r.mem d.mem k (suc n) (SameNodes-le (omega arith) a.same),
            subst (λ i. node_key r.mem i ≡ key) e a.new_key,
            subst (λ i. node_value r.mem i ≡ value) e a.new_value,
          ))

-- The node that the walk finds, or 0 for none: the latest with the key.
abbrev pub found : OdbData → ℕ → ℕ
found d key = latest (has_key d.mem key) d.current_size

-- On a valid database the walk of an update along its hash chain ends within as many rounds as
-- there are nodes, and reaches the latest node that has the key, or 0 when no node has it.
pub find_node-found :
    (d : OdbData) (key rounds : ℕ)
    → IsValid d
    → d.current_size ≤ rounds
    → find_node rounds d.mem key (hash_base d.size d.mem (odb_do_hash d.hash_mask key))
      ≡ some (found d key)
find_node-found d key rounds v h =
    rw
      (v.linked.buckets (odb_do_hash d.hash_mask key)
        (omega (arith, odb_do_hash-le d.hash_mask key, v.mask)))
      (find_node-latest v.linked key d.current_size rounds (omega arith) h (omega (arith, v.first)))
