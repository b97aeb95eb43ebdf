-- ===== src/Odb/Open/Laws.antt =====
-- What `odb_open` (libdb/db_manage.c) makes of a new file, and of the file of a database.
use oprofile.Base.{
  u32, ℕ, ◌+◌, ◌-◌, ◌*◌, ◌%◌, ◌<◌, ◌≡◌, ◌≢◌, refl, sym, Bool, true, false, arith, ==_refl, ==_ne,
}
use oprofile.Odb.{OdbData, GrowCalls, einval, odb_grow_hashtable, extend_file, ftruncate}
use oprofile.Odb.Chain.{latest}
use oprofile.Odb.Valid.{IsValid, IsKeyed, CanGrow, count_of, tally}
use oprofile.Odb.Grow.{tables_size_exact, extend_file-file_size}
use oprofile.Odb.Refine.{IsTight}
use oprofile.Odb.Open.{
  SampleFile, OpenCalls, opened, failed, offset_node_of, node_nr_of, map_file, file_of,
  fresh_database,
}

-- No system call fails.
pub record Answers (calls : OpenCalls) : Type 0 where
  pub opens : calls.open_errno ≡ 0
  pub fstat : calls.fstat_errno ≡ 0
  pub ftruncate : calls.ftruncate_errno ≡ 0
  pub mmap : calls.mmap_errno ≡ 0

-- An empty database of 128 nodes.
pub record Fresh (d : OdbData) : Type 0 where
  pub valid : IsValid d
  pub tight : IsTight d
  pub keyed : IsKeyed d
  pub counts : (k : ℕ) → count_of d k ≡ 0
  pub current_size : d.current_size ≡ 1

pub fresh_database-Fresh :
    (offset_node : ℕ) → offset_node + 2560 < u32 → Fresh (fresh_database offset_node)
unfolding fresh_database tally latest
fresh_database-Fresh offset_node h = record {
  valid = record {
    first = omega arith;
    room = omega arith;
    mask = omega arith;
    mapped = omega (arith, tables_size_exact offset_node 128);
    small = omega arith;
    blank = λ w b. refl;
    linked = record { buckets = λ j b. ground arith; nexts = λ i p b. absurd (omega arith) };
  };
  tight = omega arith;
  keyed = λ i j p q b. absurd (omega arith);
  counts = λ k. refl;
  current_size = refl;
}

-- Opening an empty file for writing, with a header that fits 32 bits and system calls that
-- succeed, gives a valid database with no node, in which every count is 0.
map_file-Fresh :
    (calls : OpenCalls) (sizeof_header : ℕ) (file : SampleFile)
    → Answers calls
    → sizeof_header + 2592 < u32
    → file.st_size ≡ 0
    → (d : OdbData) × (map_file calls false sizeof_header file ≡ opened d)
      × (d.offset_node ≡ sizeof_header + 32)
      × Fresh d
unfolding map_file fresh_database
map_file-Fresh calls sizeof_header file a h e =
    let exact : offset_node_of sizeof_header ≡ sizeof_header + 32 = omega arith in
    (
      fresh_database (offset_node_of sizeof_header),
      rw (a.opens, a.fstat, e, a.ftruncate, a.mmap),
      exact,
      fresh_database-Fresh (offset_node_of sizeof_header) (omega (arith, exact)),
    )

node_nr_exact :
    (offset_node n : ℕ)
    → offset_node + 20 * n < u32
    → node_nr_of (offset_node + 20 * n) offset_node ≡ n
unfolding node_nr_of
node_nr_exact offset_node n h = omega arith

node_nr_double :
    (offset_node n : ℕ)
    → offset_node + 40 * n < u32
    → node_nr_of (offset_node + 40 * n) offset_node ≡ n * 2
unfolding node_nr_of
node_nr_double offset_node n h = omega arith

-- Opening the file of a valid database whose length is that of its tables gives back the database
-- as it was.
pub map_file-file_of :
    (calls : OpenCalls) (rdonly : Bool) (sizeof_header : ℕ) (d : OdbData)
    → Answers calls
    → IsValid d
    → d.offset_node ≡ offset_node_of sizeof_header
    → d.file_size ≡ d.offset_node + 20 * d.size
    → map_file calls rdonly sizeof_header (file_of d) ≡ opened d
unfolding map_file
map_file-file_of calls rdonly sizeof_header d a v o f =
    let long : d.file_size ≢ 0 = omega (arith, v.first, v.room) in
    let nr : node_nr_of d.file_size (offset_node_of sizeof_header) ≡ d.size =
      rw (f, ← o) (node_nr_exact d.offset_node d.size v.small) in
    rw (a.opens, a.fstat, ==_ne d.file_size 0 long, a.mmap, nr, ==_refl d.size) reopened
  where
    mask : (d.size + u32 - 1) % u32 ≡ d.hash_mask
    mask = omega (arith, v.mask, v.small, v.first, v.room)

    reopened :
        opened (record d {
          hash_mask = (d.size + u32 - 1) % u32;
          offset_node = offset_node_of sizeof_header;
        })
        ≡ opened d
    reopened = λ i. opened (record d { hash_mask = mask i; offset_node = sym o i })

-- When mremap fails after ftruncate has made the file longer, opening that file later fails with
-- EINVAL.
pub map_file-mremap_failed :
    (calls : OpenCalls) (rdonly : Bool) (sizeof_header : ℕ) (d : OdbData) (grow : GrowCalls)
    → Answers calls
    → IsValid d
    → CanGrow d
    → d.offset_node ≡ offset_node_of sizeof_header
    → grow.ftruncate_ok ≡ true
    → grow.mremap_ok ≡ false
    → map_file calls rdonly sizeof_header (file_of (odb_grow_hashtable grow d).0) ≡ failed einval
unfolding map_file odb_grow_hashtable extend_file ftruncate
map_file-mremap_failed calls rdonly sizeof_header d grow a v g o t m =
    let e = extend_file d in
    let long : e.file_size ≢ 0 = omega (arith, extend_file-file_size v g, v.first, v.room) in
    let nr : node_nr_of e.file_size (offset_node_of sizeof_header) ≡ d.size * 2 =
      rw (extend_file-file_size v g, ← o) (node_nr_double d.offset_node d.size g) in
    rw (t, m)
      (rw (
        a.opens,
        a.fstat,
        ==_ne e.file_size 0 long,
        a.mmap,
        nr,
        ==_ne (d.size * 2) d.size (omega (arith, v.first, v.room)),
      ))
