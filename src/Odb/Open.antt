-- ===== src/Odb/Open.antt =====
-- `odb_open` of a file that is not open yet (libdb/db_manage.c): the file is created, or its tables
-- are found again.
pub mod Laws
use oprofile.Base.{u32, u64, ℕ, ◌+◌, ◌-◌, ◌*◌, ◌/◌, ◌%◌, Bool, ◌==◌, if◌then◌else◌}
use oprofile.Odb.{Words, OdbData, einval, tables_size}

-- The file on disk: the two words of its `odb_descr_t`, the words from `offset_node` on, and its
-- length in bytes.
pub record SampleFile : Type 0 where
  pub words : Words
  pub descr_size : ℕ
  pub descr_current_size : ℕ
  pub st_size : ℕ

-- The error that each system call reports, or 0.
pub record OpenCalls : Type 0 where
  pub open_errno : ℕ
  pub fstat_errno : ℕ
  pub ftruncate_errno : ℕ
  pub mmap_errno : ℕ

pub data OpenResult : Type 0 where
  opened : OdbData → OpenResult
  failed : ℕ → OpenResult

abbrev pub eio : ℕ
eio = 5

abbrev pub default_node_nr : ℕ
default_node_nr = 128

-- `sizeof_header + sizeof(odb_descr_t)`, as an `unsigned int`
abbrev pub offset_node_of : ℕ → ℕ
offset_node_of sizeof_header = (sizeof_header + 32) % u32

-- The nodes that a file of this length has room for.
unfoldable pub node_nr_of : ℕ → ℕ → ℕ
node_nr_of st_size offset_node = ((st_size + u64 - offset_node) % u64 / 20) % u32

-- The tables that `ftruncate` makes of an empty file, all zero, and the descriptor set up.
unfoldable pub fresh_database : ℕ → OdbData
fresh_database offset_node = record {
  mem = λ w. 0;
  size = default_node_nr;
  current_size = 1;
  hash_mask = default_node_nr - 1;
  offset_node = offset_node;
  file_size = tables_size offset_node default_node_nr;
}

-- An empty file, made long enough for the default tables.
unfoldable pub create : OpenCalls → Bool → ℕ → OpenResult
create calls rdonly offset_node =
    if rdonly
    then failed eio
    else if calls.ftruncate_errno == 0
    then (if calls.mmap_errno == 0
        then opened (fresh_database offset_node)
        else failed calls.mmap_errno)
    else failed calls.ftruncate_errno

-- A file with tables, whose length must agree with their size.
unfoldable pub reopen : OpenCalls → ℕ → SampleFile → OpenResult
reopen calls offset_node file =
    if calls.mmap_errno == 0
    then (if node_nr_of file.st_size offset_node == file.descr_size
        then opened (record {
          mem = file.words;
          size = file.descr_size;
          current_size = file.descr_current_size;
          hash_mask = (file.descr_size + u32 - 1) % u32;
          offset_node = offset_node;
          file_size = file.st_size;
        })
        else failed einval)
    else failed calls.mmap_errno

unfoldable pub map_file : OpenCalls → Bool → ℕ → SampleFile → OpenResult
unfolding create reopen
map_file calls rdonly sizeof_header file =
    let offset_node = offset_node_of sizeof_header in
    if calls.open_errno == 0
    then (if calls.fstat_errno == 0
        then (if file.st_size == 0
            then create calls rdonly offset_node
            else reopen calls offset_node file)
        else failed calls.fstat_errno)
    else failed calls.open_errno

-- What stays on disk of a database.
abbrev pub file_of : OdbData → SampleFile
file_of d = record {
  words = d.mem;
  descr_size = d.size;
  descr_current_size = d.current_size;
  st_size = d.file_size;
}
