-- ===== src/Odb/Registry.antt =====
-- The sample files that are open (`odb_open`, `odb_close` of libdb/db_manage.c), shared by reference
-- count, and the hash of their names (libutil/op_string.c).
mod Shared
mod Changes
mod Added
mod Calls
mod Tests
use oprofile.Base.{
  u32, u64, ℕ, zero, suc, ◌+◌, ◌-◌, ◌*◌, ◌/◌, ◌%◌, ◌^◌, bit_xor, Bool, true, false, Option, some,
  none, List, [], ◌∷◌, get_elem?, ltb, ◌==◌, if◌then◌else◌,
}
use mathlib.Core.Option
use oprofile.Odb.{OdbData}
use oprofile.Odb.Open.{SampleFile, OpenCalls, opened, failed, map_file}

-- A `char` promoted, where it is signed.
abbrev pub char_value : ℕ → ℕ
char_value c = if ltb c 128 then c else c + u64 - 256

unfoldable pub hash_from : ℕ → List ℕ → ℕ
hash_from hash [] = hash
hash_from hash (c ∷ str) =
    hash_from (bit_xor hash (bit_xor (bit_xor (hash * 2 ^ 16 % u64) (hash / 2 ^ 8)) (char_value c)))
      str

unfoldable pub op_hash_string : List ℕ → ℕ
unfolding hash_from
op_hash_string str = hash_from 0 str

abbrev pub files_hash_size : ℕ
files_hash_size = 512

pub hash_of : List ℕ → ℕ
hash_of filename = op_hash_string filename % files_hash_size

-- What `odb_data_t` holds besides the database.
pub record Entry : Type 0 where
  pub filename : List ℕ
  pub ref_count : ℕ
  pub database : OdbData

-- `files_hash`, as the pointers on its lists, the memory that they point to, and the address that
-- the next allocation gives.
pub record Registry : Type 0 where
  pub files_hash : ℕ → List ℕ
  pub heap : ℕ → Option Entry
  pub next : ℕ

abbrev pub put : ℕ → Option Entry → (ℕ → Option Entry) → ℕ → Option Entry
put p e heap q = if q == p then e else heap q

abbrev pub list_add : ℕ → ℕ → (ℕ → List ℕ) → ℕ → List ℕ
list_add p hash lists h = if h == hash then p ∷ lists h else lists h

pub remove : ℕ → List ℕ → List ℕ
remove p [] = []
remove p (q ∷ qs) = let rest = remove p qs in if q == p then rest else q ∷ rest

abbrev pub list_del : ℕ → (ℕ → List ℕ) → ℕ → List ℕ
list_del p lists h = remove p (lists h)

-- What a walk along a list meets: the name, its end, or memory that is freed.
pub data Lookup : Type 0 where
  hit : ℕ → Lookup
  miss freed : Lookup

-- A file that is open already, at `p`.
pub share : ℕ → Registry → Option (Registry × Option ℕ × ℕ)
share p r = elim (r.heap p) [
  | some e ↦ some (
    record r { heap = put p (some (record e { ref_count = (e.ref_count + 1) % u32 })) r.heap },
    some p,
    0,
  )
  | none ↦ none
]

-- A file that is mapped for the first time.
pub register : List ℕ → OdbData → Registry → Registry
register filename d r = record {
  files_hash = list_add r.next (hash_of filename) r.files_hash;
  heap = put r.next (some (record { filename = filename; ref_count = 1; database = d })) r.heap;
  next = r.next + 1;
}

-- `strcmp` of two names gives 0.
module _ (same : List ℕ → List ℕ → Bool) where
  pub find_samples_data : (ℕ → Option Entry) → List ℕ → List ℕ → Lookup
  find_samples_data heap filename [] = miss
  find_samples_data heap filename (p ∷ ps) =
      let rest = find_samples_data heap filename ps in
      elim (heap p) [ some e ↦ if same e.filename filename then hit p else rest | none ↦ freed ]

  -- `odb_open`: the registry, `odb->data` and the error behind it; `none` for an access to freed
  -- memory. A failing `open` leaves `odb->data` as it was.
  pub odb_open :
      OpenCalls
      → Bool
      → ℕ
      → SampleFile
      → List ℕ
      → Option ℕ
      → Registry
      → Option (Registry × Option ℕ × ℕ)
  odb_open calls rdonly sizeof_header file filename odb r =
      elim (find_samples_data r.heap filename (r.files_hash (hash_of filename))) [
        | hit p ↦ share p r
        | miss ↦ elim (map_file calls rdonly sizeof_header file) [
          | opened d ↦ some (register filename d r, some r.next, 0)
          | failed err ↦ some (r, (if calls.open_errno == 0 then none else odb), err)
        ]
        | freed ↦ none
      ]

-- The last reference gone, the memory is freed, and `odb->data` cleared.
pub release : ℕ → Entry → Registry → Registry × Option ℕ
release p e r =
    let n = (e.ref_count + u32 - 1) % u32 in
    if n == 0
    then (record r { files_hash = list_del p r.files_hash; heap = put p none r.heap }, none)
    else (record r { heap = put p (some (record e { ref_count = n })) r.heap }, some p)

pub odb_close : Option ℕ → Registry → Option (Registry × Option ℕ)
unfolding release
odb_close none r = some (r, none)
odb_close (some p) r = elim (r.heap p) [ some e ↦ some (release p e r) | none ↦ none ]

pub odb_open_count : Option ℕ → Registry → Option ℕ
odb_open_count none r = some 0
odb_open_count (some p) r = Option.map (λ e. e.ref_count) (r.heap p)
