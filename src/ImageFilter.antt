-- ===== src/ImageFilter.antt =====
-- The filter of binary images given on the daemon's command line (daemon/oprofiled.c).
mod Laws
mod Tests
use oprofile.Base.{
  ℕ, ◌+◌, ◌%◌, Bool, true, false, Option, some, none, List, [], ◌∷◌, ◌++◌, ◌==◌, if◌then◌else◌,
}
use oprofile.Odb.Registry.{op_hash_string}

abbrev pub opd_image_filter_hash_size : ℕ
opd_image_filter_hash_size = 32

-- `images_filter`
abbrev pub Filter : Type 0
Filter = ℕ → List (List ℕ)

pub bucket : List ℕ → ℕ
bucket name = op_hash_string name % opd_image_filter_hash_size

-- `strcmp` of two names gives 0.
pub is_equal : List ℕ → List ℕ → Bool
is_equal [] [] = true
is_equal [] (d ∷ t) = false
is_equal (c ∷ s) [] = false
is_equal (c ∷ s) (d ∷ t) = let rest = is_equal s t in if c == d then rest else false

abbrev pub add_path : Option (List ℕ) → Filter → Filter
add_path none filter = filter
add_path (some path) filter = λ h. if h == bucket path then path ∷ filter h else filter h

-- The walk along a list of the filter.
pub has_name : List ℕ → List (List ℕ) → Bool
unfolding is_equal
has_name name [] = false
has_name name (path ∷ paths) =
    let rest = has_name name paths in if is_equal path name then true else rest

-- `realpath`, `none` for its failure
module _ (realpath : List ℕ → Option (List ℕ)) where
  abbrev pub add_image_filter : List ℕ → Filter → Filter
  add_image_filter name filter = add_path (realpath name) filter

  -- The loop over the list of names: the name so far, and what follows.
  pub parse_from : List ℕ → List ℕ → Filter → Filter
  unfolding bucket
  parse_from name [] filter = add_image_filter name filter
  parse_from name (c ∷ text) filter =
      let ended = parse_from [] text (add_image_filter name filter) in
      let longer = parse_from (name ++ (c ∷ [])) text filter in if c == b',' then ended else longer

  pub opd_parse_image_filter : Option (List ℕ) → Filter
  unfolding parse_from
  opd_parse_image_filter none = λ h. []
  opd_parse_image_filter (some binary_name_filter) = parse_from [] binary_name_filter (λ h. [])

pub is_image_ignored : Option (List ℕ) → Filter → List ℕ → Bool
unfolding has_name bucket
is_image_ignored none filter name = false
is_image_ignored (some binary_name_filter) filter name =
    if has_name name (filter (bucket name)) then false else true
