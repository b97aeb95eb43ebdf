-- ===== src/Cookie.antt =====
-- The names behind the cookies of the kernel (daemon/opd_cookie.c, daemon/opd_cookie.h).
mod Laws
mod Tests
use oprofile.Base.{
  ℕ, ◌+◌, ◌-◌, ◌/◌, ◌^◌, bit_and, Bool, true, false, ◌||◌, Option, some, none, List, [], ◌∷◌, ◌==◌,
  if◌then◌else◌,
}

-- `struct cookie_entry`; a failed lookup leaves no name.
pub record CookieEntry : Type 0 where
  pub value : ℕ
  pub name : Option (List ℕ)
  pub ignored : Bool

abbrev pub dcookie_shift : ℕ
dcookie_shift = 7

abbrev pub hash_size : ℕ
hash_size = 512

abbrev pub invalid_cookie : ℕ
invalid_cookie = 2 ^ 64 - 1

abbrev pub no_cookie : ℕ
no_cookie = 0

-- The lists of `hashes`.
abbrev pub Hashes : Type 0
Hashes = ℕ → List CookieEntry

unfoldable pub hash_cookie : ℕ → ℕ
hash_cookie cookie = bit_and (cookie / 2 ^ dcookie_shift) (hash_size - 1)

abbrev pub cookie_init : Hashes
cookie_init hash = []

abbrev pub list_add : ℕ → CookieEntry → Hashes → Hashes
list_add hash entry hashes h = if h == hash then entry ∷ hashes h else hashes h

-- The walk along a list.
unfoldable pub find_entry : ℕ → List CookieEntry → Option CookieEntry
find_entry cookie [] = none
find_entry cookie (entry ∷ entries) =
    let rest = find_entry cookie entries in if entry.value == cookie then some entry else rest

pub data Verbose : Type 0 where
  invalid anonymous failed_lookup not_hashed : Verbose
  named : List ℕ → Verbose

abbrev pub is_special : ℕ → Bool
is_special cookie = (cookie == invalid_cookie) || (cookie == no_cookie)

-- The system call `lookup_dcookie`, `none` for its failure; and the filter of the daemon.
module _ (lookup_dcookie : ℕ → Option (List ℕ)) (is_image_ignored : List ℕ → Bool) where
  abbrev pub ignored_name : Option (List ℕ) → Bool
  ignored_name none = false
  ignored_name (some name) = is_image_ignored name

  unfoldable pub create_cookie : ℕ → CookieEntry
  create_cookie cookie = record {
    value = cookie;
    name = lookup_dcookie cookie;
    ignored = ignored_name (lookup_dcookie cookie);
  }

  -- The entry found, or a new one at the front of its list.
  abbrev pub found_or_new : ℕ → Hashes → Option CookieEntry → CookieEntry × Hashes
  found_or_new cookie hashes (some entry) = (entry, hashes)
  found_or_new cookie hashes none =
      (create_cookie cookie, list_add (hash_cookie cookie) (create_cookie cookie) hashes)

  unfoldable pub entry_of : ℕ → Hashes → CookieEntry × Hashes
  unfolding find_entry
  entry_of cookie hashes =
      found_or_new cookie hashes (find_entry cookie (hashes (hash_cookie cookie)))

  pub find_cookie : ℕ → Hashes → Option (List ℕ) × Hashes
  unfolding entry_of
  find_cookie cookie hashes =
      let (entry, hashes') = entry_of cookie hashes in
      if is_special cookie then (none, hashes) else (entry.name, hashes')

  unfoldable pub is_cookie_ignored : ℕ → Hashes → Bool × Hashes
  unfolding entry_of
  is_cookie_ignored cookie hashes =
      let (entry, hashes') = entry_of cookie hashes in
      if is_special cookie then (true, hashes) else (entry.ignored, hashes')

abbrev pub verbose_entry : Option CookieEntry → Verbose
verbose_entry none = not_hashed
verbose_entry (some entry) = elim entry.name [ none ↦ failed_lookup | some name ↦ named name ]

pub verbose_cookie : ℕ → Hashes → Verbose
unfolding find_entry
verbose_cookie cookie hashes =
    if cookie == invalid_cookie
    then invalid
    else if cookie == no_cookie
    then anonymous
    else verbose_entry (find_entry cookie (hashes (hash_cookie cookie)))
