-- ===== src/Anon.antt =====
-- The anonymous mappings of tasks (daemon/opd_anon.c, daemon/opd_anon.h).
mod Laws
mod Sound
mod Frees
mod Adds
mod Answers
mod Tests
use oprofile.Base.{
  ℕ, zero, suc, ◌+◌, ◌-◌, ◌*◌, ◌/◌, ◌%◌, ◌^◌, bit_and, bit_xor, Bool, true, false, not, ◌&&◌, ◌||◌,
  Option, some, none, List, [], ◌∷◌, ◌++◌, take, ltb, ◌==◌, if◌then◌else◌, u32, u64,
}
use oprofile.Trans.{clear_trans_current, clear_trans_last}
use oprofile.Cookie.{dcookie_shift}
use oprofile.Sfile.{AnonMapping, Sfiles, Transient, is_same}
use oprofile.Sfile.Clear.{sfile_clear_anon}

abbrev pub anon_hash_size : ℕ
anon_hash_size = 1024

abbrev pub lru_size : ℕ
lru_size = 8192

abbrev pub anon_lru_amount : ℕ
anon_lru_amount = lru_size / 8

abbrev pub max_image_name_size : ℕ
max_image_name_size = 20

-- `struct anon_mapping` with its address in memory; a place on a list is a copy.
pub record AnonEntry : Type 0 where
  pub address : ℕ
  pub mapping : AnonMapping
  pub name : List ℕ

-- The lists of mappings, the context of the current sample, and the sample files.
pub record Anons : Type 0 where
  pub trans : Transient
  pub hashes : ℕ → List AnonEntry
  pub lru : List AnonEntry
  pub nr_lru : ℕ
  pub next : ℕ
  pub files : Sfiles

-- A list without the mapping at an address.
pub unlink : ℕ → List AnonEntry → List AnonEntry
unlink p [] = []
unlink p (e ∷ es) = let rest = unlink p es in if e.address == p then rest else e ∷ rest

-- `tgid >> 2` of an `int`, as an `unsigned long`
pub tgid_bits : ℕ → ℕ
tgid_bits tgid = if ltb tgid (2 ^ 31) then tgid / 4 else tgid / 4 + u64 - 2 ^ 30

pub hash_anon : ℕ → ℕ → ℕ
unfolding tgid_bits
hash_anon tgid app =
    bit_and (bit_xor (app / 2 ^ dcookie_shift) (tgid_bits tgid)) (anon_hash_size - 1)

-- A mapping freed: its files are cleared, and it is taken from the lists.
pub free_mapping : AnonEntry → Anons → Anons
unfolding unlink
free_mapping e w = record w {
  files = sfile_clear_anon e.address w.files;
  hashes = λ h. unlink e.address (w.hashes h);
  lru = unlink e.address w.lru;
  nr_lru = w.nr_lru - 1;
}

abbrev pub forget_current : AnonEntry → Anons → Anons
forget_current e w =
    if is_same w.trans.anon (some e.address)
    then record w { trans = clear_trans_current w.trans }
    else w

abbrev pub forget_last : AnonEntry → Anons → Anons
forget_last e w =
    if is_same w.trans.last_anon (some e.address)
    then record w { trans = clear_trans_last w.trans }
    else w

pub kill_oldest : AnonEntry → Anons → Anons
unfolding free_mapping is_same
kill_oldest e w = free_mapping e (forget_last e (forget_current e w))

-- The loop of `do_lru` along the list: `if (nr_to_kill-- == 0) break;`
pub do_lru_from : ℕ → List AnonEntry → Anons → Anons
unfolding kill_oldest
do_lru_from nr_to_kill [] w = w
do_lru_from zero (e ∷ es) w = kill_oldest e w
do_lru_from (suc nr_to_kill) (e ∷ es) w = do_lru_from nr_to_kill es (kill_oldest e w)

pub do_lru : Anons → Anons
unfolding do_lru_from
do_lru w = do_lru_from anon_lru_amount w.lru w

abbrev pub is_of : ℕ → ℕ → AnonEntry → Bool
is_of tgid app e = (e.mapping.tgid == tgid) && (e.mapping.app_cookie == app)

-- The loop of `clear_anon_maps` along a hash list.
pub clear_from : ℕ → ℕ → List AnonEntry → Anons → Anons
unfolding free_mapping is_same
clear_from tgid app [] w = w
clear_from tgid app (e ∷ es) w =
    clear_from tgid app es (if is_of tgid app e then free_mapping e (forget_last e w) else w)

pub clear_anon_maps : Anons → Anons
unfolding clear_from hash_anon
clear_anon_maps w =
    let tgid = w.trans.tgid in
    let app = w.trans.app_cookie in
    let w' = record w { trans = clear_trans_current w.trans } in
    clear_from tgid app (w'.hashes (hash_anon tgid app)) w'

abbrev pub new_mapping : Anons → ℕ → ℕ → List ℕ → AnonEntry
new_mapping w start end name = record {
  address = w.next;
  mapping = record {
    start = start;
    end = end;
    tgid = w.trans.tgid;
    app_cookie = w.trans.app_cookie;
  };
  name = take max_image_name_size name;
}

-- The new mapping at the end of both lists, before the limit is tested.
pub linked : AnonEntry → Anons → Anons
unfolding hash_anon
linked m w =
    let hash = hash_anon m.mapping.tgid m.mapping.app_cookie in
    record w {
      hashes = λ h. if h == hash then w.hashes h ++ (m ∷ []) else w.hashes h;
      lru = w.lru ++ (m ∷ []);
      nr_lru = w.nr_lru + 1;
      next = w.next + 1;
    }

pub add_anon_mapping : Anons → ℕ → ℕ → List ℕ → Anons
unfolding linked do_lru
add_anon_mapping w start end name =
    let w' = linked (new_mapping w start end name) w in
    if w'.nr_lru == lru_size then do_lru w' else w'

-- What `sscanf` reads of a line of /proc/<tgid>/maps: the number of conversions, and what the
-- first, the second and the seventh give.
pub record MapsLine : Type 0 where
  pub ret : ℕ
  pub start : ℕ
  pub end : ℕ
  pub name : List ℕ

abbrev pub default_name : List ℕ
default_name = b'a' ∷ b'n' ∷ b'o' ∷ b'n' ∷ []

-- The name of a mapping, when there is one on the line.
abbrev pub maps_name : MapsLine → List ℕ
maps_name line = if ltb line.ret 7 then default_name else line.name

abbrev pub begins_with_slash : List ℕ → Bool
begins_with_slash [] = false
begins_with_slash (c ∷ name) = c == b'/'

pub anon_match : Transient → AnonEntry → Bool
anon_match t e =
    if not (t.tgid == e.mapping.tgid)
    then false
    else if not (t.app_cookie == e.mapping.app_cookie)
    then false
    else if ltb t.pc e.mapping.start
    then false
    else ltb t.pc e.mapping.end

pub find_on_list : Transient → List AnonEntry → Option AnonEntry
unfolding anon_match
find_on_list t [] = none
find_on_list t (e ∷ es) = let rest = find_on_list t es in if anon_match t e then some e else rest

-- The mapping that a pointer names; `none` when it was freed.
pub mapping_at : ℕ → List AnonEntry → Option AnonEntry
mapping_at p [] = none
mapping_at p (e ∷ es) = let rest = mapping_at p es in if e.address == p then some e else rest

-- From the label `success` on: the mapping goes to the front of its list.
abbrev pub success : ℕ → AnonEntry → Anons → Option ℕ × Anons
success hash e w = (
  some e.address,
  record w { hashes = λ h. if h == hash then e ∷ unlink e.address (w.hashes h) else w.hashes h },
)

abbrev pub second_try : ℕ → Anons → Option ℕ × Anons
second_try hash w = elim (find_on_list w.trans (w.hashes hash)) [
  | some e ↦ success hash e w
  | none ↦ (none, w)
]

pub add_lines : List MapsLine → Anons → Anons
unfolding add_anon_mapping
add_lines [] w = w
add_lines (line ∷ lines) w = add_lines lines (
    if ltb line.ret 6 || begins_with_slash (maps_name line)
    then w
    else add_anon_mapping w line.start line.end (maps_name line))

-- The lines of the file by task, `none` when it cannot be opened.
module _ (maps : ℕ → Option (List MapsLine)) where
  pub get_anon_maps : Anons → Anons
  unfolding add_lines
  get_anon_maps w = elim (maps w.trans.tgid) [ none ↦ w | some lines ↦ add_lines lines w ]

  -- The search along the hash list, and once more with the mappings read again.
  pub search : Anons → Option ℕ × Anons
  unfolding find_on_list unlink clear_anon_maps get_anon_maps hash_anon
  search w =
      let hash = hash_anon w.trans.tgid w.trans.app_cookie in
      elim (find_on_list w.trans (w.hashes hash)) [
        | some e ↦ success hash e w
        | none ↦ second_try hash (get_anon_maps (clear_anon_maps w))
      ]

  -- The mapping of the context, when it matches, or the search; `none` when the pointer is to freed
  -- memory.
  pub find_from : Option ℕ → Anons → Option (Option ℕ × Anons)
  unfolding mapping_at anon_match search
  find_from none w = some (search w)
  find_from (some p) w = elim (mapping_at p w.lru) [
    | none ↦ none
    | some e ↦ if anon_match w.trans e then some (some p, w) else some (search w)
  ]

  pub find_anon_mapping : Anons → Option (Option ℕ × Anons)
  unfolding find_from
  find_anon_mapping w = find_from w.trans.anon w
