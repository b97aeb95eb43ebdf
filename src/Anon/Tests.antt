-- ===== src/Anon/Tests.antt =====
-- A task with two mappings.
use oprofile.Anon.{
  AnonEntry, Anons, MapsLine, hash_anon, tgid_bits, linked, do_lru, find_on_list, anon_match,
  find_from, find_anon_mapping, search, unlink, clear_from, clear_anon_maps, add_lines,
  add_anon_mapping, get_anon_maps,
}
use oprofile.Anon.Laws.{In, IsDistinct}
use oprofile.Anon.Sound.{IsSound, with_trans-IsSound}
use oprofile.Anon.Frees.{Trimmed, do_lru-Trimmed}
use oprofile.Anon.Adds.{IsGood, linked-IsSound}
use oprofile.Anon.Answers.{Answers, find_anon_mapping-Answers, find_anon_mapping-stale}
use oprofile.Sfile.{Sfile, Transient}
use oprofile.Sfile.Members
use oprofile.Sfile.Tests.{start, sample}
use oprofile.Trans.{user}
use oprofile.Base.{
  ℕ, ◌-◌, ◌^◌, ◌≡◌, ◌≢◌, refl, inl, inr, false, Option, some, none, List, [], ◌∷◌, arith,
}

abbrev empty : Anons
empty = record {
  trans = sample user 0 20 4200;
  hashes = λ h. [];
  lru = [];
  nr_lru = 0;
  next = 1;
  files = start;
}

abbrev line : ℕ → ℕ → MapsLine
line from to = record { ret = 6; start = from; end = to; name = [] }

abbrev maps : ℕ → Option (List MapsLine)
maps tgid = some (line 4096 8192 ∷ line 8192 12288 ∷ [])

answer_of : Option (Option ℕ × Anons) → Option ℕ
answer_of none = none
answer_of (some (o, w)) = o

-- The mappings are read, and the first is found.
read_and_found : answer_of (find_anon_mapping maps empty) ≡ some 1
unfolding answer_of find_anon_mapping find_from search find_on_list anon_match unlink clear_from
    clear_anon_maps add_lines add_anon_mapping get_anon_maps linked hash_anon tgid_bits
read_and_found = refl

empty-IsSound : IsSound empty
unfolding In IsDistinct Members.In
empty-IsSound = record {
  listed = λ h e m. absurd m;
  hashed = λ e m. absurd m;
  distinct = tt;
  each_distinct = λ h. tt;
  fresh = λ e m. absurd m;
  counted = refl;
  anon_live = tt;
  last_live = tt;
  files_sound = record {
    listed = λ h sf m. m;
    unique = λ sf sf' m m' e. absurd m;
    fresh = λ sf m. absurd m;
    live = λ sf m. absurd m;
  };
  files_live = λ sf m. absurd m;
}

find_anon_mapping-Answers_example : Answers maps empty (find_anon_mapping maps empty)
find_anon_mapping-Answers_example =
    find_anon_mapping-Answers maps empty (record { sound = empty-IsSound; bound = omega arith })

abbrev mapped : ℕ → ℕ → ℕ → AnonEntry
mapped p from to = record {
  address = p;
  mapping = record { start = from; end = to; tgid = 20; app_cookie = 512 };
  name = [];
}

abbrev old_file : Sfile
old_file = record {
  address = 7;
  hashval = 9;
  cookie = 0;
  app_cookie = 512;
  tid = 2 ^ 32 - 1;
  tgid = 20;
  cpu = 1;
  kernel = none;
  anon = some 2;
  ignored = false;
}

-- The last sample was in the second mapping, and this one is in the first.
abbrev between : Transient
between = record (sample user 0 20 4200) { current = some old_file; anon = some 2 }

abbrev two : Anons
two = linked (mapped 2 8192 12288) (linked (mapped 1 4096 8192) empty)

two-IsSound : IsSound two
unfolding linked
two-IsSound =
    linked-IsSound (mapped 2 8192 12288) (linked (mapped 1 4096 8192) empty)
      (linked-IsSound (mapped 1 4096 8192) empty empty-IsSound refl) refl

do_lru-Trimmed_example : Trimmed 1024 two (do_lru two)
do_lru-Trimmed_example = do_lru-Trimmed two two-IsSound

abbrev switched : Anons
switched = record two { trans = between }

switched-IsGood : IsGood switched
unfolding linked In
switched-IsGood = record {
  sound = with_trans-IsSound two between two-IsSound (mapped 2 8192 12288, inr (inl refl), refl) tt;
  bound = omega arith;
}

find_anon_mapping-stale_example :
    (w' : Anons) × (find_anon_mapping maps switched ≡ some (some 1, w'))
    × (w'.trans.current ≡ some old_file)
    × (old_file.anon ≢ some 1)
unfolding linked In hash_anon tgid_bits find_on_list anon_match
find_anon_mapping-stale_example =
    find_anon_mapping-stale maps switched old_file (mapped 2 8192 12288) (mapped 1 4096 8192)
      switched-IsGood refl refl refl (inr (inl refl)) refl refl
