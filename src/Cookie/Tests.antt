-- ===== src/Cookie/Tests.antt =====
-- Calls on the cache of cookies, and the theorem at one sequence of calls.
use oprofile.Base.{
  ℕ, ◌≡◌, refl, Bool, true, false, Option, some, none, List, [], ◌∷◌, map, ◌==◌, if◌then◌else◌,
}
use oprofile.Cookie.{
  cookie_init, hash_cookie, find_entry, create_cookie, entry_of, find_cookie, is_cookie_ignored,
  verbose_cookie, failed_lookup, named, not_hashed,
}
use oprofile.Cookie.Laws.{
  Call, ask_name, ask_ignored, name_is, ignored_is, answer_of, run, run_all, IsCache,
  run_all-answer_of,
}

-- The kernel knows cookie 4096 as "ls", and fails at the others.
abbrev lookup : ℕ → Option (List ℕ)
lookup cookie = if cookie == 4096 then some (b'l' ∷ b's' ∷ []) else none

abbrev ignore_all : List ℕ → Bool
ignore_all name = true

-- 4096 and 69632 share a list.
abbrev calls : List Call
calls = ask_name 4096 ∷ ask_ignored 69632 ∷ ask_ignored 4096 ∷ ask_name 0 ∷ []

same_hash : hash_cookie 4096 ≡ hash_cookie 69632
unfolding hash_cookie
same_hash = refl

answers :
    map (answer_of lookup ignore_all) calls
    ≡ (name_is (some (b'l' ∷ b's' ∷ [])) ∷ ignored_is false ∷ ignored_is true ∷ name_is none ∷ [])
unfolding answer_of
answers = refl

verbose_names :
    let hashes = (run_all lookup ignore_all calls cookie_init).1 in
    (verbose_cookie 4096 hashes ≡ named (b'l' ∷ b's' ∷ []))
    × (verbose_cookie 69632 hashes ≡ failed_lookup)
    × (verbose_cookie 5 hashes ≡ not_hashed)
unfolding verbose_cookie run_all run find_cookie is_cookie_ignored entry_of find_entry create_cookie
    hash_cookie
verbose_names = (refl, refl, refl)

run_all-answer_of_example :
    ((run_all lookup ignore_all calls cookie_init).0 ≡ map (answer_of lookup ignore_all) calls)
    × IsCache lookup ignore_all (run_all lookup ignore_all calls cookie_init).1
run_all-answer_of_example = run_all-answer_of lookup ignore_all calls
