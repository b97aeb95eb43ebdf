-- ===== src/ImageFilter/Tests.antt =====
-- A filter of two names, and the theorem at it.
use oprofile.Base.{ℕ, ◌≡◌, ◌↔◌, refl, false, Option, some, none, List, [], ◌∷◌}
use oprofile.ImageFilter.{
  bucket, is_equal, has_name, parse_from, opd_parse_image_filter, is_image_ignored,
}
use oprofile.Odb.Registry.{op_hash_string, hash_from}
use oprofile.ImageFilter.Laws.{IsListed, join, is_image_ignored-IsListed}

-- Every name stands in "/", but for the empty one.
abbrev in_root : List ℕ → Option (List ℕ)
in_root [] = none
in_root (c ∷ name) = some (b'/' ∷ c ∷ name)

-- ls,sh
abbrev text : Option (List ℕ)
text = some (join (b'l' ∷ b's' ∷ []) ((b's' ∷ b'h' ∷ []) ∷ []))

listed :
    is_image_ignored text (opd_parse_image_filter in_root text) (b'/' ∷ b's' ∷ b'h' ∷ []) ≡ false
unfolding is_image_ignored opd_parse_image_filter parse_from has_name is_equal bucket join
    op_hash_string hash_from
listed = refl

is_image_ignored-IsListed_example :
    (is_image_ignored text (opd_parse_image_filter in_root text) (b'/' ∷ b's' ∷ b'h' ∷ []) ≡ false)
    ↔ IsListed in_root (b'/' ∷ b's' ∷ b'h' ∷ []) ((b'l' ∷ b's' ∷ []) ∷ (b's' ∷ b'h' ∷ []) ∷ [])
is_image_ignored-IsListed_example =
    is_image_ignored-IsListed in_root (b'l' ∷ b's' ∷ []) ((b's' ∷ b'h' ∷ []) ∷ [])
      (b'/' ∷ b's' ∷ b'h' ∷ []) (refl, (refl, tt)) ((refl, (refl, tt)), tt)
