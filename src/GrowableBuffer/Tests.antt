-- ===== src/GrowableBuffer/Tests.antt =====
-- A run of the growable buffer, and its theorem at an input.
use oprofile.Base.{ℕ, ◌≤◌, ◌≡◌, refl, Option, some, none, List, [], ◌∷◌, arith}
use oprofile.GrowableBuffer.{GrowableBuffer, init_buffer, grow_buffer, memcpy, add_data}
use oprofile.GrowableBuffer.Laws.{bytes, contents, add_all, concat, add_all-concat}

abbrev junk : ℕ → ℕ
junk i = 255

abbrev pieces : List (List ℕ)
pieces = (1 ∷ 2 ∷ []) ∷ [] ∷ (3 ∷ []) ∷ (4 ∷ 5 ∷ 6 ∷ []) ∷ []

abbrev held : Option GrowableBuffer → Option (ℕ × ℕ × List ℕ)
held (some b) = some (b.size, b.max_size, contents b)
held none = none

-- Two bytes make four, which six outgrow.
pieces_run :
    held (add_all junk (init_buffer junk) pieces) ≡ some (6, 20, 1 ∷ 2 ∷ 3 ∷ 4 ∷ 5 ∷ 6 ∷ [])
unfolding add_all bytes add_data grow_buffer memcpy
pieces_run = refl

add_all-concat_example :
    (b : GrowableBuffer) × (add_all junk (init_buffer junk) pieces ≡ some b)
    × (b.size ≤ b.max_size)
    × (contents b ≡ concat pieces)
unfolding concat
add_all-concat_example = add_all-concat junk junk pieces (ground arith)
