-- ===== src/Odb/Valid.antt =====
-- Well-formed sample databases (libdb/odb.h) and the counts that they stand for.
use oprofile.Base.{u32, ℕ, zero, suc, ◌+◌, ◌*◌, ◌≤◌, ◌<◌, ◌≡◌, ◌≢◌, ◌==◌, if◌then◌else◌}
use oprofile.Odb.{Words, OdbData, node_key, node_value}
use oprofile.Odb.Chain.{IsLinked}

-- The tables fit the file, the words behind them are blank, and every bucket chains its nodes.
pub record IsValid (d : OdbData) : Type 0 where
  pub first : 0 < d.current_size
  pub room : d.current_size ≤ d.size
  pub mask : d.hash_mask + 1 ≡ d.size
  pub mapped : d.offset_node + 20 * d.size ≤ d.file_size
  pub small : d.offset_node + 20 * d.size < u32
  pub blank : (w : ℕ) → 5 * d.size ≤ w → d.mem w ≡ 0
  pub linked : IsLinked d.size d.hash_mask d.current_size d.mem

-- The tables of twice the size have a length that fits an `unsigned int`.
abbrev pub CanGrow : OdbData → Type 0
CanGrow d = d.offset_node + 40 * d.size < u32

-- The values of the nodes below `n` that have the key, added up; node 0 is unused.
unfoldable pub tally : Words → ℕ → ℕ → ℕ
tally mem key zero = 0
tally mem key (suc zero) = 0
tally mem key (suc (suc n)) =
    tally mem key (suc n) + (if node_key mem (suc n) == key then node_value mem (suc n) else 0)

-- The samples counted under a key.
abbrev pub count_of : OdbData → ℕ → ℕ
count_of d key = tally d.mem key d.current_size

-- No two nodes have one key.
abbrev pub IsKeyed : OdbData → Type 0
IsKeyed d = (i j : ℕ) → 0 < i → i < j → j < d.current_size → node_key d.mem i ≢ node_key d.mem j
