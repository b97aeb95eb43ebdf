-- ===== src/Base/Words.antt =====
-- The moduli of the C types `u32` (`unsigned int`) and `u64` (`unsigned long long`, `size_t`).
use Prim.Native.Nat.{ℕ, ◌^◌}

abbrev pub u32 : ℕ
u32 = 2 ^ 32

abbrev pub u64 : ℕ
u64 = 2 ^ 64
