-- ===== src/JitDump/Laws.antt =====
-- Bytes written and read, and the padding of records (libopagent/jitdump.h).
use oprofile.Base.Bits.{bit_and_step, bit_and-le}
use oprofile.Base.{
  ℕ, zero, suc, ◌+◌, ◌-◌, ◌*◌, ◌/◌, ◌%◌, bit_and, bit_xor, ◌<◌, ◌≡◌, refl, ap, Option, some, List,
  drop, u32, u64, arith,
}
use oprofile.JitDump.{
  padding_8aligned, put32, put64, get32, get64, combine, CodeLoad, CodeUnload, put_code_load,
  put_code_unload, CodeClose, put_code_close, CodeDebugInfo, put_code_debug_info, get_code_load,
  get_code_unload,
}

pub get32-put32 : (n : ℕ) (rest : List ℕ) → n < u32 → get32 (put32 n rest) ≡ some n
unfolding get32
get32-put32 n rest h =
    let e : n % 256
          + 256 * (n / 256 % 256)
          + 65536 * (n / 65536 % 256)
          + 16777216 * (n / 16777216 % 256)
        ≡ n =
      omega arith in
    ap some e

combine_lem :
    (a b n : ℕ) (x y : Option ℕ) → x ≡ some a → y ≡ some b → a + u32 * b ≡ n → combine x y ≡ some n
unfolding combine
combine_lem a b n x y hx hy h = rw (hx, hy) (ap some h)

pub get64-put64 : (n : ℕ) (rest : List ℕ) → n < u64 → get64 (put64 n rest) ≡ some n
unfolding get64
get64-put64 n rest h =
    combine_lem (n % u32) (n / u32) n (get32 (put64 n rest)) (get32 (put32 (n / u32) rest))
      (get32-put32 (n % u32) (put32 (n / u32) rest) (omega arith))
      (get32-put32 (n / u32) rest (omega arith)) (omega arith)

bit_and_0 : (x : ℕ) → bit_and x 0 ≡ 0
bit_and_0 x = omega (arith, bit_and-le x 0)

bit_and_7 : (x : ℕ) → bit_and x 7 ≡ x % 8
bit_and_7 x =
    let last = bit_and_0 (x / 2 / 2 / 2) in
    let e₁ : bit_and (x / 2 / 2) 1 ≡ x / 2 / 2 % 2 =
      omega (arith, bit_and_step (x / 2 / 2) 1, last) in
    let e₂ : bit_and (x / 2) 3 ≡ x / 2 % 4 = omega (arith, bit_and_step (x / 2) 3, e₁) in
    omega (arith, bit_and_step x 7, e₂)

bit_xor_7 : (m : ℕ) → m < 8 → bit_xor m 7 ≡ 7 - m
bit_xor_7 zero h = refl
bit_xor_7 (suc zero) h = refl
bit_xor_7 (suc (suc zero)) h = refl
bit_xor_7 (suc (suc (suc zero))) h = refl
bit_xor_7 (suc (suc (suc (suc zero)))) h = refl
bit_xor_7 (suc (suc (suc (suc (suc zero))))) h = refl
bit_xor_7 (suc (suc (suc (suc (suc (suc zero)))))) h = refl
bit_xor_7 (suc (suc (suc (suc (suc (suc (suc zero))))))) h = refl
bit_xor_7 (suc (suc (suc (suc (suc (suc (suc (suc m)))))))) h = absurd (omega arith)

pub padding_8aligned_lem : (x : ℕ) → padding_8aligned x ≡ 7 - (x + 7) % 8
unfolding padding_8aligned
padding_8aligned_lem x = rw (bit_and_7 (x + 7)) (bit_xor_7 ((x + 7) % 8) (omega arith))

pub get_code_load-put_code_load :
    (r : CodeLoad) (rest : List ℕ)
    → r.id < u32
    → r.total_size < u32
    → r.timestamp < u64
    → r.vma < u64
    → r.code_addr < u64
    → r.code_size < u32
    → r.align < u32
    → get_code_load (put_code_load r rest) ≡ some r
unfolding get_code_load put_code_load
get_code_load-put_code_load r rest h₀ h₁ h₂ h₃ h₄ h₅ h₆ = rw (
  get32-put32 r.id _ h₀,
  get32-put32 r.total_size _ h₁,
  get64-put64 r.timestamp _ h₂,
  get64-put64 r.vma _ h₃,
  get64-put64 r.code_addr _ h₄,
  get32-put32 r.code_size _ h₅,
  get32-put32 r.align rest h₆,
)

pub get_code_unload-put_code_unload :
    (r : CodeUnload) (rest : List ℕ)
    → r.id < u32
    → r.total_size < u32
    → r.timestamp < u64
    → r.vma < u64
    → get_code_unload (put_code_unload r rest) ≡ some r
unfolding get_code_unload put_code_unload
get_code_unload-put_code_unload r rest h₀ h₁ h₂ h₃ = rw (
  get32-put32 r.id _ h₀,
  get32-put32 r.total_size _ h₁,
  get64-put64 r.timestamp _ h₂,
  get64-put64 r.vma rest h₃,
)

pub id-put_code_load :
    (r : CodeLoad) (rest : List ℕ) → r.id < u32 → get32 (put_code_load r rest) ≡ some r.id
unfolding put_code_load
id-put_code_load r rest h = get32-put32 r.id _ h

pub total_size-put_code_load :
    (r : CodeLoad) (rest : List ℕ)
    → r.total_size < u32
    → get32 (drop 4 (put_code_load r rest)) ≡ some r.total_size
unfolding put_code_load
total_size-put_code_load r rest h = get32-put32 r.total_size _ h

pub id-put_code_unload :
    (r : CodeUnload) (rest : List ℕ) → r.id < u32 → get32 (put_code_unload r rest) ≡ some r.id
unfolding put_code_unload
id-put_code_unload r rest h = get32-put32 r.id _ h

pub total_size-put_code_unload :
    (r : CodeUnload) (rest : List ℕ)
    → r.total_size < u32
    → get32 (drop 4 (put_code_unload r rest)) ≡ some r.total_size
unfolding put_code_unload
total_size-put_code_unload r rest h = get32-put32 r.total_size _ h

pub id-put_code_close :
    (r : CodeClose) (rest : List ℕ) → r.id < u32 → get32 (put_code_close r rest) ≡ some r.id
unfolding put_code_close
id-put_code_close r rest h = get32-put32 r.id _ h

pub total_size-put_code_close :
    (r : CodeClose) (rest : List ℕ)
    → r.total_size < u32
    → get32 (drop 4 (put_code_close r rest)) ≡ some r.total_size
unfolding put_code_close
total_size-put_code_close r rest h = get32-put32 r.total_size _ h

pub id-put_code_debug_info :
    (r : CodeDebugInfo) (rest : List ℕ)
    → r.id < u32
    → get32 (put_code_debug_info r rest) ≡ some r.id
unfolding put_code_debug_info
id-put_code_debug_info r rest h = get32-put32 r.id _ h

pub total_size-put_code_debug_info :
    (r : CodeDebugInfo) (rest : List ℕ)
    → r.total_size < u32
    → get32 (drop 4 (put_code_debug_info r rest)) ≡ some r.total_size
unfolding put_code_debug_info
total_size-put_code_debug_info r rest h = get32-put32 r.total_size _ h
