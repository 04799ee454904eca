-- ===== src/Prelude/Words.antt =====
-- Unsigned machine words. Sums wrap, as they do in a release build; a cast keeps the low bits.
use Prim.Native.Nat.{ℕ, ◌+◌, ◌%◌, ◌^◌}

abbrev pub add_u64 : ℕ → ℕ → ℕ
add_u64 a b = (a + b) % 2 ^ 64

abbrev pub add_u32 : ℕ → ℕ → ℕ
add_u32 a b = (a + b) % 2 ^ 32

abbrev pub as_u32 : ℕ → ℕ
as_u32 a = a % 2 ^ 32
