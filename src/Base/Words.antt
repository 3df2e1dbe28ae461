-- ===== src/Base/Words.antt =====
-- Little-endian words in a buffer, and `uint64_t` addition.
use Prim.Native.Nat.{ℕ, ◌+◌, ◌-◌, ◌*◌, ◌%◌, ◌^◌}
use mathlib.Core.List.{List}
use transferencia_switch.Base.Lists.{get_or}

unfoldable pub u16_at : List ℕ → ℕ → ℕ
u16_at bytes at = get_or bytes at 0 + 256 * get_or bytes (at + 1) 0

unfoldable pub u32_at : List ℕ → ℕ → ℕ
unfolding u16_at
u32_at bytes at = u16_at bytes at + 2 ^ 16 * u16_at bytes (at + 2)

unfoldable pub u64_at : List ℕ → ℕ → ℕ
unfolding u32_at
u64_at bytes at = u32_at bytes at + 2 ^ 32 * u32_at bytes (at + 4)

-- `a + b` on `uint64_t`.
abbrev pub add_u64 : ℕ → ℕ → ℕ
add_u64 a b = (a + b) % 2 ^ 64

-- `a - b` on `uint64_t`, for words `a` and `b`.
abbrev pub sub_u64 : ℕ → ℕ → ℕ
sub_u64 a b = (a + 2 ^ 64 - b) % 2 ^ 64
