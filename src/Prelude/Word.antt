-- ===== src/Prelude/Word.antt =====
-- 32-bit words. The program is compiled with -fwrapv, so signed arithmetic wraps too, and a `long int`
-- is its bit pattern.
use Prim.Native.Nat.{ℕ, ◌+◌, ◌-◌, ◌%◌, ◌^◌, bit_and}
use mathlib.Core.Bool.{Bool, not}
use pascal_scheduler.Prelude.Tests.{ltb, ◌==◌}

abbrev pub u32_mod : ℕ
u32_mod = 2 ^ 32

abbrev pub add32 : ℕ → ℕ → ℕ
add32 a b = (a + b) % u32_mod

-- `-` on ℕ stops at 0, so the modulus is added first.
abbrev pub sub32 : ℕ → ℕ → ℕ
sub32 a b = (a + (u32_mod - b % u32_mod)) % u32_mod

-- `a < b` between two `long int`s: flipping the sign bits turns it into the order of the patterns.
abbrev pub long_lt : ℕ → ℕ → Bool
long_lt a b = ltb (add32 a (2 ^ 31)) (add32 b (2 ^ 31))

-- `word & flag`, as a condition.
unfoldable pub has_flag : ℕ → ℕ → Bool
has_flag word flag = not (bit_and word flag == 0)

-- The pattern of -1.
abbrev pub u32_max : ℕ
u32_max = 2 ^ 32 - 1
