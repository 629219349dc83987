-- ===== src/Bits.antt =====
-- Bit sets as the program writes them: `(x & m) != 0`, `x | y`, `~x`, and the test for a power of
-- two of util.h.
mod Step
pub mod Assoc
pub mod Digit
pub mod Laws
mod Tests
use cdecl.Prelude.{ℕ, ◌+◌, ◌-◌, ◌%◌, ◌^◌, bit_and, Bool, not, ◌&&◌, ◌==◌}

-- `(x & m) != 0`.
unfoldable pub has : ℕ → ℕ → Bool
has x m = not (bit_and x m == 0)

-- `~x` at 32 and at 64 bits.
abbrev pub compl32 : ℕ → ℕ
compl32 x = 2 ^ 32 - 1 - x

abbrev pub compl64 : ℕ → ℕ
compl64 x = 2 ^ 64 - 1 - x

-- `!(n & (n - 1))` on uint64_t; at 0 the subtraction wraps, and the conjunction is 0 all the same.
unfoldable pub at_most_one_bit_set : ℕ → Bool
at_most_one_bit_set n = bit_and n ((n + (2 ^ 64 - 1)) % 2 ^ 64) == 0

unfoldable pub exactly_one_bit_set : ℕ → Bool
unfolding at_most_one_bit_set
exactly_one_bit_set n = not (n == 0) && at_most_one_bit_set n
