-- ===== src/Base/Int64.antt =====
-- Go's int and time.Duration on a 64-bit machine: a number below 2 ^ 64 is the bit pattern, read in
-- two's complement by the comparison.
use Prim.Native.Nat.{ℕ, ◌+◌, ◌*◌, ◌%◌, ◌<◌}
use mathlib.Core.Path.{◌≡◌}
use mathlib.Core.Bool.{Bool}
use native.Mathlib.Omega.{arith}
use goscratch.Base.Tests.{ltb}

unfoldable pub add_64 : ℕ → ℕ → ℕ
add_64 a b = (a + b) % 18446744073709551616

unfoldable pub mul_64 : ℕ → ℕ → ℕ
mul_64 a b = (a * b) % 18446744073709551616

-- a < b of signed numbers: with the sign bit flipped, the patterns are in order
unfoldable pub lt_64 : ℕ → ℕ → Bool
lt_64 a b =
    ltb ((a + 9223372036854775808) % 18446744073709551616)
      ((b + 9223372036854775808) % 18446744073709551616)

-- On the patterns of numbers from 0 up the operations are the ordinary ones, as long as the result
-- fits.
pub add_64-exact : (a b : ℕ) → a + b < 18446744073709551616 → add_64 a b ≡ a + b
unfolding add_64
add_64-exact a b h = omega arith

pub mul_64-exact : (a b : ℕ) → a * b < 18446744073709551616 → mul_64 a b ≡ a * b
unfolding mul_64
mul_64-exact a b h = omega arith

pub lt_64-exact :
    (a b : ℕ) → a < 9223372036854775808 → b < 9223372036854775808 → lt_64 a b ≡ ltb a b
unfolding lt_64
lt_64-exact a b h h' = ground arith
