-- ===== src/Base/Words.antt =====
-- Go's unsigned machine integers: numbers below 2 ^ 64 or 2 ^ 32, with the wrap-around written out.
use Prim.Native.Nat.{ℕ, ◌+◌, ◌-◌, ◌*◌, ◌%◌, ◌^◌, ◌<◌}
use mathlib.Core.Path.{◌≡◌}
use native.Mathlib.Omega.{arith}

abbrev pub u64_mod : ℕ
u64_mod = 2 ^ 64

unfoldable pub add64 : ℕ → ℕ → ℕ
add64 a b = (a + b) % 2 ^ 64

unfoldable pub sub64 : ℕ → ℕ → ℕ
sub64 a b = (a + 2 ^ 64 - b) % 2 ^ 64

unfoldable pub mul64 : ℕ → ℕ → ℕ
mul64 a b = (a * b) % 2 ^ 64

pub add64_fits : (a b : ℕ) → a + b < 2 ^ 64 → add64 a b ≡ a + b
unfolding add64
add64_fits a b h = omega arith

pub add64-lt : (a b : ℕ) → add64 a b < 2 ^ 64
unfolding add64
add64-lt a b = omega arith
