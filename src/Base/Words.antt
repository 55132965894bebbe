-- ===== src/Base/Words.antt =====
-- Go's uint64: addition and subtraction wrap around.
use Prim.Native.Nat.{ℕ, ◌+◌, ◌-◌, ◌%◌, ◌≤◌, ◌<◌}
use mathlib.Core.Path.{◌≡◌}
use native.Mathlib.Omega.{arith}

abbrev pub u64_mod : ℕ
u64_mod = 18446744073709551616

abbrev pub add64 : ℕ → ℕ → ℕ
add64 a b = (a + b) % u64_mod

abbrev pub sub64 : ℕ → ℕ → ℕ
sub64 a b = (a + u64_mod - b) % u64_mod

pub add64-lt : (a b : ℕ) → add64 a b < u64_mod
add64-lt a b = omega arith

-- A difference that does not wrap is the plain one.
pub sub64_exact : (a b : ℕ) → a < u64_mod → b ≤ a → sub64 a b ≡ a - b
sub64_exact a b h k = omega arith

-- One that wraps is huge.
pub sub64_wraps : (a b : ℕ) → b < u64_mod → a < b → sub64 a b ≡ u64_mod - (b - a)
sub64_wraps a b h k = omega arith
