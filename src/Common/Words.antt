-- ===== src/Common/Words.antt =====
-- `uint64_t` arithmetic with its wrap-around.
use Prim.Native.Nat.{ℕ, ◌+◌, ◌-◌, ◌%◌, ◌^◌, ◌≤◌, ◌<◌}
use mathlib.Core.Path.{◌≡◌}
use native.Mathlib.Omega.{arith}

abbrev pub u64_mod : ℕ
u64_mod = 2 ^ 64

unfoldable pub add64 : ℕ → ℕ → ℕ
add64 a b = (a + b) % u64_mod

unfoldable pub sub64 : ℕ → ℕ → ℕ
sub64 a b = (a + u64_mod - b) % u64_mod

pub add64_lem : (a b : ℕ) → a + b < u64_mod → add64 a b ≡ a + b
unfolding add64
add64_lem a b h = omega arith

pub sub64_lem : (a b : ℕ) → b ≤ a → a < u64_mod → sub64 a b ≡ a - b
unfolding sub64
sub64_lem a b h k = omega arith
