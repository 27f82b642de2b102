-- ===== src/Base/Words.antt =====
-- Machine words as native numbers: wrap-around is written out.
use Prim.Native.Nat.{ℕ, ◌+◌, ◌-◌, ◌%◌, ◌^◌, ◌≤◌, ◌<◌}
use mathlib.Core.Path.{◌≡◌}
use native.Mathlib.Omega.{arith}

-- `size_t` and `uint64_t` addition and subtraction
abbrev pub add64 : ℕ → ℕ → ℕ
add64 a b = (a + b) % 2 ^ 64

abbrev pub sub64 : ℕ → ℕ → ℕ
sub64 a b = (a + 2 ^ 64 - b) % 2 ^ 64

-- `static_cast<uint16_t>`
abbrev pub u16 : ℕ → ℕ
u16 a = a % 2 ^ 16

pub sub64_le : (a b : ℕ) → b ≤ a → a < 2 ^ 64 → sub64 a b ≡ a - b
sub64_le a b h k = omega arith

pub add64_lt : (a b : ℕ) → a + b < 2 ^ 64 → add64 a b ≡ a + b
add64_lt a b h = omega arith
