-- ===== src/Base/Words.antt =====
-- Unsigned machine words: Go's `uint` and `uint64` are 64 bits wide and wrap around.
use Prim.Native.Nat.{ℕ, ◌+◌, ◌-◌, ◌*◌, ◌%◌, ◌^◌, ◌≤◌, ◌<◌}
use mathlib.Core.Path.{◌≡◌}
use native.Mathlib.Omega.{arith}

abbrev pub word : ℕ
word = 2 ^ 64

-- `a + b`, `a - b` and `a * b` on uint64
unfoldable pub add64 : ℕ → ℕ → ℕ
add64 a b = (a + b) % word

unfoldable pub sub64 : ℕ → ℕ → ℕ
sub64 a b = (a + word - b % word) % word

unfoldable pub mul64 : ℕ → ℕ → ℕ
mul64 a b = (a * b) % word

pub add64-eq-add : (a b : ℕ) → a + b < word → add64 a b ≡ a + b
unfolding add64
add64-eq-add a b h = omega arith

pub sub64-eq-sub : (a b : ℕ) → b ≤ a → a < word → sub64 a b ≡ a - b
unfolding sub64
sub64-eq-sub a b h k = omega arith
