-- ===== src/Base/Digits.antt =====
-- Numbers as bytes, the lowest byte first: Go's `binary.LittleEndian`.
use Prim.Native.Nat.{ℕ, zero, suc, ◌+◌, ◌*◌, ◌/◌, ◌%◌, ◌<◌}
use mathlib.Core.Path.{◌≡◌, refl}
use mathlib.Core.List.{List, [], ◌∷◌}
use native.Mathlib.Omega.{arith}
use vlbe.Base.Lists.{length}

-- 256 ^ n
abbrev pub byte_bound : ℕ → ℕ
byte_bound zero = 1
byte_bound (suc n) = 256 * byte_bound n

-- the lowest `n` bytes of a number
unfoldable pub to_bytes : ℕ → ℕ → List ℕ
to_bytes zero x = []
to_bytes (suc n) x = x % 256 ∷ to_bytes n (x / 256)

unfoldable pub of_bytes : List ℕ → ℕ
of_bytes [] = 0
of_bytes (b ∷ bs) = b + 256 * of_bytes bs

pub of_bytes-to_bytes : (n x : ℕ) → x < byte_bound n → of_bytes (to_bytes n x) ≡ x
unfolding to_bytes of_bytes
of_bytes-to_bytes zero x h = omega arith
of_bytes-to_bytes (suc n) x h = omega (arith, of_bytes-to_bytes n (x / 256) (omega arith))

pub length-to_bytes : (n x : ℕ) → length (to_bytes n x) ≡ n
unfolding to_bytes
length-to_bytes zero x = refl
length-to_bytes (suc n) x = omega (arith, length-to_bytes n (x / 256))
