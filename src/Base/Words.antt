-- ===== src/Base/Words.antt =====
-- Numbers in memory, the low byte first.
use Prim.Native.Nat.{ℕ, zero, suc, ◌+◌, ◌*◌, ◌/◌, ◌%◌, ◌^◌, ◌<◌}
use mathlib.Core.Path.{◌≡◌, refl}
use mathlib.Core.List.{List, [], ◌∷◌}
use native.Mathlib.Omega.{arith}
use jujube.Base.Lists.{length}

-- The number at some bytes.
unfoldable pub le_value : List ℕ → ℕ
le_value [] = 0
le_value (b ∷ bs) = b + 256 * le_value bs

-- The bytes of a number.
unfoldable pub le_bytes : (size n : ℕ) → List ℕ
le_bytes zero n = []
le_bytes (suc size) n = (n % 256) ∷ le_bytes size (n / 256)

pub length-le_bytes : (size n : ℕ) → length (le_bytes size n) ≡ size
unfolding le_bytes
length-le_bytes zero n = refl
length-le_bytes (suc size) n = omega (arith, length-le_bytes size (n / 256))

-- Eight bytes hold a `uint64_t`.
pub le_value-le_bytes : (n : ℕ) → n < 2 ^ 64 → le_value (le_bytes 8 n) ≡ n
unfolding le_value le_bytes
le_value-le_bytes n h = omega arith
