-- ===== src/Base/Bytes.antt =====
-- The bytes of integers in memory, on a machine that stores the least byte first.
use Prim.Native.Nat.{ℕ, zero, suc, ◌+◌, ◌*◌, ◌/◌, ◌%◌, ◌<◌}
use mathlib.Core.Path.{◌≡◌, refl, ap}
use mathlib.Core.List.{[], ◌∷◌}
use native.Mathlib.Omega.{arith}
use advanced_c_language_proj.Base.Lists.{length}
use advanced_c_language_proj.Base.Text.{Text}

-- The bytes at `&value`, with `n` as the size.
unfoldable pub bytes_of : ℕ → ℕ → Text
bytes_of zero value = []
bytes_of (suc n) value = value % 256 ∷ bytes_of n (value / 256)

unfoldable pub value_of : Text → ℕ
value_of [] = 0
value_of (c ∷ s) = c + 256 * value_of s

-- The number of values of `n` bytes.
unfoldable pub bound : ℕ → ℕ
bound zero = 1
bound (suc n) = 256 * bound n

pub length-bytes_of : (n value : ℕ) → length (bytes_of n value) ≡ n
unfolding bytes_of
length-bytes_of zero value = refl
length-bytes_of (suc n) value = ap suc (length-bytes_of n (value / 256))

pub value_of-bytes_of : (n value : ℕ) → value < bound n → value_of (bytes_of n value) ≡ value
unfolding bytes_of value_of bound
value_of-bytes_of zero value h = omega arith
value_of-bytes_of (suc n) value h = omega (arith, value_of-bytes_of n (value / 256) (omega arith))
