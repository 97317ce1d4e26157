-- ===== src/Prelude/Float.antt =====
-- Signed integers, and the operations on float64 that the program uses, as a parameter.
use Prim.Native.Nat.{ℕ, ◌-◌, ◌*◌, ◌%◌, ◌<◌}
use mathlib.Core.Path.{◌≡◌}
use mathlib.Core.Bool.{Bool}
use native.Mathlib.Omega.{arith}
use mutil_modbus.Prelude.Tests.{ltb, if◌then◌else◌}

pub data ℤ : Type 0 where
  pos : ℕ → ℤ
  negsuc : ℕ → ℤ

-- `int16(u)` with `half` 32768, and `int32(u)` with `half` 2147483648.
unfoldable pub signed : ℕ → ℕ → ℤ
signed half u = if ltb u half then pos u else negsuc (2 * half - u - 1)

-- `uint16(i)` of an int16, and the like for 32 bits.
unfoldable pub unsigned : ℕ → ℤ → ℕ
unsigned half (pos n) = n % (2 * half)
unsigned half (negsuc n) = (2 * half - 1 - n % (2 * half)) % (2 * half)

-- The float64 of the hardware: `of_bits` is the value of a float32's pattern, and `to_bits` the
-- pattern of the conversion to float32, none when that overflows. `round_to_int` is `math.Round`
-- of a finite value.
pub record FloatOps (F : Type 0) : Type 0 where
  pub of_int : ℤ → F
  pub of_bits : ℕ → F
  pub to_bits : F → ℕ
  pub add : F → F → F
  pub sub : F → F → F
  pub mul : F → F → F
  pub div : F → F → F
  pub is_zero : F → Bool
  pub is_positive : F → Bool
  pub is_finite : F → Bool
  pub overflows : F → Bool
  pub round_to_int : F → ℤ

-- An int16 keeps its value through the two conversions.
pub signed-unsigned : (u : ℕ) → u < 65536 → unsigned 32768 (signed 32768 u) ≡ u
unfolding unsigned signed
signed-unsigned u h = ground arith
