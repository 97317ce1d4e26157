-- ===== src/Prelude/Xor.antt =====
-- Exclusive or of numbers of any width, from its lowest digit.
use Prim.Native.Nat.{
  ℕ, zero, suc, ◌+◌, ◌*◌, ◌/◌, ◌%◌, ◌^◌, ◌≤◌, ◌<◌, bit_xor, digits, differ, bit_xor-bitwise,
}
use mathlib.Core.Path.{◌≡◌, refl, ap, ◌∙◌}
use native.Mathlib.Nat.{pow-suc}
use native.Mathlib.Omega.{arith}

abbrev xor_digits : ℕ → ℕ → ℕ → ℕ
xor_digits fuel a b = digits (λ y. y) differ fuel a b

differ-eq_mod : (x y : ℕ) → x < 2 → y < 2 → differ x y ≡ (x + y) % 2
differ-eq_mod zero zero h k = refl
differ-eq_mod zero (suc zero) h k = refl
differ-eq_mod zero (suc (suc y)) h k = absurd (omega arith)
differ-eq_mod (suc zero) zero h k = refl
differ-eq_mod (suc zero) (suc zero) h k = refl
differ-eq_mod (suc zero) (suc (suc y)) h k = absurd (omega arith)
differ-eq_mod (suc (suc x)) y h k = absurd (omega arith)

-- Fuel of at least the first number is enough.
xor_digits-fuel : (m n a b : ℕ) → a ≤ m → a ≤ n → xor_digits m a b ≡ xor_digits n a b
xor_digits-fuel zero zero zero b h k = refl
xor_digits-fuel (suc m) zero zero b h k = refl
xor_digits-fuel zero (suc n) zero b h k = refl
xor_digits-fuel (suc m) (suc n) zero b h k = refl
xor_digits-fuel zero n (suc a) b h k = absurd (omega arith)
xor_digits-fuel (suc m) zero (suc a) b h k = absurd (omega arith)
xor_digits-fuel (suc m) (suc n) (suc a) b h k =
    ap (λ (t : ℕ). t * 2 + differ (suc a % 2) (b % 2))
      (xor_digits-fuel m n (suc a / 2) (b / 2) (omega arith) (omega arith))

zero-xor : (b : ℕ) → bit_xor 0 b ≡ b
zero-xor b = bit_xor-bitwise 0 b

-- The lowest digit of an exclusive or, and what stands above it.
pub xor_step : (a b : ℕ) → bit_xor a b ≡ bit_xor (a / 2) (b / 2) * 2 + (a % 2 + b % 2) % 2
xor_step zero b = omega (arith, zero-xor b, zero-xor (b / 2))
xor_step (suc a) b = omega (
  arith,
  bit_xor-bitwise (suc a) b,
  bit_xor-bitwise (suc a / 2) (b / 2),
  xor_digits-fuel a (suc a / 2) (suc a / 2) (b / 2) (omega arith) (omega arith),
  differ-eq_mod (suc a % 2) (b % 2) (omega arith) (omega arith),
)

pub xor-lt : (k a b : ℕ) → a < 2 ^ k → b < 2 ^ k → bit_xor a b < 2 ^ k
xor-lt zero zero zero h l = omega arith
xor-lt zero (suc a) b h l = absurd (omega arith)
xor-lt zero zero (suc b) h l = absurd (omega arith)
xor-lt (suc k) a b h l = omega (
  arith,
  pow-suc 2 k,
  xor_step a b,
  xor-lt k (a / 2) (b / 2) (omega (arith, pow-suc 2 k)) (omega (arith, pow-suc 2 k)),
)

-- The same number twice leaves the other.
pub xor_cancel : (k a b : ℕ) → a < 2 ^ k → b < 2 ^ k → bit_xor a (bit_xor a b) ≡ b
xor_cancel zero zero b h l = zero-xor (bit_xor 0 b) ∙ zero-xor b
xor_cancel zero (suc a) b h l = absurd (omega arith)
xor_cancel (suc k) a b h l =
    let above : bit_xor a b / 2 ≡ bit_xor (a / 2) (b / 2) = omega (arith, xor_step a b) in
    let again =
      xor_cancel k (a / 2) (b / 2) (omega (arith, pow-suc 2 k)) (omega (arith, pow-suc 2 k)) in
    omega (
      arith,
      xor_step a (bit_xor a b),
      xor_step a b,
      ap (λ (t : ℕ). bit_xor (a / 2) t) above,
      again,
    )

pub xor_comm : (k a b : ℕ) → a < 2 ^ k → b < 2 ^ k → bit_xor a b ≡ bit_xor b a
xor_comm zero zero zero h l = refl
xor_comm zero (suc a) b h l = absurd (omega arith)
xor_comm zero zero (suc b) h l = absurd (omega arith)
xor_comm (suc k) a b h l = omega (
  arith,
  xor_step a b,
  xor_step b a,
  xor_comm k (a / 2) (b / 2) (omega (arith, pow-suc 2 k)) (omega (arith, pow-suc 2 k)),
)
