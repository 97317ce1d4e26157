-- ===== src/Prelude/Bits.antt =====
-- Bits of bytes: a byte's bit, a byte with one more bit set, checked over all bytes.
use Prim.Native.Nat.{◌+◌, ℕ, zero, suc, ◌/◌, ◌^◌, ◌<◌, bit_and, bit_or}
use mathlib.Core.Path.{◌≡◌, refl}
use mathlib.Core.Bool.{Bool, true, false, ◌&&◌, not}
use native.Mathlib.Omega.{arith}
use mutil_modbus.Prelude.Tests.{ltb, ◌==◌, ==_iff, if◌then◌else◌}

-- `p` holds at every number under the bound: a table that `refl` evaluates.
unfoldable pub table : (ℕ → Bool) → ℕ → Bool
table p zero = true
table p (suc n) = p n && table p n

pub table_entry : (p : ℕ → Bool) (n x : ℕ) → table p n ≡ true → x < n → p x ≡ true
unfolding table
table_entry p zero x full below = absurd (omega arith)
table_entry p (suc n) x full below = ground (arith, table_entry p n x)

-- `(b >> k) & 0x01 == 0x01`
unfoldable pub bit_at : ℕ → ℕ → Bool
bit_at b k = bit_and (b / 2 ^ k) 1 == 1

-- `b | 1 << k`
unfoldable pub with_bit : ℕ → ℕ → ℕ
with_bit b k = bit_or b (2 ^ k)

bool_eq : Bool → Bool → Bool
bool_eq true b = b
bool_eq false b = not b

bool_eq_sound : (a b : Bool) → bool_eq a b ≡ true → a ≡ b
unfolding bool_eq
bool_eq_sound a b h = ground arith

with_bit_agrees : ℕ → ℕ → ℕ → Bool
with_bit_agrees b k j = bool_eq (bit_at (with_bit b k) j) (if k == j then true else bit_at b j)

with_bit_table : table (λ b. table (λ k. table (with_bit_agrees b k) 8) 8) 256 ≡ true
unfolding table with_bit_agrees with_bit bit_at bool_eq
with_bit_table = refl

pub bit_at-with_bit :
    (b k j : ℕ)
    → b < 256
    → k < 8
    → j < 8
    → bit_at (with_bit b k) j ≡ (if k == j then true else bit_at b j)
unfolding with_bit_agrees
bit_at-with_bit b k j hb hk hj =
    let of_b =
      table_entry (λ b. table (λ k. table (with_bit_agrees b k) 8) 8) 256 b with_bit_table hb in
    let of_k = table_entry (λ k. table (with_bit_agrees b k) 8) 8 k of_b hk in
    bool_eq_sound _ _ (table_entry (with_bit_agrees b k) 8 j of_k hj)

with_bit-lt_table : table (λ b. table (λ k. ltb (with_bit b k) 256) 8) 256 ≡ true
unfolding table with_bit
with_bit-lt_table = refl

pub with_bit-lt : (b k : ℕ) → b < 256 → k < 8 → with_bit b k < 256
with_bit-lt b k hb hk =
    let of_b =
      table_entry (λ b. table (λ k. ltb (with_bit b k) 256) 8) 256 b with_bit-lt_table hb in
    let of_k = table_entry (λ k. ltb (with_bit b k) 256) 8 k of_b hk in ground arith

bit_at-zero_table : table (λ k. bool_eq (bit_at 0 k) false) 8 ≡ true
unfolding table bit_at bool_eq
bit_at-zero_table = refl

pub bit_at-zero : (k : ℕ) → k < 8 → bit_at 0 k ≡ false
bit_at-zero k h =
    bool_eq_sound _ _ (table_entry (λ k. bool_eq (bit_at 0 k) false) 8 k bit_at-zero_table h)

abbrev top_set : ℕ → ℕ
top_set b = if ltb b 128 then b + 128 else b

or_top_table : table (λ b. bit_or b 0x80 == top_set b) 256 ≡ true
unfolding table
or_top_table = refl

-- `b | 0x80`
pub or_top : (b : ℕ) → b < 256 → bit_or b 0x80 ≡ (if ltb b 128 then b + 128 else b)
or_top b h = (==_iff _ _).0 (table_entry (λ b. bit_or b 0x80 == top_set b) 256 b or_top_table h)
