-- ===== src/Config/Print/Numbers.antt =====
-- A number's digits are read back as the number (strconv.ParseUint and strconv.ParseInt, as
-- internal/config/config.go calls them).
use mutil_modbus.Prelude.{
  ℕ, zero, suc, ◌+◌, ◌-◌, ◌*◌, ◌^◌, ◌≡◌, ◌≤◌, ◌<◌, refl, sym, ◌∙◌, true, false, [], ◌∷◌, none, some,
  Bool-cases, inl, inr, ltb, leb, ◌==◌, All, arith, ◌/◌, ◌%◌,
}
use mutil_modbus.Prelude.Text.{Text, is_empty}
use mutil_modbus.Prelude.Float.{ℤ, pos, negsuc}
use mutil_modbus.Collector.Devices.{digits, parse_uint}
use mutil_modbus.Config.{parse_int32}
use mutil_modbus.Config.Print.{decimal, print_nat, print_int}

abbrev pub IsDigit : ℕ → Type 0
IsDigit c = (48 ≤ c) × (c ≤ 57)

decimal-IsDigit :
    (fuel n : ℕ) (s : Text) → n ≤ fuel → All IsDigit s → All IsDigit (decimal fuel n s)
unfolding decimal
decimal-IsDigit zero n s l h = ((omega arith, omega arith), h)
decimal-IsDigit (suc fuel) n s l h = elim (Bool-cases (ltb n 10)) [
  | inl e ↦ rw (e, decimal) ((omega arith, ground (arith, e)), h)
  | inr e ↦
      rw (e, decimal)
        (decimal-IsDigit fuel (n / 10) ((48 + n % 10) ∷ s) (ground (arith, e, l))
          ((omega arith, omega arith), h))
]

digits-step :
    (limit a d n : ℕ) (s : Text)
    → d < 10
    → n ≡ a * 10 + d
    → n < limit
    → digits limit a ((48 + d) ∷ s) ≡ digits limit n s
unfolding digits
digits-step limit a d n s h w l =
    let e : 48 + d - 48 ≡ d = omega arith in
    let p : leb 48 (48 + d) ≡ true = ground arith in
    let q : leb (48 + d) 57 ≡ true = ground (arith, h) in
    let r : ltb n limit ≡ true = ground (arith, l) in rw (p, q, e, sym w, r) refl

digits-decimal :
    (limit fuel n : ℕ) (s : Text)
    → n ≤ fuel
    → n < limit
    → digits limit 0 (decimal fuel n s) ≡ digits limit n s
unfolding decimal
digits-decimal limit zero n s l h =
    digits-step limit 0 (n % 10) n s (omega arith) (omega (arith, l)) h
digits-decimal limit (suc fuel) n s l h = elim (Bool-cases (ltb n 10)) [
  | inl e ↦ rw (e, decimal) (digits-step limit 0 n n s (ground (arith, e)) (omega arith) h)
  | inr e ↦
      rw (e, decimal)
        (digits-decimal limit fuel (n / 10) ((48 + n % 10) ∷ s) (ground (arith, e, l))
            (omega (arith, h))
          ∙ digits-step limit (n / 10) (n % 10) n s (omega arith) (omega arith) h)
]

print_nat-nonempty : (fuel n : ℕ) (s : Text) → is_empty (decimal fuel n s) ≡ false
unfolding decimal
print_nat-nonempty zero n s = refl
print_nat-nonempty (suc fuel) n s = elim (Bool-cases (ltb n 10)) [
  | inl e ↦ rw (e, decimal) refl
  | inr e ↦ rw (e, decimal) (print_nat-nonempty fuel (n / 10) ((48 + n % 10) ∷ s))
]

pub print_nat-IsDigit : (n : ℕ) → All IsDigit (print_nat n)
unfolding print_nat
print_nat-IsDigit n = decimal-IsDigit n n [] (omega arith) tt

pub parse_uint-print_nat : (limit n : ℕ) → n < limit → parse_uint limit (print_nat n) ≡ some n
unfolding parse_uint print_nat digits
parse_uint-print_nat limit n h =
    rw (print_nat-nonempty n n []) (digits-decimal limit n n [] (omega arith) h)

-- The numbers of 32 bits.
abbrev pub IsInt32 : ℤ → Type 0
IsInt32 (pos n) = n < 2 ^ 31
IsInt32 (negsuc n) = n < 2 ^ 31

-- A text of digits has no sign.
unsigned_lem :
    (s : Text)
    → All IsDigit s
    → is_empty s ≡ false
    → parse_int32 s ≡ elim (parse_uint (2 ^ 31) s) [ none ↦ none | some n ↦ some (pos n) ]
unfolding parse_int32
unsigned_lem [] h e = cc
unsigned_lem (c ∷ s) h e =
    let p : (c == 45) ≡ false = ground (arith, h.0) in
    let q : (c == 43) ≡ false = ground (arith, h.0) in rw (p, q) refl

pub nonempty_lem : (n : ℕ) → is_empty (print_nat n) ≡ false
unfolding print_nat
nonempty_lem n = print_nat-nonempty n n []

negative_lem : (n : ℕ) → n < 2 ^ 31 → parse_int32 (45 ∷ print_nat (n + 1)) ≡ some (negsuc n)
unfolding parse_int32
negative_lem n h =
    let m : n + 1 ≡ suc n = omega arith in
    rw (parse_uint-print_nat (2 ^ 31 + 1) (n + 1) (omega (arith, h)), m) refl

pub parse_int32-print_int : (z : ℤ) → IsInt32 z → parse_int32 (print_int z) ≡ some z
unfolding print_int
parse_int32-print_int (pos n) h =
    unsigned_lem (print_nat n) (print_nat-IsDigit n) (nonempty_lem n)
    ∙ rw (parse_uint-print_nat (2 ^ 31) n h) refl
parse_int32-print_int (negsuc n) h = negative_lem n h
