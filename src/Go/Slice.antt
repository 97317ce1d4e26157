-- ===== src/Go/Slice.antt =====
-- Slices as lists: an element is read or written in range, and any other index panics.
use mutil_modbus.Prelude.{
  Option, true, ◌++◌, take, drop, leb, ◌≤◌, ◌⊎◌, inl, inr, Bool-cases, length-append, take-append,
  drop-append, ℕ, ◌+◌, ◌*◌, ◌/◌, ◌%◌, ◌<◌, ◌≡◌, refl, List, none, some, get_elem?, set, length, ltb,
  if◌then◌else◌, arith, get_elem?-some,
}
use mutil_modbus.Go.Result.{Go, ok, panic, ◌>>=◌}

abbrev pub Bytes : Type 0
Bytes = List ℕ

abbrev pub IsByte : ℕ → Type 0
IsByte b = b < 256

abbrev pub IsWord : ℕ → Type 0
IsWord w = w < 65536

module _ {ℓ κ} {E : Type ℓ} {A : Type κ} where
  -- `xs[i]`
  unfoldable pub index : List A → ℕ → Go E A
  index xs i = elim (get_elem? xs i) [ none ↦ panic | some a ↦ ok a ]

  -- `xs[i] = v`
  unfoldable pub assign : List A → ℕ → A → Go E (List A)
  assign xs i v = if ltb i (length xs) then ok (set xs i v) else panic

  pub index-eq_ok : (xs : List A) (i : ℕ) {a : A} → get_elem? xs i ≡ some a → index xs i ≡ ok a
  unfolding index
  index-eq_ok xs i e = rw (e, index)

  pub index_ok : (xs : List A) (i : ℕ) → i < length xs → (a : A) × (index xs i ≡ ok a)
  index_ok xs i h = let (a, e) = get_elem?-some xs i h in (a, index-eq_ok xs i e)

  pub assign-eq_ok : (xs : List A) (i : ℕ) (v : A) → i < length xs → assign xs i v ≡ ok (set xs i v)
  unfolding assign
  assign-eq_ok xs i v h = ground arith

-- `binary.BigEndian.Uint16(xs[i:])`
unfoldable pub be16 {ℓ} : {E : Type ℓ} → Bytes → ℕ → Go E ℕ
be16 xs i = do a ← index xs i; b ← index xs (i + 1); ok (a * 256 + b)

-- The two bytes that `binary.BigEndian.PutUint16` writes.
abbrev pub high_byte : ℕ → ℕ
high_byte w = w / 256 % 256

abbrev pub low_byte : ℕ → ℕ
low_byte w = w % 256

-- `io.ReadFull`: all `n` bytes and what follows them, or an early end of the stream.
unfoldable pub read_full : ℕ → Bytes → Option (Bytes × Bytes)
read_full n input = if leb n (length input) then some (take n input, drop n input) else none

-- A read in full: short of bytes, or the first `n` and the others.
pub read_full-cases :
    (n : ℕ) (xs : Bytes)
    → (read_full n xs ≡ none) ⊎ ((n ≤ length xs) × (read_full n xs ≡ some (take n xs, drop n xs)))
unfolding read_full
read_full-cases n xs = elim (Bool-cases (leb n (length xs))) [
  | inl fits ↦ inr (ground arith, rw fits refl)
  | inr short ↦ inl (rw short refl)
]

pub read_full-append :
    (xs ys : Bytes) (n : ℕ) → n ≡ length xs → read_full n (xs ++ ys) ≡ some (xs, ys)
unfolding read_full
read_full-append xs ys n e =
    let fits : leb (length xs) (length (xs ++ ys)) ≡ true = ground (arith, length-append xs ys) in
    rw (e, fits, take-append xs ys, drop-append xs ys) refl

pub read_full-none : (n : ℕ) (xs : Bytes) → length xs < n → read_full n xs ≡ none
unfolding read_full
read_full-none n xs h = ground arith
