-- ===== src/Go/Loops.antt =====
-- The counted loops of the handlers: `n` is the number of rounds left and `i` the loop variable.
use mutil_modbus.Prelude.{
  ℕ, zero, suc, ◌+◌, ◌-◌, ◌*◌, ◌/◌, ◌%◌, ◌≤◌, ◌<◌, ◌≡◌, refl, ap, ◌∙◌, Bool, false, ◌&&◌, List,
  none, some, get_elem?, get_or, set, length, ltb, leb, ◌==◌, if◌then◌else◌, arith, length-set,
  get_elem?-set, get_elem?-some, get_elem?_lt, ◌||◌, All, All-set, All-get_elem?,
}
use mutil_modbus.Prelude.Bits.{bit_at, with_bit, bit_at-with_bit, with_bit-lt}
use native.Mathlib.Nat.{add-zero}
use mutil_modbus.Go.Result.{Go, ok, panic, ◌>>=◌}
use mutil_modbus.Go.Slice.{
  Bytes, IsByte, index, assign, index-eq_ok, assign-eq_ok, high_byte, low_byte,
}

-- `for i < qty { xs[start+i] = f(i) }`
pub assign_loop {ℓ κ} :
    {E : Type ℓ} {A : Type κ} → (ℕ → Go E A) → ℕ → ℕ → ℕ → List A → Go E (List A)
assign_loop f zero i start xs = ok xs
assign_loop f (suc n) i start xs = do
  v ← f i
  xs' ← assign xs (start + i) v
  assign_loop f n (i + 1) start xs'

-- `for i < qty { if source[start+i] { result[i/8] |= 1 << (i % 8) } }`
pub pack_loop {ℓ} : {E : Type ℓ} → List Bool → ℕ → ℕ → ℕ → Bytes → Go E Bytes
pack_loop source start zero i result = ok result
pack_loop source start (suc n) i result = do
  b ← index source (start + i)
  old ← index result (i / 8)
  result' ← assign result (i / 8) (if b then with_bit old (i % 8) else old)
  pack_loop source start n (i + 1) result'

-- `for i < qty { PutUint16(result[i*2:(i+1)*2], source[start+i]) }`
pub put_loop {ℓ} : {E : Type ℓ} → List ℕ → ℕ → ℕ → ℕ → Bytes → Go E Bytes
put_loop source start zero i result = ok result
put_loop source start (suc n) i result = do
  w ← index source (start + i)
  result₁ ← assign result (i * 2) (high_byte w)
  result₂ ← assign result₁ (i * 2 + 1) (low_byte w)
  put_loop source start n (i + 1) result₂

-- `r` is `xs` with `v (j - start)` at each index `j` from `lo` up to `hi`.
pub record Stored {A : Type 0} (v : ℕ → A) (start lo hi : ℕ) (xs r : List A) : Type 0 where
  pub length_eq : length r ≡ length xs
  pub entry :
      (j : ℕ)
      → get_elem? r j ≡ (if leb lo j && ltb j hi then some (v (j - start)) else get_elem? xs j)

Stored-here :
    {A : Type 0} (v : ℕ → A) (i start : ℕ) (xs : List A)
    → Stored v start (start + i) (start + i) xs xs
Stored-here v i start xs = record { length_eq = refl; entry = λ j. ground arith }

Stored-step :
    {A : Type 0} (v : ℕ → A) (n i start : ℕ) (xs r : List A)
    → start + i < length xs
    → Stored v start (start + (i + 1)) (start + (i + 1) + n) (set xs (start + i) (v i)) r
    → Stored v start (start + i) (start + i + suc n) xs r
Stored-step v n i start xs r h s = record {
  length_eq = s.length_eq ∙ length-set xs (start + i) (v i);
  entry = λ j. ground (arith, s.entry j, get_elem?-set xs (start + i) j (v i));
}

pub assign_loop_lem :
    {E : Type 0} {A : Type 0} (f : ℕ → Go E A) (v : ℕ → A) (n i start : ℕ) (xs : List A)
    → ((k : ℕ) → k < i + n → f k ≡ ok (v k))
    → start + i + n ≤ length xs
    → (r : List A) × (assign_loop f n i start xs ≡ ok r)
      × Stored v start (start + i) (start + i + n) xs r
unfolding assign_loop
assign_loop_lem f v zero i start xs hf h = (xs, refl, rw add-zero (Stored-here v i start xs))
assign_loop_lem f v (suc n) i start xs hf h =
    let xs' = set xs (start + i) (v i) in
    let (r, e, s) =
      assign_loop_lem f v n (i + 1) start xs' (λ k hk. hf k (omega arith))
        (omega (arith, length-set xs (start + i) (v i))) in
    (
      r,
      rw (hf i (omega arith), assign-eq_ok xs (start + i) (v i) (omega arith)) e,
      Stored-step v n i start xs r (omega arith) s,
    )

-- The bit `j` of a byte list, lowest bit of the first byte first; false past its end.
abbrev pub bit_of : Bytes → ℕ → Bool
bit_of bytes j = elim (get_elem? bytes (j / 8)) [ none ↦ false | some b ↦ bit_at b (j % 8) ]

-- `r` is `xs` with the bits from `lo` up to `hi` joined by those of `source` from `start` on.
pub record Packed (source : List Bool) (start lo hi : ℕ) (xs r : Bytes) : Type 0 where
  pub length_eq : length r ≡ length xs
  pub bytes : All IsByte r
  pub bit :
      (j : ℕ)
      → bit_of r j ≡ (
          if leb lo j && ltb j hi
          then get_or source (start + j) false || bit_of xs j
          else bit_of xs j)

Packed-step :
    (source : List Bool) (n i start : ℕ) (xs r : Bytes) (b : Bool) (old : ℕ)
    → get_elem? source (start + i) ≡ some b
    → get_elem? xs (i / 8) ≡ some old
    → old < 256
    → Packed source start
        (i + 1)
        (i + 1 + n)
        (set xs (i / 8) (if b then with_bit old (i % 8) else old))
        r
    → Packed source start i (i + suc n) xs r
Packed-step source n i start xs r b old hb ho hold s = record {
  length_eq = s.length_eq ∙ length-set xs (i / 8) _;
  bytes = s.bytes;
  bit = λ j. ground (
    arith,
    s.bit j,
    get_elem?-set xs (i / 8) (j / 8) (if b then with_bit old (i % 8) else old),
    get_elem?_lt xs (i / 8) old ho,
    bit_at-with_bit old (i % 8) (j % 8),
  );
}

pub pack_loop_lem :
    {E : Type 0} (source : List Bool) (start n i : ℕ) (xs : Bytes)
    → start + i + n ≤ length source
    → i + n ≤ 8 * length xs
    → All IsByte xs
    → (r : Bytes) × (pack_loop {E = E} source start n i xs ≡ ok r)
      × Packed source start i (i + n) xs r
unfolding pack_loop
pack_loop_lem source start zero i xs h k hb =
    (xs, refl, record { length_eq = refl; bytes = hb; bit = λ j. ground arith })
pack_loop_lem {E} source start (suc n) i xs h k hb =
    let (b, eb) = get_elem?-some source (start + i) (omega arith) in
    let (old, eo) = get_elem?-some xs (i / 8) (omega arith) in
    let hold = All-get_elem? IsByte xs (i / 8) old hb eo in
    let new = if b then with_bit old (i % 8) else old in
    let (r, e, s) =
      pack_loop_lem {E = E} source start n (i + 1) (set xs (i / 8) new) (omega arith)
        (omega (arith, length-set xs (i / 8) new))
        (All-set IsByte xs (i / 8) new hb (ground (arith, with_bit-lt old (i % 8)))) in
    (
      r,
      rw
          (
            index-eq_ok source (start + i) eb,
            index-eq_ok xs (i / 8) eo,
            assign-eq_ok xs (i / 8) new (omega arith),
          )
          e,
      Packed-step source n i start xs r b old eb eo hold s,
    )

-- Byte `j` of the big-endian form of the words of `source` from `start` on.
abbrev pub word_byte : List ℕ → ℕ → ℕ → ℕ
word_byte source start j =
    let w = get_or source (start + j / 2) 0 in if j % 2 == 0 then high_byte w else low_byte w

-- `r` is `xs` with these bytes at the indices from `lo` up to `hi`.
pub record Put (source : List ℕ) (start lo hi : ℕ) (xs r : Bytes) : Type 0 where
  pub length_eq : length r ≡ length xs
  pub entry :
      (j : ℕ)
      → get_elem? r j
        ≡ (if leb lo j && ltb j hi then some (word_byte source start j) else get_elem? xs j)

Put-step :
    (source : List ℕ) (n i start w : ℕ) (xs r : Bytes)
    → get_elem? source (start + i) ≡ some w
    → i * 2 + 1 < length xs
    → Put source start
        ((i + 1) * 2)
        ((i + 1 + n) * 2)
        (set (set xs (i * 2) (high_byte w)) (i * 2 + 1) (low_byte w))
        r
    → Put source start (i * 2) ((i + suc n) * 2) xs r
Put-step source n i start w xs r hw h s = record {
  length_eq = s.length_eq ∙ length-set _ (i * 2 + 1) _ ∙ length-set xs (i * 2) _;
  entry = λ j. ground (
    arith,
    s.entry j,
    get_elem?-set (set xs (i * 2) (high_byte w)) (i * 2 + 1) j (low_byte w),
    get_elem?-set xs (i * 2) j (high_byte w),
    length-set xs (i * 2) (high_byte w),
  );
}

pub put_loop_lem :
    {E : Type 0} (source : List ℕ) (start n i : ℕ) (xs : Bytes)
    → start + i + n ≤ length source
    → (i + n) * 2 ≤ length xs
    → (r : Bytes) × (put_loop {E = E} source start n i xs ≡ ok r)
      × Put source start (i * 2) ((i + n) * 2) xs r
unfolding put_loop
put_loop_lem source start zero i xs h k =
    (xs, refl, record { length_eq = refl; entry = λ j. ground arith })
put_loop_lem {E} source start (suc n) i xs h k =
    let (w, ew) = get_elem?-some source (start + i) (omega arith) in
    let xs₁ = set xs (i * 2) (high_byte w) in
    let l₁ = length-set xs (i * 2) (high_byte w) in
    let l₂ = length-set xs₁ (i * 2 + 1) (low_byte w) in
    let (r, e, s) =
      put_loop_lem {E = E} source start n (i + 1) (set xs₁ (i * 2 + 1) (low_byte w)) (omega arith)
        (omega arith) in
    (
      r,
      rw
          (
            index-eq_ok source (start + i) ew,
            assign-eq_ok xs (i * 2) (high_byte w) (omega arith),
            assign-eq_ok xs₁ (i * 2 + 1) (low_byte w) (omega arith),
          )
          e,
      Put-step source n i start w xs r ew (omega arith) s,
    )

-- The loop panics in the first round that has no value, when the rounds before it are in range.
pub assign_loop_panic :
    {E : Type 0} {A : Type 0} (f : ℕ → Go E A) (m n i start : ℕ) (xs : List A)
    → ((k : ℕ) → i ≤ k → k < i + m → (v : A) × (f k ≡ ok v))
    → f (i + m) ≡ panic
    → m < n
    → start + i + n ≤ length xs
    → assign_loop f n i start xs ≡ panic
unfolding assign_loop
assign_loop_panic f m zero i start xs h p lt fits = absurd (omega arith)
assign_loop_panic f zero (suc n) i start xs h p lt fits =
    let e : f i ≡ panic = ap f (omega arith) ∙ p in rw e refl
assign_loop_panic f (suc m) (suc n) i start xs h p lt fits =
    let (v, e) = h i (omega arith) (omega arith) in
    rw (e, assign-eq_ok xs (start + i) v (omega arith))
      (assign_loop_panic f m n (i + 1) start (set xs (start + i) v)
        (λ k lo hi. h k (omega arith) (omega arith)) (ap f (omega arith) ∙ p) (omega arith)
        (omega (arith, length-set xs (start + i) v)))
