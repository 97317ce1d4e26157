-- ===== src/Tcp/Pdu/Writes.antt =====
-- What the writes of several coils and registers do to the tables, on every branch.
use mutil_modbus.Prelude.{
  ℕ, suc, ◌+◌, ◌*◌, ◌/◌, ◌≤◌, ◌<◌, ◌≡◌, ◌≢◌, ◌⊎◌, refl, Bool, false, List, [], ◌∷◌, length, get_or,
  ltb, ◌==◌, arith, Bool-cases, inl, inr, get_elem?-some,
}
use native.Mathlib.Nat.{add-zero}
use mutil_modbus.Go.{Go, ok, fail, Bytes, be16, index, assign_loop, assign_loop_lem, Stored, bit_of}
use mutil_modbus.Tcp.Server.{
  Error, out_of_range, invalid_qty, invalid_pdu_len, invalid_byte_count, Server,
}
use mutil_modbus.Tcp.Pdu.{
  bad_quantity, coil_value, echo, write_multiple_coils, write_multiple_registers,
}

-- `Stored` at the words that the bytes of a payload hold, two to a word.
abbrev pub word_of : Bytes → ℕ → ℕ
word_of payload i = get_or payload (i * 2) 0 * 256 + get_or payload (i * 2 + 1) 0

coil_value-bit_of :
    (payload : Bytes) (f a b c d n i : ℕ)
    → i / 8 < length payload
    → coil_value (f ∷ a ∷ b ∷ c ∷ d ∷ n ∷ payload) i ≡ ok (bit_of payload i)
unfolding coil_value index
coil_value-bit_of payload f a b c d n i h =
    let (x, e) = get_elem?-some payload (i / 8) h in ground arith

be16-word_of :
    (payload : Bytes) (f a b c d n i : ℕ)
    → i * 2 + 1 < length payload
    → be16 {E = Error} (f ∷ a ∷ b ∷ c ∷ d ∷ n ∷ payload) (6 + i * 2) ≡ ok (word_of payload i)
unfolding be16 index
be16-word_of payload f a b c d n i h =
    let (x, e) = get_elem?-some payload (i * 2) (omega arith) in
    let (y, e') = get_elem?-some payload (i * 2 + 1) h in ground arith

size_test :
    (payload : Bytes) (n : ℕ)
    → (suc (suc (suc (suc (suc (suc (length payload)))))) == 6 + n) ≡ (length payload == n)
size_test payload n = ground arith

-- How a write of coils ends: with one of four errors, or with the bits of the payload stored and
-- the request's head echoed.
pub data CoilsWritten (s : Server) (a b c d n : ℕ) (payload : Bytes)
    : Go Error (Server × Bytes) → Type 0 where
  wrong_quantity :
      (c * 256 + d ≡ 0) ⊎ (1968 < c * 256 + d) → CoilsWritten s a b c d n payload (fail invalid_qty)
  wrong_count :
      1 ≤ c * 256 + d
      → c * 256 + d ≤ 1968
      → n ≢ (c * 256 + d + 7) / 8
      → CoilsWritten s a b c d n payload (fail invalid_byte_count)
  wrong_size :
      n ≡ (c * 256 + d + 7) / 8
      → length payload ≢ n
      → CoilsWritten s a b c d n payload (fail invalid_pdu_len)
  past_end :
      length s.coils < a * 256 + b + (c * 256 + d)
      → CoilsWritten s a b c d n payload (fail out_of_range)
  stored :
      {coils : List Bool}
      → 1 ≤ c * 256 + d
      → c * 256 + d ≤ 1968
      → n ≡ (c * 256 + d + 7) / 8
      → length payload ≡ n
      → a * 256 + b + (c * 256 + d) ≤ length s.coils
      → Stored
          (bit_of payload)
          (a * 256 + b)
          (a * 256 + b)
          (a * 256 + b + (c * 256 + d))
          s.coils
          coils
      → CoilsWritten s a b c d n payload (ok (record s { coils = coils }, 15 ∷ a ∷ b ∷ c ∷ d ∷ []))

six_bytes : (payload : Bytes) → ltb (suc (suc (suc (suc (suc (suc (length payload))))))) 6 ≡ false
six_bytes payload = ground arith

store_coils :
    (s : Server) (f a b c d n : ℕ) (payload : Bytes)
    → n ≡ (c * 256 + d + 7) / 8
    → length payload ≡ n
    → a * 256 + b + (c * 256 + d) ≤ length s.coils
    → (coils : List Bool) × (assign_loop
          (coil_value (f ∷ a ∷ b ∷ c ∷ d ∷ n ∷ payload))
          (c * 256 + d)
          0
          (a * 256 + b)
          s.coils
        ≡ ok coils)
      × Stored
          (bit_of payload)
          (a * 256 + b)
          (a * 256 + b)
          (a * 256 + b + (c * 256 + d))
          s.coils
          coils
store_coils s f a b c d n payload hn hl fits = rw add-zero at (
    assign_loop_lem (coil_value (f ∷ a ∷ b ∷ c ∷ d ∷ n ∷ payload)) (bit_of payload) (c * 256 + d) 0
      (a * 256 + b) s.coils (λ k hk. coil_value-bit_of payload f a b c d n k (omega arith))
      (omega arith))

pub write_multiple_coils-CoilsWritten :
    (s : Server) (f a b c d n : ℕ) (payload : Bytes)
    → CoilsWritten s a b c d n payload (write_multiple_coils s (f ∷ a ∷ b ∷ c ∷ d ∷ n ∷ payload))
unfolding write_multiple_coils be16 index echo
write_multiple_coils-CoilsWritten s f a b c d n payload =
    let quantity = c * 256 + d in
    rw (six_bytes payload, size_test payload n)
      (elim (Bool-cases (bad_quantity quantity 1968)) [
        | inl bad ↦ rw bad (CoilsWritten.wrong_quantity (ground arith))
        | inr good ↦ rw good (elim (Bool-cases (n == (quantity + 7) / 8)) [
          | inr wrong ↦
              rw wrong (CoilsWritten.wrong_count (ground arith) (ground arith) (ground arith))
          | inl right ↦ rw right (elim (Bool-cases (length payload == n)) [
            | inr wrong ↦ rw wrong (CoilsWritten.wrong_size (ground arith) (ground arith))
            | inl full ↦
                rw full (elim (Bool-cases (ltb (length s.coils) (a * 256 + b + quantity))) [
                  | inl out ↦ rw out (CoilsWritten.past_end (ground arith))
                  | inr fits ↦ rw fits (
                      let (coils, e, st) =
                        store_coils s f a b c d n payload (ground arith) (ground arith)
                          (ground arith) in
                      rw e (
                        CoilsWritten.stored (ground arith) (ground arith) (ground arith)
                          (ground arith) (ground arith) st))
                ])
          ])
        ])
      ])

-- How a write of registers ends.
pub data WordsWritten (s : Server) (a b c d n : ℕ) (payload : Bytes)
    : Go Error (Server × Bytes) → Type 0 where
  wrong_quantity :
      (c * 256 + d ≡ 0) ⊎ (123 < c * 256 + d) → WordsWritten s a b c d n payload (fail invalid_qty)
  wrong_count :
      1 ≤ c * 256 + d
      → c * 256 + d ≤ 123
      → n ≢ (c * 256 + d) * 2
      → WordsWritten s a b c d n payload (fail invalid_byte_count)
  wrong_size :
      n ≡ (c * 256 + d) * 2
      → length payload ≢ n
      → WordsWritten s a b c d n payload (fail invalid_pdu_len)
  past_end :
      length s.holding_registers < a * 256 + b + (c * 256 + d)
      → WordsWritten s a b c d n payload (fail out_of_range)
  stored :
      {registers : List ℕ}
      → 1 ≤ c * 256 + d
      → c * 256 + d ≤ 123
      → n ≡ (c * 256 + d) * 2
      → length payload ≡ n
      → a * 256 + b + (c * 256 + d) ≤ length s.holding_registers
      → Stored
          (word_of payload)
          (a * 256 + b)
          (a * 256 + b)
          (a * 256 + b + (c * 256 + d))
          s.holding_registers
          registers
      → WordsWritten s a b c d n payload
          (ok (record s { holding_registers = registers }, 16 ∷ a ∷ b ∷ c ∷ d ∷ []))

store_words :
    (s : Server) (f a b c d n : ℕ) (payload : Bytes)
    → n ≡ (c * 256 + d) * 2
    → length payload ≡ n
    → a * 256 + b + (c * 256 + d) ≤ length s.holding_registers
    → (registers : List ℕ) × (assign_loop {E = Error}
          (λ i. be16 (f ∷ a ∷ b ∷ c ∷ d ∷ n ∷ payload) (6 + i * 2))
          (c * 256 + d)
          0
          (a * 256 + b)
          s.holding_registers
        ≡ ok registers)
      × Stored
          (word_of payload)
          (a * 256 + b)
          (a * 256 + b)
          (a * 256 + b + (c * 256 + d))
          s.holding_registers
          registers
store_words s f a b c d n payload hn hl fits = rw add-zero at (
    assign_loop_lem {E = Error} (λ i. be16 (f ∷ a ∷ b ∷ c ∷ d ∷ n ∷ payload) (6 + i * 2))
      (word_of payload) (c * 256 + d) 0 (a * 256 + b) s.holding_registers
      (λ k hk. be16-word_of payload f a b c d n k (omega arith)) (omega arith))

-- `be16` at the two heads of a request, with the later reads left shut.
pub heads :
    (f a b c d : ℕ) (rest : Bytes)
    → (be16 {E = Error} (f ∷ a ∷ b ∷ c ∷ d ∷ rest) 1 ≡ ok (a * 256 + b))
      × (be16 {E = Error} (f ∷ a ∷ b ∷ c ∷ d ∷ rest) 3 ≡ ok (c * 256 + d))
unfolding be16 index
heads f a b c d rest = (refl, refl)

pub write_multiple_registers-WordsWritten :
    (s : Server) (f a b c d n : ℕ) (payload : Bytes)
    → WordsWritten s a b c d n payload
        (write_multiple_registers s (f ∷ a ∷ b ∷ c ∷ d ∷ n ∷ payload))
unfolding write_multiple_registers index echo
write_multiple_registers-WordsWritten s f a b c d n payload =
    let quantity = c * 256 + d in
    let (h₁, h₃) = heads f a b c d (n ∷ payload) in
    rw (six_bytes payload, size_test payload n, h₁, h₃)
      (elim (Bool-cases (bad_quantity quantity 123)) [
        | inl bad ↦ rw bad (WordsWritten.wrong_quantity (ground arith))
        | inr good ↦ rw good (elim (Bool-cases (n == quantity * 2)) [
          | inr wrong ↦
              rw wrong (WordsWritten.wrong_count (ground arith) (ground arith) (ground arith))
          | inl right ↦ rw right (elim (Bool-cases (length payload == n)) [
            | inr wrong ↦ rw wrong (WordsWritten.wrong_size (ground arith) (ground arith))
            | inl full ↦
                rw full
                  (elim (Bool-cases (ltb (length s.holding_registers) (a * 256 + b + quantity))) [
                    | inl out ↦ rw out (WordsWritten.past_end (ground arith))
                    | inr fits ↦ rw fits (
                        let (registers, e, st) =
                          store_words s f a b c d n payload (ground arith) (ground arith)
                            (ground arith) in
                        rw e (
                          WordsWritten.stored (ground arith) (ground arith) (ground arith)
                            (ground arith) (ground arith) st))
                  ])
          ])
        ])
      ])
