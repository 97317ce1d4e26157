-- ===== src/Mocktty/Pdu/Total.antt =====
-- The handler is total on the requests that a stream hands it, but for one class of coil writes.
use mutil_modbus.Prelude.{
  ℕ, suc, ◌+◌, ◌*◌, ◌/◌, ◌%◌, ◌≤◌, ◌<◌, ◌≡◌, ◌⊎◌, refl, Bool, true, false, not, ◌&&◌, List, [], ◌∷◌,
  length, get_or, ltb, leb, ◌==◌, arith, Bool-cases, inl, inr, get_elem?-some, replicate,
  length-replicate, All-replicate,
}
use mutil_modbus.Go.{
  Go, ok, fail, panic, Bytes, IsByte, be16, index, index-eq_ok, assign-eq_ok, assign_loop_lem,
  pack_loop_lem, put_loop_lem, bit_of,
}
use mutil_modbus.Mocktty.Store.{Store}
use mutil_modbus.Mocktty.Pdu.{
  Error, bad_quantity, read_bits, read_regs, write_single_coil, write_single_reg, coil_value,
  write_multiple_coils, write_multiple_regs, read_answer, write_answer, with_coils, with_holding,
  short_request, long_request, handle_rtu_pdu,
}

-- The function returns, with a value or an error.
abbrev pub Returns : {A : Type 0} → Go Error A → Type 0
Returns (ok a) = Unit
Returns (fail e) = Unit
Returns panic = ⊥

read_bits-Returns : (src : List Bool) (start qty : ℕ) → Returns (read_bits src start qty)
unfolding read_bits
read_bits-Returns src start qty = elim (Bool-cases (bad_quantity qty 2000)) [
  | inl bad ↦ rw bad tt
  | inr good ↦ rw good (elim (Bool-cases (ltb (length src) (start + qty))) [
    | inl out ↦ rw out tt
    | inr fits ↦
        let zeros : Bytes = replicate ((qty + 7) / 8) 0 in
        let l : length zeros ≡ (qty + 7) / 8 = length-replicate _ 0 in
        let (r, e, p) =
          pack_loop_lem {E = Error} src start qty 0 zeros (ground arith) (omega arith)
            (All-replicate IsByte _ 0 (omega arith)) in
        rw (fits, e) tt
  ])
]

read_regs-Returns : (src : List ℕ) (start qty : ℕ) → Returns (read_regs src start qty)
unfolding read_regs
read_regs-Returns src start qty = elim (Bool-cases (bad_quantity qty 125)) [
  | inl bad ↦ rw bad tt
  | inr good ↦ rw good (elim (Bool-cases (ltb (length src) (start + qty))) [
    | inl out ↦ rw out tt
    | inr fits ↦
        let zeros : Bytes = replicate (qty * 2 % 65536) 0 in
        let l : length zeros ≡ qty * 2 % 65536 = length-replicate _ 0 in
        let (r, e, p) =
          put_loop_lem {E = Error} src start qty 0 zeros (ground arith) (ground arith) in
        rw (fits, e) tt
  ])
]

-- An answer was given: no error and no panic.
abbrev pub Answers : Go Error (Store × Bytes) → Type 0
Answers (ok p) = Unit
Answers (fail e) = ⊥
Answers panic = ⊥

read_answer-Answers :
    (fn : ℕ) (st : Store) (r : Go Error Bytes) → Returns r → Answers (read_answer fn st r)
unfolding read_answer
read_answer-Answers fn st (ok c) h = tt
read_answer-Answers fn st (fail e) h = tt
read_answer-Answers fn st panic h = h

write_answer-Answers :
    {A : Type 0} (fn : ℕ) (st : Store) (put : A → Store) (head : Bytes) (r : Go Error A)
    → Returns r
    → Answers (write_answer fn st put head r)
unfolding write_answer
write_answer-Answers fn st put head (ok c) h = tt
write_answer-Answers fn st put head (fail e) h = tt
write_answer-Answers fn st put head panic h = h

write_single_coil-Returns :
    (dst : List Bool) (addr value : ℕ) → Returns (write_single_coil dst addr value)
unfolding write_single_coil
write_single_coil-Returns dst addr value = elim (Bool-cases (leb (length dst) addr)) [
  | inl out ↦ rw out tt
  | inr fits ↦ rw fits (elim (Bool-cases (not (value == 0xFF00) && not (value == 0))) [
    | inl bad ↦ rw bad tt
    | inr good ↦ rw (good, assign-eq_ok {E = Error} dst addr (value == 0xFF00) (ground arith)) tt
  ])
]

write_single_reg-Returns :
    (dst : List ℕ) (addr value : ℕ) → Returns (write_single_reg dst addr value)
unfolding write_single_reg
write_single_reg-Returns dst addr value = elim (Bool-cases (leb (length dst) addr)) [
  | inl out ↦ rw out tt
  | inr fits ↦ rw (fits, assign-eq_ok {E = Error} dst addr value (ground arith)) tt
]

-- A request of five bytes with one of the six functions that have one is answered, whatever its
-- four argument bytes are and whatever the sizes of the tables.
short_request-Answers :
    (st : Store) (fn a b c d : ℕ) → Answers (short_request st fn (fn ∷ a ∷ b ∷ c ∷ d ∷ []))
unfolding short_request be16 index
short_request-Answers st fn a b c d = elim (Bool-cases (fn == 1)) [
  | inl e ↦ rw e (read_answer-Answers fn st _ (read_bits-Returns st.coils _ _))
  | inr e₁ ↦ rw e₁ (elim (Bool-cases (fn == 2)) [
    | inl e ↦ rw e (read_answer-Answers fn st _ (read_bits-Returns st.discrete_inputs _ _))
    | inr e₂ ↦ rw e₂ (elim (Bool-cases (fn == 3)) [
      | inl e ↦ rw e (read_answer-Answers fn st _ (read_regs-Returns st.holding _ _))
      | inr e₃ ↦ rw e₃ (elim (Bool-cases (fn == 4)) [
        | inl e ↦ rw e (read_answer-Answers fn st _ (read_regs-Returns st.input _ _))
        | inr e₄ ↦ rw e₄ (elim (Bool-cases (fn == 5)) [
          | inl e ↦ rw e (
              write_answer-Answers fn st (with_coils st) _ _
                (write_single_coil-Returns st.coils _ _))
          | inr e₅ ↦ rw e₅ (
              write_answer-Answers fn st (with_holding st) _ _
                (write_single_reg-Returns st.holding _ _))
        ])
      ])
    ])
  ])
]

-- A request of five bytes for one of the functions 1 to 6 is answered, whatever its four argument
-- bytes are and whatever the sizes of the tables: no error and no panic.
pub handle_rtu_pdu-Answers :
    (st : Store) (fn a b c d : ℕ)
    → 1 ≤ fn
    → fn ≤ 6
    → Answers (handle_rtu_pdu st (fn ∷ a ∷ b ∷ c ∷ d ∷ []))
unfolding handle_rtu_pdu
handle_rtu_pdu-Answers st fn a b c d h k =
    let e : (leb 1 fn && leb fn 6) ≡ true = ground arith in
    rw e (short_request-Answers st fn a b c d)

payload_bit :
    (payload : Bytes) (k : ℕ)
    → k < 8 * length payload
    → coil_value payload k ≡ ok (bit_of payload k)
unfolding coil_value
payload_bit payload k h =
    let (b, e) = get_elem?-some payload (k / 8) (omega arith) in
    rw (index-eq_ok {E = Error} payload (k / 8) e, e, bit_of) refl

write_multiple_coils-Returns :
    (dst : List Bool) (start qty : ℕ) (payload : Bytes)
    → qty ≤ 8 * length payload
    → Returns (write_multiple_coils dst start qty payload)
unfolding write_multiple_coils
write_multiple_coils-Returns dst start qty payload h = elim (Bool-cases (bad_quantity qty 1968)) [
  | inl bad ↦ rw bad tt
  | inr good ↦ rw good (elim (Bool-cases (ltb (length dst) (start + qty))) [
    | inl out ↦ rw out tt
    | inr fits ↦
        let (r, e, p) =
          assign_loop_lem {E = Error} (coil_value payload) (bit_of payload) qty 0 start dst
            (λ k hk. payload_bit payload k (omega arith)) (ground arith) in
        rw (fits, e) tt
  ])
]

payload_word :
    (payload : Bytes) (k n : ℕ)
    → k < n
    → length payload ≡ n * 2
    → be16 {E = Error} payload (k * 2)
      ≡ ok (get_or payload (k * 2) 0 * 256 + get_or payload (k * 2 + 1) 0)
unfolding be16
payload_word payload k n h l =
    let (a, ea) = get_elem?-some payload (k * 2) (omega arith) in
    let (b, eb) = get_elem?-some payload (k * 2 + 1) (omega arith) in
    rw
      (
        index-eq_ok {E = Error} payload (k * 2) ea,
        index-eq_ok {E = Error} payload (k * 2 + 1) eb,
        ea,
        eb,
        get_or,
      )
      refl

write_multiple_regs-Returns :
    (dst : List ℕ) (start qty : ℕ) (payload : Bytes)
    → Returns (write_multiple_regs dst start qty payload)
unfolding write_multiple_regs
write_multiple_regs-Returns dst start qty payload = elim (Bool-cases (bad_quantity qty 123)) [
  | inl bad ↦ rw bad tt
  | inr good ↦ rw good (elim (Bool-cases (not (length payload == qty * 2))) [
    | inl wrong ↦ rw wrong tt
    | inr exact ↦ rw exact (elim (Bool-cases (ltb (length dst) (start + qty))) [
      | inl out ↦ rw out tt
      | inr fits ↦
          let (r, e, p) =
            assign_loop_lem {E = Error} (λ i. be16 payload (i * 2))
              (λ i. get_or payload (i * 2) 0 * 256 + get_or payload (i * 2 + 1) 0) qty 0 start dst
              (λ k hk. payload_word payload k qty (omega arith) (ground arith)) (ground arith) in
          rw (fits, e) tt
    ])
  ])
]

-- A request to write coils or registers whose byte count is that of its payload is answered, with
-- no error and no panic, when a write of coils has a payload of at least as many bits as its
-- quantity. The quantity, the start and the sizes of the tables are any.
pub handle_rtu_pdu_payload-Answers :
    (st : Store) (fn a b c d : ℕ) (payload : Bytes)
    → (fn ≡ 15) ⊎ (fn ≡ 16)
    → (fn ≡ 15 → c * 256 + d ≤ 8 * length payload)
    → Answers (handle_rtu_pdu st (fn ∷ a ∷ b ∷ c ∷ d ∷ length payload ∷ payload))
unfolding handle_rtu_pdu long_request be16 index
handle_rtu_pdu_payload-Answers st fn a b c d payload (inl e) bits =
    let six : ltb (suc (suc (suc (suc (suc (suc (length payload))))))) 6 ≡ false = ground arith in
    let size : (suc (suc (suc (suc (suc (suc (length payload)))))) == 6 + length payload) ≡ true =
      ground arith in
    rw (e, six, size)
      (write_answer-Answers 15 st (with_coils st) _ _
        (write_multiple_coils-Returns st.coils (a * 256 + b) (c * 256 + d) payload (bits e)))
handle_rtu_pdu_payload-Answers st fn a b c d payload (inr e) bits =
    let six : ltb (suc (suc (suc (suc (suc (suc (length payload))))))) 6 ≡ false = ground arith in
    let size : (suc (suc (suc (suc (suc (suc (length payload)))))) == 6 + length payload) ≡ true =
      ground arith in
    rw (e, six, size)
      (write_answer-Answers 16 st (with_holding st) _ _
        (write_multiple_regs-Returns st.holding (a * 256 + b) (c * 256 + d) payload))
