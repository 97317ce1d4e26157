-- ===== src/Mocktty/Pdu.antt =====
-- The request handlers of the mock RTU device (cmd/mocktty/main.go).
pub mod Total
pub mod Crash
use mutil_modbus.Prelude.{
  ℕ, ◌+◌, ◌*◌, ◌/◌, ◌%◌, bit_or, Bool, true, false, not, ◌&&◌, ◌||◌, List, [], ◌∷◌, length,
  replicate, take, drop, ltb, leb, ◌==◌, if◌then◌else◌,
}
use mutil_modbus.Prelude.Bits.{bit_at}
use mutil_modbus.Go.{
  Go, ok, fail, panic, ◌>>=◌, ◌>>◌, fail_if, Bytes, index, assign, be16, pack_loop, put_loop,
  assign_loop, high_byte, low_byte,
}
use mutil_modbus.Mocktty.Store.{Store}

-- The texts of the errors.
pub data Error : Type 0 where
  invalid_qty out_of_range invalid_value invalid_byte_count : Error
  empty_pdu invalid_pdu invalid_pdu_len : Error

abbrev pub bad_quantity : ℕ → ℕ → Bool
bad_quantity qty limit = qty == 0 || ltb limit qty

unfoldable pub read_bits : List Bool → ℕ → ℕ → Go Error Bytes
read_bits src start qty = do
  fail_if (bad_quantity qty 2000) invalid_qty
  fail_if (ltb (length src) (start + qty)) out_of_range
  pack_loop src start qty 0 (replicate ((qty + 7) / 8) 0)

unfoldable pub read_regs : List ℕ → ℕ → ℕ → Go Error Bytes
read_regs src start qty = do
  fail_if (bad_quantity qty 125) invalid_qty
  fail_if (ltb (length src) (start + qty)) out_of_range
  put_loop src start qty 0 (replicate (qty * 2 % 65536) 0)

unfoldable pub write_single_coil : List Bool → ℕ → ℕ → Go Error (List Bool)
write_single_coil dst addr value = do
  fail_if (leb (length dst) addr) out_of_range
  fail_if (not (value == 0xFF00) && not (value == 0)) invalid_value
  assign dst addr (value == 0xFF00)

unfoldable pub write_single_reg : List ℕ → ℕ → ℕ → Go Error (List ℕ)
write_single_reg dst addr value = do
  fail_if (leb (length dst) addr) out_of_range
  assign dst addr value

-- `(payload[i/8] >> (i % 8)) & 0x01 == 0x01`
unfoldable pub coil_value : Bytes → ℕ → Go Error Bool
coil_value payload i = do b ← index payload (i / 8); ok (bit_at b (i % 8))

unfoldable pub write_multiple_coils : List Bool → ℕ → ℕ → Bytes → Go Error (List Bool)
write_multiple_coils dst start qty payload = do
  fail_if (bad_quantity qty 1968) invalid_qty
  fail_if (ltb (length dst) (start + qty)) out_of_range
  assign_loop (coil_value payload) qty 0 start dst

unfoldable pub write_multiple_regs : List ℕ → ℕ → ℕ → Bytes → Go Error (List ℕ)
write_multiple_regs dst start qty payload = do
  fail_if (bad_quantity qty 123) invalid_qty
  fail_if (not (length payload == qty * 2)) invalid_byte_count
  fail_if (ltb (length dst) (start + qty)) out_of_range
  assign_loop (λ i. be16 payload (i * 2)) qty 0 start dst

unfoldable pub exception : ℕ → Bytes
exception fn = bit_or fn 0x80 ∷ 2 ∷ []

-- A read's answer: the data behind its length, or the exception.
unfoldable pub read_answer : ℕ → Store → Go Error Bytes → Go Error (Store × Bytes)
read_answer fn st (ok content) = ok (st, fn ∷ (length content % 256) ∷ content)
read_answer fn st (fail e) = ok (st, exception fn)
read_answer fn st panic = panic

-- A write's answer, with the table written and the head of the request, or the exception.
unfoldable pub write_answer {ℓ} :
    {A : Type ℓ} → ℕ → Store → (A → Store) → Bytes → Go Error A → Go Error (Store × Bytes)
write_answer fn st put head (ok written) = ok (put written, head)
write_answer fn st put head (fail e) = ok (st, exception fn)
write_answer fn st put head panic = panic

unfoldable pub with_coils : Store → List Bool → Store
with_coils st coils = record st { coils = coils }

unfoldable pub with_holding : Store → List ℕ → Store
with_holding st holding = record st { holding = holding }

-- The response to a multiple write: the function, the start and the quantity.
abbrev pub written_head : ℕ → ℕ → ℕ → Bytes
written_head fn start qty =
    fn ∷ high_byte start ∷ low_byte start ∷ high_byte qty ∷ low_byte qty ∷ []

-- The six functions that read two words of the request: start and quantity, or address and value.
unfoldable pub short_request : Store → ℕ → Bytes → Go Error (Store × Bytes)
short_request st fn pdu = do
  fail_if (ltb (length pdu) 5) invalid_pdu
  first ← be16 pdu 1
  second ← be16 pdu 3
  if fn == 1
      then read_answer fn st (read_bits st.coils first second)
      else if fn == 2
      then read_answer fn st (read_bits st.discrete_inputs first second)
      else if fn == 3
      then read_answer fn st (read_regs st.holding first second)
      else if fn == 4
      then read_answer fn st (read_regs st.input first second)
      else if fn == 5
      then write_answer fn st (with_coils st) (fn ∷ take 4 (drop 1 pdu))
          (write_single_coil st.coils first second)
      else write_answer fn st (with_holding st) (fn ∷ take 4 (drop 1 pdu))
          (write_single_reg st.holding first second)

-- The two functions with a payload.
unfoldable pub long_request : Store → ℕ → Bytes → Go Error (Store × Bytes)
long_request st fn pdu = do
  fail_if (ltb (length pdu) 6) invalid_pdu
  start ← be16 pdu 1
  qty ← be16 pdu 3
  bc ← index pdu 5
  fail_if (not (length pdu == 6 + bc)) invalid_pdu_len
  let payload = drop 6 pdu
  if fn == 15
      then write_answer fn st (with_coils st) (written_head fn start qty)
          (write_multiple_coils st.coils start qty payload)
      else write_answer fn st (with_holding st) (written_head fn start qty)
          (write_multiple_regs st.holding start qty payload)

unfoldable pub handle_rtu_pdu : Store → Bytes → Go Error (Store × Bytes)
handle_rtu_pdu st [] = fail empty_pdu
handle_rtu_pdu st (fn ∷ rest) =
    if leb 1 fn && leb fn 6
    then short_request st fn (fn ∷ rest)
    else if fn == 15 || fn == 16
    then long_request st fn (fn ∷ rest)
    else ok (st, bit_or fn 0x80 ∷ 1 ∷ [])
