-- ===== src/Simulator/RtuPdu.antt =====
-- The request handlers of the simulator's RTU endpoint (cmd/server/main.go). The errors have the
-- texts of the mock device's.
use mutil_modbus.Prelude.{
  ℕ, ◌+◌, ◌*◌, ◌/◌, ◌%◌, bit_or, Bool, not, ◌&&◌, ◌||◌, List, [], ◌∷◌, length, replicate, take,
  drop, ltb, leb, ◌==◌, if◌then◌else◌,
}
use mutil_modbus.Prelude.Bits.{bit_at}
use mutil_modbus.Go.{
  Go, ok, fail, panic, ◌>>=◌, ◌>>◌, fail_if, Bytes, index, assign, be16, pack_loop, put_loop,
  assign_loop,
}
use mutil_modbus.Mocktty.Pdu.{
  Error, invalid_qty, out_of_range, invalid_value, invalid_byte_count, empty_pdu, invalid_pdu,
  invalid_pdu_len, bad_quantity, written_head,
}
use mutil_modbus.Simulator.RtuStore.{RtuStore}

unfoldable pub rtu_read_bits : List Bool → ℕ → ℕ → Go Error Bytes
rtu_read_bits src start qty = do
  fail_if (bad_quantity qty 2000) invalid_qty
  fail_if (ltb (length src) (start + qty)) out_of_range
  pack_loop src start qty 0 (replicate ((qty + 7) / 8) 0)

unfoldable pub rtu_read_regs : List ℕ → ℕ → ℕ → Go Error Bytes
rtu_read_regs src start qty = do
  fail_if (bad_quantity qty 125) invalid_qty
  fail_if (ltb (length src) (start + qty)) out_of_range
  put_loop src start qty 0 (replicate (qty * 2 % 65536) 0)

unfoldable pub rtu_write_single_coil : List Bool → ℕ → ℕ → Go Error (List Bool)
rtu_write_single_coil dst addr value = do
  fail_if (leb (length dst) addr) out_of_range
  fail_if (not (value == 0xFF00) && not (value == 0)) invalid_value
  assign dst addr (value == 0xFF00)

unfoldable pub rtu_write_single_reg : List ℕ → ℕ → ℕ → Go Error (List ℕ)
rtu_write_single_reg dst addr value = do
  fail_if (leb (length dst) addr) out_of_range
  assign dst addr value

-- `(payload[i/8] >> (i % 8)) & 0x01 == 0x01`
unfoldable pub payload_coil : Bytes → ℕ → Go Error Bool
payload_coil payload i = do b ← index payload (i / 8); ok (bit_at b (i % 8))

unfoldable pub rtu_write_multiple_coils : List Bool → ℕ → ℕ → Bytes → Go Error (List Bool)
rtu_write_multiple_coils dst start qty payload = do
  fail_if (bad_quantity qty 1968) invalid_qty
  fail_if (ltb (length dst) (start + qty)) out_of_range
  assign_loop (payload_coil payload) qty 0 start dst

unfoldable pub rtu_write_multiple_regs : List ℕ → ℕ → ℕ → Bytes → Go Error (List ℕ)
rtu_write_multiple_regs dst start qty payload = do
  fail_if (bad_quantity qty 123) invalid_qty
  fail_if (not (length payload == qty * 2)) invalid_byte_count
  fail_if (ltb (length dst) (start + qty)) out_of_range
  assign_loop (λ i. be16 payload (i * 2)) qty 0 start dst

unfoldable pub rtu_exception : ℕ → Bytes
rtu_exception fn = bit_or fn 0x80 ∷ 2 ∷ []

-- A read's answer: the data behind its length, or the exception.
unfoldable pub rtu_read_answer : ℕ → RtuStore → Go Error Bytes → Go Error (RtuStore × Bytes)
rtu_read_answer fn st (ok content) = ok (st, fn ∷ (length content % 256) ∷ content)
rtu_read_answer fn st (fail e) = ok (st, rtu_exception fn)
rtu_read_answer fn st panic = panic

-- A write's answer, with the table written and the head of the request, or the exception.
unfoldable pub rtu_write_answer {ℓ} :
    {A : Type ℓ} → ℕ → RtuStore → (A → RtuStore) → Bytes → Go Error A → Go Error (RtuStore × Bytes)
rtu_write_answer fn st put head (ok written) = ok (put written, head)
rtu_write_answer fn st put head (fail e) = ok (st, rtu_exception fn)
rtu_write_answer fn st put head panic = panic

unfoldable pub set_coils : RtuStore → List Bool → RtuStore
set_coils st coils = record st { coils = coils }

unfoldable pub set_holding : RtuStore → List ℕ → RtuStore
set_holding st holding = record st { holding = holding }

-- The six functions that read two words of the request: start and quantity, or address and value.
unfoldable pub rtu_short_request : RtuStore → ℕ → Bytes → Go Error (RtuStore × Bytes)
rtu_short_request st fn pdu = do
  fail_if (ltb (length pdu) 5) invalid_pdu
  first ← be16 pdu 1
  second ← be16 pdu 3
  if fn == 1
      then rtu_read_answer fn st (rtu_read_bits st.coils first second)
      else if fn == 2
      then rtu_read_answer fn st (rtu_read_bits st.discretes first second)
      else if fn == 3
      then rtu_read_answer fn st (rtu_read_regs st.holding first second)
      else if fn == 4
      then rtu_read_answer fn st (rtu_read_regs st.input first second)
      else if fn == 5
      then rtu_write_answer fn st (set_coils st) (fn ∷ take 4 (drop 1 pdu))
          (rtu_write_single_coil st.coils first second)
      else rtu_write_answer fn st (set_holding st) (fn ∷ take 4 (drop 1 pdu))
          (rtu_write_single_reg st.holding first second)

-- The two functions with a payload.
unfoldable pub rtu_long_request : RtuStore → ℕ → Bytes → Go Error (RtuStore × Bytes)
rtu_long_request st fn pdu = do
  fail_if (ltb (length pdu) 6) invalid_pdu
  start ← be16 pdu 1
  qty ← be16 pdu 3
  bc ← index pdu 5
  fail_if (not (length pdu == 6 + bc)) invalid_pdu_len
  let payload = drop 6 pdu
  if fn == 15
      then rtu_write_answer fn st (set_coils st) (written_head fn start qty)
          (rtu_write_multiple_coils st.coils start qty payload)
      else rtu_write_answer fn st (set_holding st) (written_head fn start qty)
          (rtu_write_multiple_regs st.holding start qty payload)

unfoldable pub handle_request : RtuStore → Bytes → Go Error (RtuStore × Bytes)
handle_request st [] = fail empty_pdu
handle_request st (fn ∷ rest) =
    if leb 1 fn && leb fn 6
    then rtu_short_request st fn (fn ∷ rest)
    else if fn == 15 || fn == 16
    then rtu_long_request st fn (fn ∷ rest)
    else ok (st, bit_or fn 0x80 ∷ 1 ∷ [])
