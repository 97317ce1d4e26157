-- ===== src/Tcp/Pdu.antt =====
-- The handlers of one request PDU (internal/modbus/server.go). A handler returns the server that
-- it leaves and the response; each error return of the source stands before the first write.
pub mod Reads
pub mod Writes
pub mod Singles
pub mod Written
pub mod Safety
pub mod RoundTrip
pub mod Replies
use mutil_modbus.Prelude.{
  ℕ, ◌+◌, ◌*◌, ◌/◌, ◌%◌, bit_or, Bool, true, false, not, ◌&&◌, ◌||◌, List, [], ◌∷◌, length,
  replicate, ltb, leb, ◌==◌, if◌then◌else◌,
}
use mutil_modbus.Prelude.Bits.{bit_at}
use mutil_modbus.Go.{
  Go, ok, fail, panic, ◌>>=◌, ◌>>◌, fail_if, NoError, Bytes, index, assign, be16, pack_loop,
  put_loop, assign_loop,
}
use mutil_modbus.Tcp.Server.{
  Error, out_of_range, invalid_qty, invalid_pdu_len, invalid_value, invalid_byte_count, Server,
}

-- `quantity == 0 || quantity > limit`
abbrev pub bad_quantity : ℕ → ℕ → Bool
bad_quantity quantity limit = quantity == 0 || ltb limit quantity

pub read_bits : List Bool → Bytes → Go Error Bytes
read_bits source pdu = do
  fail_if (ltb (length pdu) 5) invalid_pdu_len
  start ← be16 pdu 1
  quantity ← be16 pdu 3
  fail_if (bad_quantity quantity 2000) invalid_qty
  fail_if (ltb (length source) (start + quantity)) out_of_range
  pack_loop source start quantity 0 (replicate ((quantity + 7) / 8) 0)

pub read_registers : List ℕ → Bytes → Go Error Bytes
read_registers source pdu = do
  fail_if (ltb (length pdu) 5) invalid_pdu_len
  start ← be16 pdu 1
  quantity ← be16 pdu 3
  fail_if (bad_quantity quantity 125) invalid_qty
  fail_if (ltb (length source) (start + quantity)) out_of_range
  put_loop source start quantity 0 (replicate (quantity * 2 % 65536) 0)

-- `[]byte{function, pdu[1], pdu[2], pdu[3], pdu[4]}`
pub echo : ℕ → Bytes → Go Error Bytes
echo function pdu = do
  b₁ ← index pdu 1
  b₂ ← index pdu 2
  b₃ ← index pdu 3
  b₄ ← index pdu 4
  ok (function ∷ b₁ ∷ b₂ ∷ b₃ ∷ b₄ ∷ [])

pub write_single_coil : Server → Bytes → Go Error (Server × Bytes)
write_single_coil s pdu = do
  fail_if (not (length pdu == 5)) invalid_pdu_len
  address ← be16 pdu 1
  value ← be16 pdu 3
  fail_if (not (value == 0xFF00) && not (value == 0)) invalid_value
  fail_if (leb (length s.coils) address) out_of_range
  coils ← assign s.coils address (value == 0xFF00)
  response ← echo 5 pdu
  ok (record s { coils = coils }, response)

pub write_single_register : Server → Bytes → Go Error (Server × Bytes)
write_single_register s pdu = do
  fail_if (not (length pdu == 5)) invalid_pdu_len
  address ← be16 pdu 1
  value ← be16 pdu 3
  fail_if (leb (length s.holding_registers) address) out_of_range
  registers ← assign s.holding_registers address value
  response ← echo 6 pdu
  ok (record s { holding_registers = registers }, response)

-- The coil `i` of a write request: `(pdu[6+i/8] >> (i % 8)) & 0x01 == 0x01`.
pub coil_value : Bytes → ℕ → Go Error Bool
coil_value pdu i = do b ← index pdu (6 + i / 8); ok (bit_at b (i % 8))

pub write_multiple_coils : Server → Bytes → Go Error (Server × Bytes)
write_multiple_coils s pdu = do
  fail_if (ltb (length pdu) 6) invalid_pdu_len
  start ← be16 pdu 1
  quantity ← be16 pdu 3
  fail_if (bad_quantity quantity 1968) invalid_qty
  byte_count ← index pdu 5
  fail_if (not (byte_count == (quantity + 7) / 8)) invalid_byte_count
  fail_if (not (length pdu == 6 + byte_count)) invalid_pdu_len
  fail_if (ltb (length s.coils) (start + quantity)) out_of_range
  coils ← assign_loop (coil_value pdu) quantity 0 start s.coils
  response ← echo 15 pdu
  ok (record s { coils = coils }, response)

pub write_multiple_registers : Server → Bytes → Go Error (Server × Bytes)
write_multiple_registers s pdu = do
  fail_if (ltb (length pdu) 6) invalid_pdu_len
  start ← be16 pdu 1
  quantity ← be16 pdu 3
  fail_if (bad_quantity quantity 123) invalid_qty
  byte_count ← index pdu 5
  fail_if (not (byte_count == quantity * 2)) invalid_byte_count
  fail_if (not (length pdu == 6 + byte_count)) invalid_pdu_len
  fail_if (ltb (length s.holding_registers) (start + quantity)) out_of_range
  registers ← assign_loop (λ i. be16 pdu (6 + i * 2)) quantity 0 start s.holding_registers
  response ← echo 16 pdu
  ok (record s { holding_registers = registers }, response)

pub exception_response : ℕ → ℕ → Bytes
exception_response function code =
    if function == 0 then 0x80 ∷ code ∷ [] else bit_or function 0x80 ∷ code ∷ []

pub err_to_code : Error → ℕ
err_to_code out_of_range = 2
err_to_code invalid_qty = 3
err_to_code invalid_pdu_len = 3
err_to_code invalid_value = 3
err_to_code invalid_byte_count = 3

-- A read's branch of the switch: the data behind its length, or the exception.
pub read_reply : ℕ → Server → Go Error Bytes → Go NoError (Server × Bytes)
read_reply function s (ok content) = ok (s, function ∷ (length content % 256) ∷ content)
read_reply function s (fail e) = ok (s, exception_response function (err_to_code e))
read_reply function s panic = panic

-- A write's branch of the switch.
pub write_reply : ℕ → Server → Go Error (Server × Bytes) → Go NoError (Server × Bytes)
write_reply function s (ok r) = ok r
write_reply function s (fail e) = ok (s, exception_response function (err_to_code e))
write_reply function s panic = panic

-- The switch on the function code; `pdu` is the whole request.
pub dispatch : Server → ℕ → Bytes → Go NoError (Server × Bytes)
dispatch s function pdu =
    if function == 1
    then read_reply function s (read_bits s.coils pdu)
    else if function == 2
    then read_reply function s (read_bits s.discrete_inputs pdu)
    else if function == 3
    then read_reply function s (read_registers s.holding_registers pdu)
    else if function == 4
    then read_reply function s (read_registers s.input_registers pdu)
    else if function == 5
    then write_reply function s (write_single_coil s pdu)
    else if function == 6
    then write_reply function s (write_single_register s pdu)
    else if function == 15
    then write_reply function s (write_multiple_coils s pdu)
    else if function == 16
    then write_reply function s (write_multiple_registers s pdu)
    else ok (s, exception_response function 1)

unfoldable pub handle_pdu : Server → Bytes → Go NoError (Server × Bytes)
unfolding dispatch
handle_pdu s [] = ok (s, exception_response 0 1)
handle_pdu s (function ∷ rest) = dispatch s function (function ∷ rest)
