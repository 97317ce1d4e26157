-- ===== src/Mocktty/Stream.antt =====
-- One stream of RTU frames (handleStream of cmd/mocktty/main.go). What the peer sends up to the end
-- of the stream is a list of bytes, and so is what is written to it; writes succeed.
pub mod Frames
use mutil_modbus.Prelude.{
  ℕ, zero, suc, ◌+◌, ◌*◌, ◌/◌, ◌%◌, Bool, true, false, not, ◌&&◌, ◌||◌, List, [], ◌∷◌, ◌++◌, length,
  get_or, take, drop, Option, none, some, leb, ◌==◌, if◌then◌else◌,
}
use mutil_modbus.Go.{Go, ok, fail, panic, Bytes, read_full}
use mutil_modbus.Rtu.Crc.{crc16_modbus}
use mutil_modbus.Mocktty.Store.{Store}
use mutil_modbus.Mocktty.Pdu.{Error, handle_rtu_pdu}

-- `binary.LittleEndian.Uint16`
abbrev pub le16 : Bytes → ℕ
le16 bs = get_or bs 1 0 * 256 + get_or bs 0 0

-- Content with its checksum behind it, low byte first.
unfoldable pub sealed : Bytes → Bytes
sealed body = body ++ (crc16_modbus body % 256 ∷ crc16_modbus body / 256 % 256 ∷ [])

-- What one round of the loop does.
pub data Round : Type 0 where
  closed : Round
  skipped : Bytes → Round
  answered : Store → Bytes → Bytes → Round
  crashed : Round

-- The response to the PDU; on an error it is empty.
unfoldable pub respond : Store → ℕ → Bytes → Go Error (Store × Bytes) → Round
respond st address rest (ok (st', response)) = answered st' rest (sealed (address ∷ response))
respond st address rest (fail e) = answered st rest (sealed (address ∷ []))
respond st address rest panic = crashed

-- The checks on a whole request: its checksum, then its address. A slave of 0 takes all.
unfoldable pub check : Store → ℕ → ℕ → Bytes → Bytes → Bytes → Round
check st slave address pdu crc rest =
    if not (crc16_modbus (address ∷ pdu) == le16 crc)
    then skipped rest
    else if not (slave == 0) && not (address == slave)
    then skipped rest
    else respond st address rest (handle_rtu_pdu st pdu)

unfoldable pub short_frame : Store → ℕ → ℕ → ℕ → Bytes → Round
short_frame st slave address fn input = elim (read_full 6 input) [
  | none ↦ closed
  | some (body, rest) ↦ check st slave address (fn ∷ take 4 body) (drop 4 body) rest
]

unfoldable pub long_frame : Store → ℕ → ℕ → ℕ → Bytes → Round
long_frame st slave address fn input = elim (read_full 5 input) [
  | none ↦ closed
  | some (hdr, rest) ↦ elim (read_full (get_or hdr 4 0) rest) [
    | none ↦ closed
    | some (payload, rest') ↦ elim (read_full 2 rest') [
      | none ↦ closed
      | some (crc, rest'') ↦ check st slave address (fn ∷ (hdr ++ payload)) crc rest''
    ]
  ]
]

unfoldable pub round : Store → ℕ → Bytes → Round
round st slave [] = closed
round st slave (address ∷ []) = closed
round st slave (address ∷ (fn ∷ input)) =
    if leb 1 fn && leb fn 6
    then short_frame st slave address fn input
    else if fn == 15 || fn == 16
    then long_frame st slave address fn input
    else closed

-- How a stream ends: the store and all the bytes written.
pub data Session : Type 0 where
  ended : Store → Bytes → Session
  fault : Session
  out_of_fuel : Session

-- The loop; a round that goes on takes eight bytes at least.
unfoldable pub handle_stream : ℕ → Store → ℕ → Bytes → Bytes → Session
handle_stream zero st slave input out = out_of_fuel
handle_stream (suc fuel) st slave input out = elim (round st slave input) [
  | closed ↦ ended st out
  | skipped rest ↦ handle_stream fuel st slave rest out
  | answered st' rest response ↦ handle_stream fuel st' slave rest (out ++ response)
  | crashed ↦ fault
]
