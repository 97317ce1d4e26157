-- ===== src/Tcp/Connection.antt =====
-- One connection (handleConnection of internal/modbus/server.go). The bytes that the peer sends up
-- to the end of the stream are a list, and the bytes written to it are another; every write to the
-- peer succeeds.
pub mod Framing
pub mod Totality
use mutil_modbus.Prelude.{
  ℕ, zero, suc, ◌+◌, ◌-◌, ◌*◌, ◌/◌, ◌%◌, Bool, true, false, List, [], ◌∷◌, ◌++◌, length, set,
  get_or, take, drop, Option, none, some, leb, ◌==◌, if◌then◌else◌,
}
use mutil_modbus.Go.{Go, NoError, ok, fail, panic, Bytes, high_byte, low_byte, read_full}
use mutil_modbus.Tcp.Server.{Server}
use mutil_modbus.Tcp.Pdu.{handle_pdu}

-- `binary.BigEndian.Uint16(header[4:6])`
unfoldable pub frame_length : Bytes → ℕ
frame_length header = get_or header 4 0 * 256 + get_or header 5 0

-- The request's header with the protocol, the length and the unit filled in.
unfoldable pub reply_header : Bytes → Bytes → Bytes
reply_header header response =
    let unit_id = get_or header 6 0 in
    let size = (length response + 1) % 65536 in
    set (set (set (set (set header 2 0) 3 0) 4 (high_byte size)) 5 (low_byte size)) 6 unit_id

-- What one round of the loop does.
pub data Round : Type 0 where
  closed : Round
  skipped : Bytes → Round
  answered : Server → Bytes → Bytes → Round
  crashed : Round

unfoldable pub respond : Bytes → Bytes → Go NoError (Server × Bytes) → Round
respond header rest (ok (s, response)) =
    if length response == 0
    then answered s rest []
    else answered s rest (reply_header header response ++ response)
respond header rest (fail e) = absurd e
respond header rest panic = crashed

-- A round once its header is read.
unfoldable pub after_header : Server → Bytes → Bytes → Round
after_header s header rest =
    let size = frame_length header in
    if size == 0
    then skipped rest
    else if leb (size - 1) 0
    then skipped rest
    else elim (read_full (size - 1) rest) [
      | none ↦ closed
      | some (pdu, rest') ↦ respond header rest' (handle_pdu s pdu)
    ]

unfoldable pub round : Server → Bytes → Round
round s input = elim (read_full 7 input) [
  | none ↦ closed
  | some (header, rest) ↦ after_header s header rest
]

-- How a connection ends: the server and all the bytes written.
pub data Session : Type 0 where
  ended : Server → Bytes → Session
  fault : Session
  out_of_fuel : Session

-- The loop; a round that goes on takes seven bytes at least.
unfoldable pub serve : ℕ → Server → Bytes → Bytes → Session
serve zero s input out = out_of_fuel
serve (suc fuel) s input out = elim (round s input) [
  | closed ↦ ended s out
  | skipped rest ↦ serve fuel s rest out
  | answered t rest response ↦ serve fuel t rest (out ++ response)
  | crashed ↦ fault
]
