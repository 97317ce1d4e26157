-- ===== src/Simulator/RtuStream.antt =====
-- The simulator's stream of RTU frames (rtuStream of cmd/server/main.go). What the peer sends up to
-- the end of the stream is a list of bytes, and so is what is written to it; writes succeed.
use mutil_modbus.Prelude.{
  ℕ, zero, suc, not, ◌&&◌, ◌||◌, [], ◌∷◌, ◌++◌, get_or, take, drop, none, some, leb, ◌==◌,
  if◌then◌else◌,
}
use mutil_modbus.Go.{Go, ok, fail, panic, Bytes, read_full}
use mutil_modbus.Rtu.Crc.{crc16_modbus}
use mutil_modbus.Mocktty.Stream.{le16, sealed}
use mutil_modbus.Simulator.RtuStore.{RtuStore}
use mutil_modbus.Mocktty.Pdu.{Error}
use mutil_modbus.Simulator.RtuPdu.{handle_request}

-- What one round of the loop does.
pub data RtuRound : Type 0 where
  stopped : RtuRound
  dropped : Bytes → RtuRound
  replied : RtuStore → Bytes → Bytes → RtuRound
  failed : RtuRound

-- The response to the PDU; on an error it is empty.
unfoldable pub rtu_respond : RtuStore → ℕ → Bytes → Go Error (RtuStore × Bytes) → RtuRound
rtu_respond st addr rest (ok (st', response)) = replied st' rest (sealed (addr ∷ response))
rtu_respond st addr rest (fail e) = replied st rest (sealed (addr ∷ []))
rtu_respond st addr rest panic = failed

-- The check on a whole request: its checksum alone.
unfoldable pub rtu_check : RtuStore → ℕ → Bytes → Bytes → Bytes → RtuRound
rtu_check st addr pdu crc rest =
    if not (crc16_modbus (addr ∷ pdu) == le16 crc)
    then dropped rest
    else rtu_respond st addr rest (handle_request st pdu)

unfoldable pub rtu_short_frame : RtuStore → ℕ → ℕ → Bytes → RtuRound
rtu_short_frame st addr fn input = elim (read_full 6 input) [
  | none ↦ stopped
  | some (body, rest) ↦ rtu_check st addr (fn ∷ take 4 body) (drop 4 body) rest
]

unfoldable pub rtu_long_frame : RtuStore → ℕ → ℕ → Bytes → RtuRound
rtu_long_frame st addr fn input = elim (read_full 5 input) [
  | none ↦ stopped
  | some (hdr, rest) ↦ elim (read_full (get_or hdr 4 0) rest) [
    | none ↦ stopped
    | some (payload, rest') ↦ elim (read_full 2 rest') [
      | none ↦ stopped
      | some (crc, rest'') ↦ rtu_check st addr (fn ∷ (hdr ++ payload)) crc rest''
    ]
  ]
]

unfoldable pub rtu_round : RtuStore → Bytes → RtuRound
rtu_round st [] = stopped
rtu_round st (addr ∷ []) = stopped
rtu_round st (addr ∷ (fn ∷ input)) =
    if leb 1 fn && leb fn 6
    then rtu_short_frame st addr fn input
    else if fn == 15 || fn == 16
    then rtu_long_frame st addr fn input
    else stopped

-- How a stream ends: the store and all the bytes written.
pub data RtuSession : Type 0 where
  over : RtuStore → Bytes → RtuSession
  crash : RtuSession
  unfinished : RtuSession

-- The loop; a round that goes on takes eight bytes at least.
unfoldable pub rtu_stream : ℕ → RtuStore → Bytes → Bytes → RtuSession
rtu_stream zero st input out = unfinished
rtu_stream (suc fuel) st input out = elim (rtu_round st input) [
  | stopped ↦ over st out
  | dropped rest ↦ rtu_stream fuel st rest out
  | replied st' rest response ↦ rtu_stream fuel st' rest (out ++ response)
  | failed ↦ crash
]
