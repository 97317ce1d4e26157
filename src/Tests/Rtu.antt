-- ===== src/Tests/Rtu.antt =====
-- The theorems on the RTU endpoints and the checksum at small inputs.
use mutil_modbus.Prelude.{◌/◌, ◌%◌, ◌≡◌, ◌≢◌, refl, true, false, [], ◌∷◌, ◌++◌, inl, arith}
use mutil_modbus.Go.{panic}
use mutil_modbus.Rtu.Crc.{crc16_modbus}
use mutil_modbus.Rtu.Crc.Laws.{crc16_modbus_detects, crc16_modbus_residue}
use mutil_modbus.Mocktty.Store.{Store}
use mutil_modbus.Mocktty.Pdu.{handle_rtu_pdu}
use mutil_modbus.Mocktty.Pdu.Total.{Answers, handle_rtu_pdu-Answers, handle_rtu_pdu_payload-Answers}
use mutil_modbus.Mocktty.Pdu.Crash.{handle_rtu_pdu_panic}
use mutil_modbus.Mocktty.Stream.{sealed, round, respond, skipped, handle_stream}
use mutil_modbus.Mocktty.Stream.Frames.{tail_of, long, round-sealed, round_corrupted}
use mutil_modbus.Simulator.RtuStream.{rtu_stream}
use mutil_modbus.Simulator.Agreement.{as_rtu, as_session, rtu_stream-as_rtu}

abbrev device : Store
device = record {
  coils = true ∷ false ∷ true ∷ [];
  discrete_inputs = false ∷ true ∷ [];
  holding = 5 ∷ 6 ∷ 7 ∷ 8 ∷ [];
  input = 0xCAFE ∷ 9 ∷ [];
}

rtu_stream-as_rtu_example :
    rtu_stream 3 (as_rtu device) (sealed (17 ∷ 6 ∷ 0 ∷ 1 ∷ 0xAB ∷ 0xCD ∷ [])) []
    ≡ as_session (handle_stream 3 device 0 (sealed (17 ∷ 6 ∷ 0 ∷ 1 ∷ 0xAB ∷ 0xCD ∷ [])) [])
rtu_stream-as_rtu_example =
    rtu_stream-as_rtu 3 device (sealed (17 ∷ 6 ∷ 0 ∷ 1 ∷ 0xAB ∷ 0xCD ∷ [])) []

handle_rtu_pdu-Answers_example : Answers (handle_rtu_pdu device (3 ∷ 0 ∷ 1 ∷ 0 ∷ 2 ∷ []))
handle_rtu_pdu-Answers_example = handle_rtu_pdu-Answers device 3 0 1 0 2 (omega arith) (omega arith)

handle_rtu_pdu_payload-Answers_example :
    Answers (handle_rtu_pdu device (15 ∷ 0 ∷ 0 ∷ 0 ∷ 3 ∷ 1 ∷ 5 ∷ []))
handle_rtu_pdu_payload-Answers_example =
    handle_rtu_pdu_payload-Answers device 15 0 0 0 3 (5 ∷ []) (inl refl) (λ e. omega arith)

handle_rtu_pdu_panic_example : handle_rtu_pdu device (15 ∷ 0 ∷ 0 ∷ 0 ∷ 2 ∷ 0 ∷ []) ≡ panic
handle_rtu_pdu_panic_example =
    handle_rtu_pdu_panic device 0 0 0 2 [] refl (omega arith) (omega arith)

round-sealed_example :
    round device 17 (sealed (17 ∷ 3 ∷ 0 ∷ 1 ∷ 0 ∷ 2 ∷ []) ++ (1 ∷ []))
    ≡ respond device 17 (1 ∷ []) (handle_rtu_pdu device (3 ∷ 0 ∷ 1 ∷ 0 ∷ 2 ∷ []))
round-sealed_example =
    round-sealed device 17 17 3 0 1 0 2 (1 ∷ []) (omega arith) (omega arith) (omega arith)

round_corrupted_example :
    round device 17 (
      17
      ∷ 15
      ∷ 0
      ∷ 1
      ∷ 0
      ∷ 2
      ∷ 1
      ∷ 3
      ∷ (tail_of (17 ∷ 15 ∷ 0 ∷ 1 ∷ 0 ∷ 2 ∷ 1 ∷ 2 ∷ []) ++ (9 ∷ [])))
    ≡ skipped (9 ∷ [])
round_corrupted_example =
    round_corrupted device 17 17 (15 ∷ 0 ∷ 1 ∷ 0 ∷ 2 ∷ 1 ∷ 3 ∷ [])
      (17 ∷ 15 ∷ 0 ∷ 1 ∷ 0 ∷ 2 ∷ 1 ∷ []) [] (9 ∷ []) 2 3 (long 17 15 0 1 0 2 (3 ∷ []) (inl refl))
      (omega arith) (omega arith) (omega arith) (omega arith) refl (omega arith)

crc16_modbus_detects_example : crc16_modbus (1 ∷ 7 ∷ 9 ∷ []) ≢ crc16_modbus (1 ∷ 8 ∷ 9 ∷ [])
crc16_modbus_detects_example =
    crc16_modbus_detects (1 ∷ []) (9 ∷ []) 7 8 (omega arith) (omega arith) (omega arith)
      (omega arith) (omega arith)

crc16_modbus_residue_example :
    crc16_modbus (1 ∷ 4 ∷ (crc16_modbus (1 ∷ 4 ∷ []) % 256 ∷ crc16_modbus (1 ∷ 4 ∷ []) / 256 ∷ []))
    ≡ 0
crc16_modbus_residue_example = crc16_modbus_residue (1 ∷ 4 ∷ []) (omega arith)
