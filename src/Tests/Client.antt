-- ===== src/Tests/Client.antt =====
-- The theorems on the client command at small inputs.
use mutil_modbus.Prelude.{
  ℕ, ◌+◌, ◌≡◌, ◌==◌, refl, inr, if◌then◌else◌, true, false, [], ◌∷◌, none, leb, arith,
}
use mutil_modbus.Prelude.Text.{text, to_lower, lower_code}
use mutil_modbus.Go.{Go, NoError, Bytes, ok, fail, panic, be16, index}
use mutil_modbus.Tcp.Pdu.{handle_pdu}
use mutil_modbus.Collector.Point
use mutil_modbus.Tcp.Server.{Server}
use mutil_modbus.Collector.Point.{Client, read_failed}
use mutil_modbus.Simulator.Load.{RegisterConfig}
use mutil_modbus.Simulator.Replay.{RegisterValue, write_numeric_register}
use mutil_modbus.Simulator.Replay.Laws.{server_writer}
use mutil_modbus.Client.{Connection, not_read, read_numeric_register, decode_numeric, turn}
use mutil_modbus.Client.EndToEnd.{write_numeric_register-read}
use mutil_modbus.Client.Reads.{IsConnected, request, reads_as}
use mutil_modbus.Client.Laws.{turn-lost}
use mutil_modbus.Tests.Sim.{whole}

-- What the client makes of an answer: the content behind the byte count, or an error.
abbrev taken : Go NoError (Server × Bytes) → Server → Go Point.Error Bytes × Server
taken (ok (t, f ∷ count ∷ content)) s = (if f == 3 then ok content else fail read_failed, t)
taken other s = (fail read_failed, s)

-- A client of the server that reads holding registers only.
abbrev server_client : Client Server
server_client = record {
  read_coils = λ a n s. (ok [], s);
  read_discrete_inputs = λ a n s. (ok [], s);
  read_holding_registers = λ a n s. taken (handle_pdu s (request a n)) s;
  read_input_registers = λ a n s. (fail read_failed, s);
}

server_client-IsConnected : IsConnected server_client
server_client-IsConnected = record { holding = λ s t a n content b lo hi e. rw e refl }

abbrev three : Server
three = record {
  holding_registers = 1 ∷ 2 ∷ 3 ∷ [];
  input_registers = [];
  coils = [];
  discrete_inputs = [];
}

abbrev flow : RegisterValue ℕ
flow = record {
  reg_type = text "holding";
  address = 1;
  column = text "flow";
  scale = 1;
  offset = 0;
  data_type = text "float32";
}

abbrev flow_register : RegisterConfig ℕ
flow_register = record {
  type = text "Holding";
  address = 1;
  csv_column = text "flow";
  scale = 1;
  offset = 0;
  data_type = text "Float32";
}

write_numeric_register-read_example :
    (t : Server) × (write_numeric_register whole server_writer three flow 0x40490FDB ≡ ok t)
    × (read_numeric_register whole server_client flow_register true t
        ≡ (ok (reads_as whole (text "float32") 0x40490FDB), t))
unfolding to_lower lower_code
write_numeric_register-read_example =
    write_numeric_register-read whole server_client server_client-IsConnected three flow
      flow_register 0x40490FDB refl refl refl (refl, inr (inr (refl, refl, omega arith)))
      (omega arith) (omega arith)

-- A client that fails until the third state.
abbrev flaky : Client ℕ
flaky = record {
  read_coils = λ a n w. (ok [], w);
  read_discrete_inputs = λ a n w. (ok [], w);
  read_holding_registers =
      λ a n w. (if leb 2 w then ok (0 ∷ 9 ∷ 0 ∷ 0 ∷ []) else fail read_failed, w + 1);
  read_input_registers = λ a n w. (fail read_failed, w);
}

abbrev opening : Connection ℕ
opening = record { reopen = λ w. (true, w + 1); is_lost = λ e. true }

turn-lost_example :
    (turn whole flaky opening flow_register true 0 ≡ ok (none, true, 3))
    × (turn whole flaky opening flow_register false 3 ≡ panic)
unfolding to_lower lower_code read_numeric_register decode_numeric be16 index
turn-lost_example =
    turn-lost whole flaky opening flow_register flow_register 0 1 2 3 (not_read read_failed) true
      (ok 0x90000) refl refl refl refl refl (refl, tt)
