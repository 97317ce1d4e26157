-- ===== src/Tcp/Server.antt =====
-- The server's state and its errors (internal/modbus/server.go). The listener, the wait group and
-- the quit channel are the runtime's; the mutex makes each operation on the tables one step.
use mutil_modbus.Prelude.{ℕ, ◌≡◌, Bool, List, length, replicate, All, false}
use mutil_modbus.Go.{IsWord}

pub data Error : Type 0 where
  out_of_range invalid_qty invalid_pdu_len invalid_value invalid_byte_count : Error

pub record Server : Type 0 where
  pub holding_registers : List ℕ
  pub input_registers : List ℕ
  pub coils : List Bool
  pub discrete_inputs : List Bool

unfoldable pub new_server : Server
new_server = record {
  holding_registers = replicate 65536 0;
  input_registers = replicate 65536 0;
  coils = replicate 65536 false;
  discrete_inputs = replicate 65536 false;
}

-- A register holds a uint16.
pub record IsValid (s : Server) : Type 0 where
  pub holding_words : All IsWord s.holding_registers
  pub input_words : All IsWord s.input_registers

-- The four tables keep their sizes.
pub record SameSizes (s t : Server) : Type 0 where
  pub holding_size : length t.holding_registers ≡ length s.holding_registers
  pub input_size : length t.input_registers ≡ length s.input_registers
  pub coils_size : length t.coils ≡ length s.coils
  pub discrete_size : length t.discrete_inputs ≡ length s.discrete_inputs
