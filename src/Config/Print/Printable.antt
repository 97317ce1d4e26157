-- ===== src/Config/Print/Printable.antt =====
-- Which configurations a file can hold (internal/config/config.go).
use mutil_modbus.Prelude.{◌≡◌, ◌≤◌, ◌<◌, false, All, length}
use mutil_modbus.Prelude.Text.{is_empty, to_lower, to_upper}
use mutil_modbus.Simulator.Load.{RegisterConfig}
use mutil_modbus.Config.{Config, ServerSettings}
use mutil_modbus.Config.Print.Numbers.{IsInt32}
use mutil_modbus.Config.Print.Values.{IsClean}

-- Settings that a file can hold: texts that can stand in quotes, the two that are folded to one case
-- in that case, and numbers of 32 bits.
pub record IsPrintable (s : ServerSettings) : Type 0 where
  pub listen_address : IsClean s.listen_address
  pub mode : IsClean s.mode
  pub mode_lower : to_lower s.mode ≡ s.mode
  pub serial_port : IsClean s.serial_port
  pub baud_rate : IsInt32 s.baud_rate
  pub data_bits : IsInt32 s.data_bits
  pub stop_bits : IsInt32 s.stop_bits
  pub parity : IsClean s.parity
  pub parity_upper : to_upper s.parity ≡ s.parity
  pub slave_id : IsInt32 s.slave_id
  pub update_interval : IsClean s.update_interval

pub record IsPrintableRegister {F : Type 0} (r : RegisterConfig F) : Type 0 where
  pub type : IsClean r.type
  pub type_lower : to_lower r.type ≡ r.type
  pub address : r.address < 65536
  pub csv_column : IsClean r.csv_column
  pub data_type : IsClean r.data_type
  pub data_type_lower : to_lower r.data_type ≡ r.data_type

pub record IsPrintableConfig {F : Type 0} (cfg : Config F) : Type 0 where
  pub server : IsPrintable cfg.server
  pub client : IsPrintable cfg.client
  pub registers : All (λ r. IsPrintableRegister r) cfg.registers
  pub csv_file : IsClean cfg.csv_file
  pub update_interval : IsClean cfg.update_interval
  pub csv_file_set : is_empty cfg.csv_file ≡ false
  pub listen_address_set : is_empty cfg.server.listen_address ≡ false
  pub update_interval_set : is_empty cfg.update_interval ≡ false
  pub registers_set : 1 ≤ length cfg.registers
