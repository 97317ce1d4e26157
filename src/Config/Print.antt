-- ===== src/Config/Print.antt =====
-- The configuration file that a configuration stands for, as the reader of internal/config/config.go
-- takes it: the keys of the file, then the sections of the server, the client and each register.
pub mod Numbers
pub mod Lines
pub mod Values
pub mod Entries
pub mod Sections
pub mod Printable
pub mod Assigned
pub mod RoundTrip
use mutil_modbus.Prelude.{
  ℕ, zero, suc, ◌+◌, ◌/◌, ◌%◌, Bool, true, false, not, ◌&&◌, List, [], ◌∷◌, ◌++◌, ltb, ◌==◌,
  if◌then◌else◌, leb,
}
use mutil_modbus.Prelude.Text.{Text, text, is_space}
use mutil_modbus.Prelude.Float.{ℤ, pos, negsuc}
use mutil_modbus.Simulator.Load.{RegisterConfig}
use mutil_modbus.Config.{Config, ServerSettings}

-- The decimal digits of a number in front of a text, with fuel for the digits.
unfoldable pub decimal : ℕ → ℕ → Text → Text
decimal zero n s = (48 + n % 10) ∷ s
decimal (suc fuel) n s =
    let rest = decimal fuel (n / 10) ((48 + n % 10) ∷ s) in if ltb n 10 then (48 + n) ∷ s else rest

unfoldable pub print_nat : ℕ → Text
print_nat n = decimal n n []

unfoldable pub print_int : ℤ → Text
print_int (pos n) = print_nat n
print_int (negsuc n) = 45 ∷ print_nat (n + 1)

abbrev pub quoted : Text → Text
quoted s = 34 ∷ s ++ (34 ∷ [])

-- `key = value`
unfoldable pub entry : Text × Text → Text
entry (key, value) = key ++ (32 ∷ 61 ∷ 32 ∷ value)

abbrev pub entries : List (Text × Text) → List Text
entries [] = []
entries (e ∷ es) = entry e ∷ entries es

abbrev pub settings_entries : ServerSettings → List (Text × Text)
settings_entries s =
    (text "listen_address", quoted s.listen_address)
    ∷ (text "mode", quoted s.mode)
    ∷ (text "serial_port", quoted s.serial_port)
    ∷ (text "baud_rate", print_int s.baud_rate)
    ∷ (text "data_bits", print_int s.data_bits)
    ∷ (text "stop_bits", print_int s.stop_bits)
    ∷ (text "parity", quoted s.parity)
    ∷ (text "slave_id", print_int s.slave_id)
    ∷ (text "update_interval", quoted s.update_interval)
    ∷ []

module _ {F : Type 0} where
  abbrev pub root_entries : Config F → List (Text × Text)
  root_entries cfg =
      (text "csv_file", quoted cfg.csv_file)
      ∷ (text "update_interval", quoted cfg.update_interval)
      ∷ []

  module _ (print_float : F → Text) where
    abbrev pub register_entries : RegisterConfig F → List (Text × Text)
    register_entries reg =
        (text "type", quoted reg.type)
        ∷ (text "address", print_nat reg.address)
        ∷ (text "csv_column", quoted reg.csv_column)
        ∷ (text "scale", print_float reg.scale)
        ∷ (text "offset", print_float reg.offset)
        ∷ (text "data_type", quoted reg.data_type)
        ∷ []

    abbrev pub print_registers : List (RegisterConfig F) → List Text
    print_registers [] = []
    print_registers (reg ∷ regs) =
        text "[[registers]]" ∷ (entries (register_entries reg) ++ print_registers regs)

    unfoldable pub print : Config F → List Text
    print cfg =
        entries (root_entries cfg)
        ++ (text "[server]"
            ∷ (entries (settings_entries cfg.server)
                ++ (text "[client]"
                    ∷ (entries (settings_entries cfg.client) ++ print_registers cfg.registers))))
