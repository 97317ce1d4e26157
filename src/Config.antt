-- ===== src/Config.antt =====
-- The reader of the simulator's settings (Load and its helpers in internal/config/config.go), from
-- the lines that bufio.Scanner gives. Texts are of one-byte characters. Go's parser of floats and its
-- number 1 are a parameter.
pub mod Parse
pub mod Print
use mutil_modbus.Prelude.{
  ℕ, zero, suc, Bool, true, false, ◌∷◌, [], List, Option, none, some, ◌==◌, ◌^◌, ◌+◌,
}
use mutil_modbus.Prelude.{if◌then◌else◌}
use mutil_modbus.Prelude.Text.{
  Text, text, same, is_empty, to_lower, to_upper, trim_space, begins, ends, trim_codes,
}
use mutil_modbus.Prelude.Float.{ℤ, pos, negsuc}
use mutil_modbus.Go.{Go, ok, fail, panic, ◌>>=◌}
use mutil_modbus.Collector.Devices.{parse_uint}
use mutil_modbus.Simulator.Load.{RegisterConfig}

pub record ServerSettings : Type 0 where
  pub listen_address : Text
  pub mode : Text
  pub serial_port : Text
  pub baud_rate : ℤ
  pub data_bits : ℤ
  pub stop_bits : ℤ
  pub parity : Text
  pub slave_id : ℤ
  pub update_interval : Text

pub record Config (F : Type 0) : Type 0 where
  pub server : ServerSettings
  pub client : ServerSettings
  pub registers : List (RegisterConfig F)
  pub csv_file : Text
  pub update_interval : Text

pub data KeyError : Type 0 where
  unknown_key unknown_server_key unknown_register_key : Text → KeyError
  invalid_baud_rate invalid_data_bits invalid_stop_bits invalid_slave_id : KeyError
  invalid_address invalid_scale invalid_offset : KeyError

-- `strconv.ParseFloat`, and the constants 0 and 1.
pub record Floats (F : Type 0) : Type 0 where
  pub parse_float : Text → Option F
  pub zero : F
  pub one : F

-- The zero values.
abbrev pub no_settings : ServerSettings
no_settings = record {
  listen_address = [];
  mode = [];
  serial_port = [];
  baud_rate = pos 0;
  data_bits = pos 0;
  stop_bits = pos 0;
  parity = [];
  slave_id = pos 0;
  update_interval = [];
}

abbrev pub no_config : {F : Type 0} → Config F
no_config = record {
  server = no_settings;
  client = no_settings;
  registers = [];
  csv_file = [];
  update_interval = [];
}

abbrev pub new_register : {F : Type 0} → Floats F → RegisterConfig F
new_register floats = record {
  type = [];
  address = 0;
  csv_column = [];
  scale = floats.one;
  offset = floats.zero;
  data_type = [];
}

abbrev pub is_quote : ℕ → Bool
is_quote c = c == 34

unfoldable pub unquote : Text → Text
unquote s = if begins 34 s then (if ends 34 s then trim_codes is_quote s else s) else s

unfoldable pub parse_string : Text → Text
parse_string value = unquote (trim_space value)

abbrev pub negated : ℕ → ℤ
negated zero = pos 0
negated (suc n) = negsuc n

-- `strconv.ParseInt(s, 10, 32)`: a sign is allowed, and the least number is one further from 0 than
-- the greatest.
unfoldable pub parse_int32 : Text → Option ℤ
parse_int32 [] = none
parse_int32 (c ∷ s) =
    if c == 45
    then elim (parse_uint (2 ^ 31 + 1) s) [ none ↦ none | some n ↦ some (negated n) ]
    else elim (parse_uint (2 ^ 31) (if c == 43 then s else c ∷ s)) [
      | none ↦ none
      | some n ↦ some (pos n)
    ]

-- `v, err := parse(...); if err != nil { return ... }`, with what is done with the value.
abbrev pub or_invalid : {A B : Type 0} → Option A → KeyError → (A → B) → Go KeyError B
or_invalid none e f = fail e
or_invalid (some a) e f = ok (f a)

unfoldable pub assign_root : {F : Type 0} → Config F → Text → Text → Go KeyError (Config F)
assign_root cfg key value =
    if same key (text "csv_file")
    then ok (record cfg { csv_file = parse_string value })
    else if same key (text "update_interval")
    then ok (record cfg { update_interval = parse_string value })
    else fail (unknown_key key)

unfoldable pub assign_server : ServerSettings → Text → Text → Go KeyError ServerSettings
assign_server server key value =
    if same key (text "listen_address")
    then ok (record server { listen_address = parse_string value })
    else if same key (text "mode")
    then ok (record server { mode = to_lower (parse_string value) })
    else if same key (text "serial_port")
    then ok (record server { serial_port = parse_string value })
    else if same key (text "path")
    then ok (record server { serial_port = parse_string value })
    else if same key (text "baud_rate")
    then or_invalid (parse_int32 (parse_string value)) invalid_baud_rate
        (λ v. record server { baud_rate = v })
    else if same key (text "data_bits")
    then or_invalid (parse_int32 (parse_string value)) invalid_data_bits
        (λ v. record server { data_bits = v })
    else if same key (text "stop_bits")
    then or_invalid (parse_int32 (parse_string value)) invalid_stop_bits
        (λ v. record server { stop_bits = v })
    else if same key (text "parity")
    then ok (record server { parity = to_upper (parse_string value) })
    else if same key (text "slave_id")
    then or_invalid (parse_int32 (parse_string value)) invalid_slave_id
        (λ v. record server { slave_id = v })
    else if same key (text "update_interval")
    then ok (record server { update_interval = parse_string value })
    else fail (unknown_server_key key)

unfoldable pub assign_register :
    {F : Type 0} → Floats F → RegisterConfig F → Text → Text → Go KeyError (RegisterConfig F)
assign_register floats reg key value =
    if same key (text "type")
    then ok (record reg { type = to_lower (parse_string value) })
    else if same key (text "address")
    then or_invalid (parse_uint 65536 (parse_string value)) invalid_address
        (λ v. record reg { address = v })
    else if same key (text "csv_column")
    then ok (record reg { csv_column = parse_string value })
    else if same key (text "scale")
    then or_invalid (floats.parse_float (parse_string value)) invalid_scale
        (λ v. record reg { scale = v })
    else if same key (text "offset")
    then or_invalid (floats.parse_float (parse_string value)) invalid_offset
        (λ v. record reg { offset = v })
    else if same key (text "data_type")
    then ok (record reg { data_type = to_lower (parse_string value) })
    else fail (unknown_register_key key)
