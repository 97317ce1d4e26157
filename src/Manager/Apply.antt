-- ===== src/Manager/Apply.antt =====
-- How the manager writes one recorded row into a server's registers (applyRowToServer and the
-- functions that it calls, in internal/servermgr/manager.go). float64 and its
-- conversions are a parameter, as in the replay of cmd/server.
pub mod Alike
pub mod Laws
use mutil_modbus.Prelude.{
  ℕ, ◌+◌, ◌/◌, ◌%◌, Bool, true, false, ◌||◌, List, [], ◌∷◌, Option, none, some, length, ◌==◌,
  if◌then◌else◌,
}
use mutil_modbus.Prelude.Text.{Text, text, same, is_empty, to_lower, trim_space}
use mutil_modbus.Prelude.Float.{pos, unsigned, FloatOps}
use mutil_modbus.Go.{Go, NoError, ok, fail, panic, ◌>>=◌, ◌>>◌, fail_if, index}
use mutil_modbus.Tcp.Server.{Server}
use mutil_modbus.Tcp.Registers.{
  AddressError, set_holding_register, set_input_register, set_coil, set_discrete_input,
}
use mutil_modbus.Collector.Dedup.{lookup}
use mutil_modbus.Collector.Point.{Point}
use mutil_modbus.Collector.Devices.{Device}
use mutil_modbus.Simulator.Replay.{Row, in_range}
use mutil_modbus.Simulator.Load

pub data Error : Type 0 where
  unsupported_data_type unsupported_register_type : Text → Error
  invalid_float32 invalid_uint16 invalid_int16 : Error
  uint16_out_of_range int16_out_of_range overflows_float32 : Error
  address_out_of_range : ℕ → Error
  refused : AddressError → Error

-- What a write leaves: the server, with the error if there is one.
abbrev pub Written : Type 0
Written = Go (Error × Server) Server

abbrev pub set_or_refused : Server → Go AddressError Server → Written
set_or_refused s (ok t) = ok t
set_or_refused s (fail e) = fail (refused e, s)
set_or_refused s panic = panic

unfoldable pub float_to_uint16 : {F : Type 0} → FloatOps F → F → Go Error ℕ
float_to_uint16 ops value = do
  fail_if (if ops.is_finite value then false else true) invalid_uint16
  let rounded = ops.round_to_int value
  fail_if (if in_range rounded 0 65535 then false else true) uint16_out_of_range
  ok (unsigned 32768 rounded)

unfoldable pub float_to_int16 : {F : Type 0} → FloatOps F → F → Go Error ℕ
float_to_int16 ops value = do
  fail_if (if ops.is_finite value then false else true) invalid_int16
  let rounded = ops.round_to_int value
  fail_if (if in_range rounded 32768 32767 then false else true) int16_out_of_range
  ok (unsigned 32768 rounded)

unfoldable pub set_register_word : Server → Text → ℕ → ℕ → Written
set_register_word s reg_type address word =
    if same reg_type (text "holding")
    then set_or_refused s (set_holding_register s address word)
    else if same reg_type (text "input")
    then set_or_refused s (set_input_register s address word)
    else fail (unsupported_register_type reg_type, s)

-- A conversion's word, with the server for its error.
abbrev pub word_of : Server → Go Error ℕ → Go (Error × Server) ℕ
word_of s (ok w) = ok w
word_of s (fail e) = fail (e, s)
word_of s panic = panic

-- An error is logged or dropped, and the server is the one that it left.
abbrev pub logged : Written → Go NoError Server
logged (ok s) = ok s
logged (fail e) = ok e.1
logged panic = panic

module _ {F : Type 0} (ops : FloatOps F) where
  unfoldable pub set_register_float32 : Server → Text → ℕ → F → Written
  set_register_float32 s reg_type address scaled = do
    fail_if (if ops.is_finite scaled then false else true) (invalid_float32, s)
    fail_if (address == 65535) (address_out_of_range address, s)
    fail_if (ops.overflows scaled) (overflows_float32, s)
    let bits = ops.to_bits scaled
    t ← set_register_word s reg_type address (bits / 65536 % 65536)
    set_register_word t reg_type ((address + 1) % 65536) (bits % 65536)

  unfoldable pub write_numeric_register : Server → Text → ℕ → Text → F → Written
  write_numeric_register s reg_type address data_type scaled =
      if same data_type (text "uint16")
      then (do
        word ← word_of s (float_to_uint16 ops scaled)
        set_register_word s reg_type address word)
      else if same data_type (text "int16")
      then (do
        word ← word_of s (float_to_int16 ops scaled)
        set_register_word s reg_type address word)
      else if same data_type (text "float32")
      then set_register_float32 s reg_type address scaled
      else fail (unsupported_data_type data_type, s)

  abbrev pub scale_of : F → F
  scale_of scale = if ops.is_zero scale then ops.of_int (pos 1) else scale

  abbrev pub data_type_or_default : Text → Text
  data_type_or_default t = if is_empty t then text "uint16" else t

  -- One point's turn in the loops.
  unfoldable pub apply_point : Row F → Server → Point F → Go NoError Server
  apply_point row s p = elim (lookup row (trim_space p.name)) [
    | none ↦ ok s
    | some raw ↦
        let scaled = ops.add (ops.mul raw (scale_of p.scale)) p.offset in
        let data_type = to_lower p.data_type in
        let reg_type = to_lower p.register_type in
        if same reg_type (text "holding") || same reg_type (text "input")
        then logged
            (write_numeric_register s reg_type p.address (data_type_or_default data_type) scaled)
        else if same reg_type (text "coil")
        then logged (set_or_refused s (set_coil s p.address (ops.is_positive scaled)))
        else if same reg_type (text "discrete")
        then logged (set_or_refused s (set_discrete_input s p.address (ops.is_positive scaled)))
        else ok s
  ]

  unfoldable pub apply_points : Row F → Server → List (Point F) → Go NoError Server
  apply_points row s [] = ok s
  apply_points row s (p ∷ ps) = do t ← apply_point row s p; apply_points row t ps

  unfoldable pub apply_devices : Row F → Server → List (Device F) → Go NoError Server
  apply_devices row s [] = ok s
  apply_devices row s (d ∷ ds) = do t ← apply_points row s d.points; apply_devices row t ds

  unfoldable pub apply_row_to_server :
      Server → List (Device F) → List (Row F) → ℕ → Go NoError Server
  apply_row_to_server s devices rows i =
      if length rows == 0 then ok s else (do row ← index rows i; apply_devices row s devices)
