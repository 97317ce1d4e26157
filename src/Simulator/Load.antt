-- ===== src/Simulator/Load.antt =====
-- What the simulator checks when it starts (newSimulator and loadCSV of cmd/server/main.go): the
-- configured registers, and the recorded rows from the records that the CSV reader gives. Go's
-- parser of floats is a parameter.
pub mod Laws
pub mod Rows
use mutil_modbus.Prelude.{
  ℕ, Bool, true, false, ◌||◌, ◌&&◌, not, List, [], ◌∷◌, Option, none, some, length, ltb, ◌==◌,
  if◌then◌else◌,
}
use mutil_modbus.Prelude.Text.{Text, text, same, is_empty, to_lower, trim_space}
use mutil_modbus.Prelude.Float.{FloatOps, pos}
use mutil_modbus.Go.{Go, ok, fail, panic, ◌>>=◌, ◌>>◌, fail_if}
use mutil_modbus.Collector.Dedup.{delete}
use mutil_modbus.Simulator.Replay.{RegisterValue, Row}

pub data Error : Type 0 where
  unsupported_register_type : Text → Error
  unsupported_data_type : Text → Text → Error
  data_type_not_supported : Text → Error
  too_few_records record_length_mismatch : Error
  empty_value invalid_value : Text → Error

-- One register of the configuration.
pub record RegisterConfig (F : Type 0) : Type 0 where
  pub type : Text
  pub address : ℕ
  pub csv_column : Text
  pub scale : F
  pub offset : F
  pub data_type : Text

abbrev pub is_numeric : Text → Bool
is_numeric t = same t (text "holding") || same t (text "input")

abbrev pub is_bit : Text → Bool
is_bit t = same t (text "coil") || same t (text "discrete")

abbrev pub is_word_type : Text → Bool
is_word_type t = same t (text "uint16") || same t (text "int16") || same t (text "float32")

-- The data type of a register: that of the configuration in lower case, uint16 for an empty one of
-- a numeric register, and none for a bit.
unfoldable pub data_type_of : Text → Text → Go Error Text
data_type_of type data_type =
    if is_numeric type
    then (let dt = if is_empty data_type then text "uint16" else data_type in
        if is_word_type dt then ok dt else fail (unsupported_data_type dt type))
    else if is_empty data_type
    then ok []
    else fail (data_type_not_supported type)

unfoldable pub load_register :
    {F : Type 0} → FloatOps F → RegisterConfig F → Go Error (RegisterValue F)
load_register ops reg = do
  fail_if (not (is_numeric reg.type || is_bit reg.type)) (unsupported_register_type reg.type)
  data_type ← data_type_of reg.type (to_lower reg.data_type)
  ok record {
    reg_type = reg.type;
    address = reg.address;
    column = reg.csv_column;
    scale = if ops.is_zero reg.scale then ops.of_int (pos 1) else reg.scale;
    offset = reg.offset;
    data_type = data_type;
  }

unfoldable pub load_registers :
    {F : Type 0} → FloatOps F → List (RegisterConfig F) → Go Error (List (RegisterValue F))
load_registers ops [] = ok []
load_registers ops (reg ∷ regs) = do
  value ← load_register ops reg
  values ← load_registers ops regs
  ok (value ∷ values)

-- One record's row: `row[key] = val` replaces what an earlier column of the same name has put there.
unfoldable pub load_fields :
    {F : Type 0} → (Text → Option F) → List Text → List Text → Row F → Go Error (Row F)
load_fields parse_float [] fields row = ok row
load_fields parse_float (key ∷ keys) [] row = panic
load_fields parse_float (key ∷ keys) (field ∷ fields) row = do
  fail_if (is_empty (trim_space field)) (empty_value key)
  value ← elim (parse_float (trim_space field)) [ none ↦ fail (invalid_value key) | some v ↦ ok v ]
  load_fields parse_float keys fields ((key, value) ∷ delete row key)

unfoldable pub load_rows :
    {F : Type 0} → (Text → Option F) → List Text → List (List Text) → Go Error (List (Row F))
load_rows parse_float header [] = ok []
load_rows parse_float header (rec ∷ recs) = do
  fail_if (not (length rec == length header)) record_length_mismatch
  row ← load_fields parse_float header rec []
  rows ← load_rows parse_float header recs
  ok (row ∷ rows)

unfoldable pub load_csv :
    {F : Type 0} → (Text → Option F) → List (List Text) → Go Error (List (Row F))
load_csv parse_float [] = fail too_few_records
load_csv parse_float (header ∷ []) = fail too_few_records
load_csv parse_float (header ∷ rec ∷ recs) = load_rows parse_float header (rec ∷ recs)
