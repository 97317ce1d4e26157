-- ===== src/Collector/Records.antt =====
-- The records of a value in the three outputs of the storage (writeJSONL, writeCSV and writeDB of
-- internal/collector/storage.go).
use mutil_modbus.Prelude.{ℕ, List, [], ◌∷◌}
use mutil_modbus.Prelude.Text.{Text, text}
use mutil_modbus.Collector.Point.{PointValue, Raw}

abbrev pub csv_header : List Text
csv_header =
    text "timestamp"
    ∷ text "server_id"
    ∷ text "device_id"
    ∷ text "connection"
    ∷ text "slave_id"
    ∷ text "point_name"
    ∷ text "address"
    ∷ text "register"
    ∷ text "unit"
    ∷ text "value"
    ∷ []

-- `Format(time.RFC3339Nano)`, and `fmt.Sprintf` with `%d` and `%g`.
pub record Formats (F : Type 0) : Type 0 where
  pub time : ℕ → Text
  pub decimal : ℕ → Text
  pub float : F → Text

unfoldable pub csv_record : {F : Type 0} → Formats F → PointValue F → List Text
csv_record formats v =
    formats.time v.timestamp
    ∷ v.source.server_id
    ∷ v.source.device_id
    ∷ v.source.connection
    ∷ formats.decimal v.source.slave_id
    ∷ v.point_name
    ∷ formats.decimal v.address
    ∷ v.register
    ∷ v.data_type
    ∷ v.byte_order
    ∷ v.unit
    ∷ formats.float v.value
    ∷ []

-- A value of the object that `json.Marshal` writes.
pub data Json (F : Type 0) : Type 0 where
  json_text : Text → Json F
  json_number : ℕ → Json F
  json_float : F → Json F
  json_raw : Raw → Json F

unfoldable pub json_object : {F : Type 0} → Formats F → PointValue F → List (Text × Json F)
json_object formats v =
    (text "timestamp", json_text (formats.time v.timestamp))
    ∷ (text "server_id", json_text v.source.server_id)
    ∷ (text "device_id", json_text v.source.device_id)
    ∷ (text "connection", json_text v.source.connection)
    ∷ (text "slave_id", json_number v.source.slave_id)
    ∷ (text "point_name", json_text v.point_name)
    ∷ (text "address", json_number v.address)
    ∷ (text "register", json_text v.register)
    ∷ (text "data_type", json_text v.data_type)
    ∷ (text "byte_order", json_text v.byte_order)
    ∷ (text "unit", json_text v.unit)
    ∷ (text "raw", json_raw v.raw)
    ∷ (text "scale", json_float v.scale)
    ∷ (text "offset", json_float v.offset)
    ∷ (text "value", json_float v.value)
    ∷ []

-- The model.PointValue that is handed to SavePointValue; what gorm makes of it, a column's default for
-- a zero included, is the library's.
pub record StoredPoint (F : Type 0) : Type 0 where
  pub server_id : Text
  pub device_id : Text
  pub name : Text
  pub address : ℕ
  pub register_type : Text
  pub data_type : Text
  pub byte_order : Text
  pub scale : F
  pub offset : F
  pub unit : Text
  pub value : F
  pub timestamp : ℕ

unfoldable pub db_row : {F : Type 0} → PointValue F → StoredPoint F
db_row v = record {
  server_id = v.source.server_id;
  device_id = v.source.device_id;
  name = v.point_name;
  address = v.address;
  register_type = v.register;
  data_type = v.data_type;
  byte_order = v.byte_order;
  scale = v.scale;
  offset = v.offset;
  unit = v.unit;
  value = v.value;
  timestamp = v.timestamp;
}
