-- ===== src/Collector/Devices.antt =====
-- The devices of a CSV file (loadDevicesFromCSV of internal/collector/config.go), from the records
-- that the CSV reader gives. The parsers of durations and of floats are a parameter. The map of the
-- devices and the order of their ids are one list, in that order.
pub mod Laws
pub mod Fields
pub mod Points
pub mod Rows
use mutil_modbus.Prelude.{
  ℕ, ◌+◌, ◌-◌, ◌*◌, Bool, true, false, ◌&&◌, List, [], ◌∷◌, ◌++◌, Option, none, some, get_elem?,
  length, ltb, leb, ◌==◌, if◌then◌else◌,
}
use mutil_modbus.Prelude.Text.{Text, text, same, is_empty, to_lower, trim_space}
use mutil_modbus.Go.{Go, ok, fail, panic, ◌>>=◌, ◌>>◌, fail_if}
use mutil_modbus.Collector.Point.{Point}

pub data Error : Type 0 where
  empty_file empty_header : Error
  missing_column : Text → Error
  no_device_id : Error
  invalid_slave_id invalid_poll_interval : Text → Error
  no_point_name : Text → Error
  invalid_address missing_register_type invalid_scale invalid_offset : Text → Text → Error
  no_points : Text → Error

pub record Device (F : Type 0) : Type 0 where
  pub device_id : Text
  pub vendor : Text
  pub slave_id : ℕ
  pub poll_interval : ℕ
  pub points : List (Point F)

-- `time.ParseDuration`, in nanoseconds and with 0 for a negative one, and `strconv.ParseFloat`.
pub record Parsers (F : Type 0) : Type 0 where
  pub parse_duration : Text → Option ℕ
  pub parse_float : Text → Option F
  pub one : F
  pub zero : F

-- `strconv.ParseUint(s, 10, bits)`, with `limit` the power of two of the bits.
unfoldable pub digits : ℕ → ℕ → Text → Option ℕ
digits limit n [] = some n
digits limit n (c ∷ s) =
    let rest = digits limit (n * 10 + (c - 48)) s in
    if leb 48 c && leb c 57 then (if ltb (n * 10 + (c - 48)) limit then rest else none) else none

unfoldable pub parse_uint : ℕ → Text → Option ℕ
parse_uint limit s = if is_empty s then none else digits limit 0 s

-- The last column of a name; names are trimmed and in lower case.
unfoldable pub column_of : List Text → ℕ → Text → Option ℕ
column_of [] i key = none
column_of (col ∷ cols) i key = elim (column_of cols (i + 1) key) [
  | none ↦ if same (to_lower (trim_space col)) key then some i else none
  | some j ↦ some j
]

-- The closure `trim`.
unfoldable pub trim : List Text → List Text → Text → Text
trim header rec key = elim (column_of header 0 key) [
  | none ↦ []
  | some i ↦ elim (get_elem? rec i) [ none ↦ [] | some field ↦ trim_space field ]
]

abbrev pub or_fail : {A : Type 0} → Option A → Error → Go Error A
or_fail none e = fail e
or_fail (some a) e = ok a

module _ {F : Type 0} (parsers : Parsers F) where
  unfoldable pub new_device : (Text → Text) → Text → Go Error (Device F)
  new_device field device_id = do
    slave ←
        if is_empty (field (text "slave_id"))
        then ok 0
        else or_fail (parse_uint 256 (field (text "slave_id"))) (invalid_slave_id device_id)
    poll ←
        if is_empty (field (text "poll_interval"))
        then ok 0
        else or_fail (parsers.parse_duration (field (text "poll_interval")))
            (invalid_poll_interval device_id)
    ok record {
      device_id = device_id;
      vendor = field (text "vendor");
      slave_id = slave;
      poll_interval = if poll == 0 then 5000000000 else poll;
      points = [];
    }

  unfoldable pub number_or : F → Text → Error → Go Error F
  number_or default s e = if is_empty s then ok default else or_fail (parsers.parse_float s) e

  unfoldable pub new_point : (Text → Text) → Text → Go Error (Point F)
  new_point field device_id = do
    let name =
        if is_empty (field (text "point_name"))
        then field (text "name")
        else field (text "point_name")
    fail_if (is_empty name) (no_point_name device_id)
    address ← or_fail (parse_uint 65536 (field (text "address"))) (invalid_address device_id name)
    fail_if (is_empty (field (text "register_type"))) (missing_register_type device_id name)
    scale ← number_or parsers.one (field (text "scale")) (invalid_scale device_id name)
    offset ← number_or parsers.zero (field (text "offset")) (invalid_offset device_id name)
    ok record {
      address = address;
      name = name;
      data_type = field (text "data_type");
      byte_order = field (text "byte_order");
      register_type = field (text "register_type");
      scale = scale;
      offset = offset;
      unit = field (text "unit");
    }

abbrev pub is_known : {F : Type 0} → List (Device F) → Text → Bool
is_known [] id = false
is_known (d ∷ ds) id = let rest = is_known ds id in if same d.device_id id then true else rest

-- `dev.Points = append(dev.Points, point)` at the device of that id.
unfoldable pub append_point : {F : Type 0} → List (Device F) → Text → Point F → List (Device F)
append_point [] id point = []
append_point (d ∷ ds) id point =
    let rest = append_point ds id point in
    if same d.device_id id then record d { points = d.points ++ (point ∷ []) } ∷ ds else d ∷ rest

module _ {F : Type 0} (parsers : Parsers F) where
  -- The device of a row's id: among those known, or made and put behind them.
  unfoldable pub with_device : List (Device F) → (Text → Text) → Text → Go Error (List (Device F))
  with_device devices field id =
      if is_known devices id
      then ok devices
      else (do device ← new_device parsers field id; ok (devices ++ (device ∷ [])))

  unfoldable pub add_row : List (Device F) → (Text → Text) → Go Error (List (Device F))
  add_row devices field = do
    let id = field (text "device_id")
    fail_if (is_empty id) no_device_id
    known ← with_device devices field id
    point ← new_point parsers field id
    ok (append_point known id point)

  unfoldable pub add_rows :
      List Text → List (Device F) → List (List Text) → Go Error (List (Device F))
  add_rows header devices [] = ok devices
  add_rows header devices (rec ∷ recs) = do
    more ← add_row devices (trim header rec)
    add_rows header more recs

unfoldable pub check_points : {F : Type 0} → List (Device F) → Go Error (List (Device F))
check_points [] = ok []
check_points (d ∷ ds) = do
  fail_if (length d.points == 0) (no_points d.device_id)
  rest ← check_points ds
  ok (d ∷ rest)

unfoldable pub require : List Text → List Text → Go Error (Unit {0})
require header [] = ok tt
require header (key ∷ keys) = elim (column_of header 0 key) [
  | none ↦ fail (missing_column key)
  | some i ↦ require header keys
]

unfoldable pub load_devices :
    {F : Type 0} → Parsers F → List (List Text) → Go Error (List (Device F))
load_devices parsers [] = fail empty_file
load_devices parsers (header ∷ recs) = do
  fail_if (length header == 0) empty_header
  require header (text "device_id" ∷ text "address" ∷ text "register_type" ∷ [])
  devices ← add_rows parsers header [] recs
  check_points devices
