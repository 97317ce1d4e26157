-- ===== src/Collector/Settings.antt =====
-- The settings after the file is parsed (LoadYAML of internal/collector/config.go): the defaults and
-- the devices of each server. A duration is a number of nanoseconds. The place of a path beside the
-- configuration and the records of a CSV file are parameters.
pub mod Laws
use mutil_modbus.Prelude.{
  ℕ, Bool, true, false, ◌||◌, List, [], ◌∷◌, Option, none, some, length, ◌==◌, if◌then◌else◌,
}
use mutil_modbus.Prelude.Text.{Text, text, same, is_empty, to_lower, trim_space}
use mutil_modbus.Prelude.Float.{ℤ, pos, negsuc}
use mutil_modbus.Go.{Go, ok, fail, panic, ◌>>=◌, ◌>>◌, fail_if}
use mutil_modbus.Collector.Devices.{Device, Parsers, load_devices}

-- The fields of SystemConfig that the defaults change.
pub record SystemConfig : Type 0 where
  pub max_workers : ℤ
  pub max_queue_size : ℤ
  pub storage_workers : ℤ
  pub storage_queue_size : ℤ
  pub cache_ttl : ℤ
  pub result_analysis_count : ℤ
  pub file_type : Text
  pub snapshot_interval : ℤ

abbrev pub is_positive : ℤ → Bool
is_positive (pos n) = if n == 0 then false else true
is_positive (negsuc n) = false

abbrev pub is_negative : ℤ → Bool
is_negative (pos n) = false
is_negative (negsuc n) = true

-- `if x <= 0 { x = default }`
abbrev pub positive_or : ℤ → ℤ → ℤ
positive_or default x = if is_positive x then x else default

unfoldable pub with_defaults : SystemConfig → SystemConfig
with_defaults c =
    let file_type = to_lower (trim_space c.file_type) in
    record {
      max_workers = positive_or (pos 10) c.max_workers;
      max_queue_size = positive_or (pos 1000) c.max_queue_size;
      storage_workers = if is_negative c.storage_workers then pos 0 else c.storage_workers;
      storage_queue_size = if is_negative c.storage_queue_size then pos 0 else c.storage_queue_size;
      cache_ttl = positive_or (pos 3600000000000) c.cache_ttl;
      result_analysis_count = positive_or (pos 10) c.result_analysis_count;
      file_type = if is_empty file_type then text "csv" else file_type;
      snapshot_interval = positive_or (pos 30000000000) c.snapshot_interval;
    }

pub data Error : Type 0 where
  empty_devices devices_file_required : Text → Error
  unreadable_devices : Text → Error
  unsupported_devices_type : Text → Text → Error

-- The fields of ServerConfig that the loop over the servers uses.
pub record ServerConfig (F : Type 0) : Type 0 where
  pub server_id : Text
  pub devices_type : Text
  pub devices_file : Text
  pub devices : List (Device F)

abbrev pub is_listed : Text → Bool
is_listed t =
    is_empty t || same t (text "device") || same t (text "devices") || same t (text "points")

abbrev pub is_csv : Text → Bool
is_csv t = same t (text "csvfile") || same t (text "csv")

-- An error of the file is wrapped with the server's id.
abbrev pub wrapped : {A E : Type 0} → Text → Go E A → Go Error A
wrapped id (ok a) = ok a
wrapped id (fail e) = fail (unreadable_devices id)
wrapped id panic = panic

unfoldable pub resolve_server :
    {F : Type 0}
    → Parsers F
    → (Text → Text)
    → (Text → List (List Text))
    → ServerConfig F
    → Go Error (ServerConfig F)
resolve_server parsers locate records srv =
    let source = to_lower (trim_space srv.devices_type) in
    if is_listed source
    then (do
      fail_if (length srv.devices == 0) (empty_devices srv.server_id)
      ok (record srv { devices_type = text "device" }))
    else if is_csv source
    then (do
      fail_if (is_empty (trim_space srv.devices_file)) (devices_file_required srv.server_id)
      let path = locate srv.devices_file
      devices ← wrapped srv.server_id (load_devices parsers (records path))
      ok (record srv { devices = devices; devices_file = path; devices_type = text "csvfile" }))
    else fail (unsupported_devices_type srv.server_id srv.devices_type)

unfoldable pub resolve_servers :
    {F : Type 0}
    → Parsers F
    → (Text → Text)
    → (Text → List (List Text))
    → List (ServerConfig F)
    → Go Error (List (ServerConfig F))
resolve_servers parsers locate records [] = ok []
resolve_servers parsers locate records (srv ∷ srvs) = do
  first ← resolve_server parsers locate records srv
  others ← resolve_servers parsers locate records srvs
  ok (first ∷ others)
