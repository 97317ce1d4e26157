-- ===== src/Tests/Collect.antt =====
-- The theorems on polling, the loading of files and the settings at small inputs.
use mutil_modbus.Prelude.{ℕ, ◌+◌, ◌≡◌, true, [], ◌∷◌, leb, none}
use mutil_modbus.Prelude.Text.{text}
use mutil_modbus.Prelude.Float.{pos, negsuc}
use mutil_modbus.Go.{ok}
use mutil_modbus.Prelude.{leb, All, ◌≤◌, List, length}
use mutil_modbus.Prelude.Text.{Text}
use mutil_modbus.Go.{ok, fail, Ensures}
use mutil_modbus.Collector.Point.{Client, Source, Point, read_failed}
use mutil_modbus.Collector.Poll.{Runtime, poll_once}
use mutil_modbus.Collector.Poll.Complete.{HandsOver, poll_once-HandsOver}
use mutil_modbus.Collector.Devices.{Parsers, parse_uint, load_devices}
use mutil_modbus.Collector.Devices.Laws.{Filled}
use mutil_modbus.Collector.Devices.Rows.{Holds, load_devices-Read}
use mutil_modbus.Simulator.Load.{RegisterConfig, load_registers, load_csv}
use mutil_modbus.Simulator.Load.Laws.{Supported, load_registers-Supported}
use mutil_modbus.Simulator.Load.Rows.{are_records, AreRows, load_csv-rows}
use mutil_modbus.Prelude.{◌⊎◌, ◌≡◌, true, false}
use mutil_modbus.Go.{Outcome}
use mutil_modbus.Prelude.Float.{negsuc}
use mutil_modbus.Collector.Settings.{SystemConfig, with_defaults, ServerConfig, resolve_servers}
use mutil_modbus.Collector.Settings.Laws.{
  IsUsable, with_defaults-IsUsable, Resolved, resolve_servers-Resolved,
}
use mutil_modbus.Tests.Sim.{whole}

abbrev parsers : Parsers ℕ
parsers = record {
  parse_duration = λ s. none;
  parse_float = λ s. parse_uint 1000 s;
  one = 1;
  zero = 0;
}

abbrev device_header : List Text
device_header = text "device_id" ∷ text "Address" ∷ text "register_type" ∷ text "name" ∷ []

abbrev device_rows : List (List Text)
device_rows =
    (text "d1" ∷ text "10" ∷ text "holding" ∷ text "p" ∷ [])
    ∷ (text "d1" ∷ text "11" ∷ text "coil" ∷ text "q" ∷ [])
    ∷ []

load_devices-Read_example :
    Ensures
      (λ ds. Filled 2 ds × Holds parsers device_header device_rows ds)
      (load_devices parsers (device_header ∷ device_rows))
load_devices-Read_example = load_devices-Read parsers device_header device_rows

abbrev client : Client ℕ
client = record {
  read_coils = λ a n w. (ok (1 ∷ []), w + 1);
  read_discrete_inputs = λ a n w. (ok (0 ∷ []), w + 1);
  read_holding_registers = λ a n w. (ok (0 ∷ a ∷ []), w + 1);
  read_input_registers = λ a n w. (fail read_failed, w + 1);
}

abbrev runtime : Runtime ℕ
runtime = record { cancelled = λ w. (leb 5 w, w); now = λ w. w; reconnect = λ w. (true, w + 1) }

abbrev pub source : Source
source = record {
  server_id = text "s";
  device_id = text "d";
  connection = text "host:502";
  slave_id = 1;
}

abbrev point : Text → Text → Point ℕ
point name register_type = record {
  address = 7;
  name = name;
  data_type = text "uint16";
  byte_order = [];
  register_type = register_type;
  scale = 1;
  offset = 0;
  unit = [];
}

poll_once-HandsOver_example :
    HandsOver (point (text "p") (text "holding") ∷ point (text "q") (text "input") ∷ []) [] (
      poll_once whole client runtime source
        (point (text "p") (text "holding") ∷ point (text "q") (text "input") ∷ [])
        0
        [])
poll_once-HandsOver_example =
    poll_once-HandsOver whole client runtime source
      (point (text "p") (text "holding") ∷ point (text "q") (text "input") ∷ []) 0 []

abbrev registers : List (RegisterConfig ℕ)
registers =
    record {
      type = text "holding";
      address = 1;
      csv_column = text "a";
      scale = 0;
      offset = 0;
      data_type = text "Float32";
    }
    ∷ record {
      type = text "coil";
      address = 2;
      csv_column = text "b";
      scale = 1;
      offset = 0;
      data_type = [];
    }
    ∷ []

load_registers-Supported_example :
    Ensures (λ vs. (length vs ≡ 2) × All Supported vs) (load_registers whole registers)
load_registers-Supported_example = load_registers-Supported whole registers

-- A header with a name twice, and one record.
abbrev recorded_header : List Text
recorded_header = text "a" ∷ text "b" ∷ text "a" ∷ []

abbrev recorded : List (List Text)
recorded = (text "12" ∷ text " 1" ∷ text "7" ∷ []) ∷ []

load_csv-rows_example :
    Outcome
      (λ rows.
        (1 ≤ 1)
        × (are_records (λ s. parse_uint 1000 s) 3 recorded ≡ true)
        × AreRows (λ s. parse_uint 1000 s) recorded_header rows recorded)
      (λ e. (recorded ≡ []) ⊎ (are_records (λ s. parse_uint 1000 s) 3 recorded ≡ false))
      (load_csv (λ s. parse_uint 1000 s) (recorded_header ∷ recorded))
load_csv-rows_example = load_csv-rows (λ s. parse_uint 1000 s) recorded_header recorded

abbrev settings : SystemConfig
settings = record {
  max_workers = negsuc 0;
  max_queue_size = pos 5;
  storage_workers = negsuc 3;
  storage_queue_size = pos 0;
  cache_ttl = pos 0;
  result_analysis_count = pos 1;
  file_type = text "  ";
  snapshot_interval = pos 7;
}

with_defaults-IsUsable_example : IsUsable (with_defaults settings)
with_defaults-IsUsable_example = with_defaults-IsUsable settings

abbrev servers : List (ServerConfig ℕ)
servers =
    record {
      server_id = text "s";
      devices_type = text " CSV ";
      devices_file = text "d.csv";
      devices = [];
    }
    ∷ []

resolve_servers-Resolved_example :
    Ensures
      (λ vs. (length vs ≡ 1) × All Resolved vs)
      (resolve_servers parsers (λ path. path) (λ path. device_header ∷ device_rows) servers)
resolve_servers-Resolved_example =
    resolve_servers-Resolved parsers (λ path. path) (λ path. device_header ∷ device_rows) servers
