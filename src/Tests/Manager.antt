-- ===== src/Tests/Manager.antt =====
-- The theorems on the manager of servers and on the storage at small inputs.
use mutil_modbus.Prelude.{
  ℕ, suc, ◌+◌, ◌≡◌, ◌≤◌, ◌⊎◌, refl, Bool, true, false, List, [], ◌∷◌, map, leb, arith,
}
use mutil_modbus.Prelude.Text.{Text, text, to_lower, trim_space, trim_right, trim_left, lower_code}
use mutil_modbus.Prelude.Float.{ℤ, pos, negsuc}
use mutil_modbus.Go.{ok, ◌>>=◌}
use mutil_modbus.Tcp.Server.{Server, new_server}
use mutil_modbus.Collector.Point.{Point, PointValue, raw_uint16}
use mutil_modbus.Collector.Devices.{Device}
use mutil_modbus.Simulator.Replay.{Row, apply_row}
use mutil_modbus.Simulator.Replay.Laws.{server_writer}
use mutil_modbus.Manager.Apply.{apply_row_to_server}
use mutil_modbus.Manager.Apply.Laws.{all_values, apply_row_to_server-simulator}
use mutil_modbus.Manager.Run.{ServerConfig, Running, start, tick}
use mutil_modbus.Manager.Run.Laws.{start_ok, tick_ok}
use mutil_modbus.Manager.Run.Attempts.{Attempted, listen_loop-Attempted}
use mutil_modbus.Export.{Words, headers, write_csv}
use mutil_modbus.Export.Laws.{taking, all_records, HasColumns, write_csv-snapshot}
use mutil_modbus.Manager.Snapshot.{ServerSnapshot}
use mutil_modbus.Prelude.{All, length}
use mutil_modbus.Manager.Snapshot.{snapshot}
use mutil_modbus.Manager.Snapshot.Laws.{described_server, active, snapshot-described}
use mutil_modbus.Collector.Storage.{
  Formats, Files, Storage, new_storage, Run, accept, write, close, next, accepted, flush, Step,
  outputs, Opening, select_outputs, open_outputs, path_or_default,
}
use mutil_modbus.Collector.Storage
use mutil_modbus.Collector.Opening
use mutil_modbus.Prelude.{◌++◌}
use mutil_modbus.Collector.Storage.Laws.{Keeps, write_all, new_storage-Keeps}
use mutil_modbus.Collector.Storage.Drain.{steps, run-drains}
use mutil_modbus.Tests.Sim.{whole}
use mutil_modbus.Tests.Collect.{source}

abbrev small_server : Server
small_server = record {
  holding_registers = 1 ∷ 2 ∷ 3 ∷ [];
  input_registers = [];
  coils = false ∷ [];
  discrete_inputs = [];
}

abbrev level : Point ℕ
level = record {
  address = 1;
  name = text " level ";
  data_type = [];
  byte_order = [];
  register_type = text "Holding";
  scale = 0;
  offset = 1;
  unit = [];
}

abbrev devices : List (Device ℕ)
devices =
    record {
      device_id = text "d";
      vendor = [];
      slave_id = 1;
      poll_interval = 5;
      points = level ∷ [];
    }
    ∷ []

abbrev rows : List (Row ℕ)
rows = ((text "level", 7) ∷ []) ∷ ((text "level", 9) ∷ []) ∷ []

apply_row_to_server-simulator_example :
    (apply_row_to_server whole small_server devices rows 1 >>= λ t.
    ok (record { rw = t; values = all_values whole devices; data_rows = rows; row_index = 0 }))
    ≡ apply_row whole server_writer
        (record {
          rw = small_server;
          values = all_values whole devices;
          data_rows = rows;
          row_index = 0;
        })
        1
apply_row_to_server-simulator_example =
    apply_row_to_server-simulator whole small_server devices rows 1 0

-- A port that is free from the third attempt on.
abbrev late : ℕ → Bool × ℕ
late n = (leb 2 n, suc n)

listen_loop-Attempted_example : Attempted late 5 0
listen_loop-Attempted_example = listen_loop-Attempted late 5 0

started : (r : Running) × (start whole devices rows new_server ≡ ok r)
started = start_ok whole devices rows (omega arith)

next_row : (r : Running) × (tick whole devices rows started.0 ≡ ok r)
next_row = tick_ok whole devices rows started.0 (omega arith) started.1

abbrev configured : List (ServerConfig ℕ)
configured =
    record {
      server_id = text "s";
      server_name = text "S";
      protocol = text "tcp";
      host = text "localhost";
      port = pos 502;
      timeout = pos 3;
      retry_count = pos 1;
      enabled = true;
      csv_file = [];
      devices = devices;
    }
    ∷ []

snapshot-described_example :
    snapshot ((text "s", small_server) ∷ []) 77 configured
    ≡ ok (map (described_server 77) (active ((text "s", small_server) ∷ []) configured))
snapshot-described_example = snapshot-described ((text "s", small_server) ∷ []) 77 configured

abbrev words : Words
words = record { address = λ a. a.0; decimal = λ n. n ∷ []; time = λ t. t ∷ [] }

write_csv-snapshot_example :
    (snaps : List ServerSnapshot) × (snapshot ((text "s", small_server) ∷ []) 77 configured
      ≡ ok snaps)
    × (write_csv words taking snaps [] ≡ ok (headers ∷ all_records words snaps))
    × All HasColumns (all_records words snaps)
    × (length (all_records words snaps) ≡ 1)
write_csv-snapshot_example = write_csv-snapshot words ((text "s", small_server) ∷ []) 77 configured

abbrev pub reading : ℕ → PointValue ℕ
reading n = record {
  source = source;
  point_name = text "p";
  address = 3;
  register = text "holding";
  data_type = text "uint16";
  byte_order = [];
  unit = [];
  raw = raw_uint16 n;
  value = n;
  scale = 1;
  offset = 0;
  timestamp = n;
}

abbrev pub formats : Formats ℕ
formats = record { time = λ t. t ∷ []; decimal = λ n. n ∷ []; float = λ x. x ∷ [] }

-- Files that count the lines.
abbrev counted : Files ℕ ℕ
counted = record {
  write_jsonl = λ v w. w + 1;
  write_csv = λ r w. w + 10;
  write_db = λ r w. w + 100;
  flush_json = λ w. w + 1000;
  flush_csv = λ w. w;
}

abbrev fresh : Storage ℕ ℕ
fresh = record {
  enabled = outputs true true false;
  capacity = 2;
  queue = [];
  queue_closed = false;
  closed = false;
  files = 10;
}

-- The operating system lets all happen; the header of the CSV file is one line.
abbrev opening : Opening ℕ
opening = record {
  base = λ p. p;
  dir = λ p. text ".";
  join = λ a b. a ++ b;
  mkdir_all = λ p w. (true, w);
  open_file = λ p w. (true, w);
  close_file = λ p w. w;
  seek_end = λ p w. w;
  write_header = λ h w. (true, w + 10);
  flush_header = λ w. (true, w);
  open_db = λ p w. (true, w);
}

new_storage-fresh : new_storage opening [] (text "both") (pos 2) 0 ≡ ok fresh
unfolding new_storage open_outputs Opening.out_dir Opening.open_json_file Opening.open_csv_file
    Opening.open_data_base Opening.write_new_header Opening.db_file Storage.select_outputs
    Storage.switch_file_type Storage.max_queue_if_positive to_lower trim_space trim_right trim_left
    lower_code
new_storage-fresh = refl

abbrev one_waits : Storage ℕ ℕ
one_waits = record fresh { queue = reading 4 ∷ [] }

one_accepted : Run formats counted fresh one_waits
unfolding Storage.try_send
one_accepted =
    next fresh fresh one_waits (Storage.start fresh) (accept fresh one_waits (reading 4) refl)

new_storage-Keeps_example :
    (select_outputs (text "both") ≡ ok fresh.enabled)
    × (open_outputs opening fresh.enabled (path_or_default []) 0 ≡ ok 10)
    × (1 ≤ fresh.capacity)
    × Keeps formats counted fresh.enabled fresh.capacity 10 one_waits
        (accepted formats counted fresh one_waits one_accepted)
new_storage-Keeps_example =
    new_storage-Keeps formats counted opening [] (text "both") (pos 2) 0 fresh one_waits
      one_accepted new_storage-fresh

abbrev closing : Storage ℕ ℕ
closing = record one_waits { queue_closed = true }

abbrev emptied : Storage ℕ ℕ
emptied = record closing { queue = []; files = 21 }

one_written : Run formats counted closing emptied
unfolding Storage.write_value
one_written =
    next closing closing emptied (Storage.start closing) (write closing (reading 4) [] refl refl)

run-drains_example :
    (steps formats counted closing emptied one_written ≤ 2)
    × (((steps formats counted closing emptied one_written ≤ 1)
          × ((u : Storage ℕ ℕ) × Step formats counted emptied u))
        ⊎ ((steps formats counted closing emptied one_written ≡ 2)
            × (emptied.closed ≡ true)
            × (emptied.files
                ≡ flush formats counted closing.enabled
                    (write_all formats counted closing.enabled closing.queue closing.files))))
run-drains_example = run-drains formats counted closing emptied one_written refl refl

abbrev seconds : ℤ → Text
seconds z = elim z [ pos n ↦ n ∷ text "s" | negsuc n ↦ [] ]
