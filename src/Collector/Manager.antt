-- ===== src/Collector/Manager.antt =====
-- What the manager of the collectors starts, and the rows that it saves in an empty data base (Run
-- and initDatabaseFromConfig of internal/collector/manager.go). The data base is a parameter on a
-- state `W`, and so are the words of a duration; a transaction that fails leaves the state.
pub mod KeyedTables
pub mod Laws
use mutil_modbus.Prelude.{
  ℕ, zero, suc, Bool, true, false, List, [], ◌∷◌, ◌++◌, Option, none, some, if◌then◌else◌,
}
use mutil_modbus.Prelude.Text.{Text, text, to_lower, trim_space}
use mutil_modbus.Prelude.Float.{ℤ, pos, negsuc}
use mutil_modbus.Go.{Go, ok, fail, panic, ◌>>=◌, ◌>>◌}
use mutil_modbus.Collector.Dedup.{lookup}
use mutil_modbus.Collector.Devices.{Device}
use mutil_modbus.Manager.Run.{ServerConfig}

pub data Error : Type 0 where
  not_counted not_saved : Error

-- The rows of model.Server and model.Device.
pub record ServerRow : Type 0 where
  pub server_id : Text
  pub server_name : Text
  pub protocol : Text
  pub host : Text
  pub port : ℤ
  pub timeout : Text
  pub retry_count : ℤ
  pub enabled : Bool
  pub poll_interval : Text

pub record DeviceRow : Type 0 where
  pub device_id : Text
  pub server_id : Text
  pub vendor : Text
  pub slave_id : ℕ
  pub poll_interval : Text

-- The count of the servers, and `tx.Save`.
pub record Tables (W : Type 0) : Type 0 where
  pub count_servers : W → Go Error ℕ
  pub save_server : ServerRow → W → Go Error W
  pub save_device : DeviceRow → W → Go Error W

-- `if d, ok := Frequency[id]; ok && d > 0`
unfoldable pub override : List (Text × ℤ) → Text → Option ℕ
override frequency id = elim (lookup frequency id) [
  | none ↦ none
  | some d ↦ elim d [ pos n ↦ elim n [ zero ↦ none | suc m ↦ some (suc m) ] | negsuc n ↦ none ]
]

module _ {F : Type 0} where
  -- The collectors of one server's devices.
  unfoldable pub collectors_of :
      List (Text × ℤ) → ServerConfig F → List (Device F) → List (ServerConfig F × Device F)
  collectors_of frequency srv [] = []
  collectors_of frequency srv (dev ∷ devs) =
      let rest = collectors_of frequency srv devs in
      elim (override frequency srv.server_id) [
        | none ↦ (srv, dev) ∷ rest
        | some d ↦ (srv, record dev { poll_interval = d }) ∷ rest
      ]

  unfoldable pub collectors :
      List (Text × ℤ) → List (ServerConfig F) → List (ServerConfig F × Device F)
  collectors frequency [] = []
  collectors frequency (srv ∷ srvs) =
      let rest = collectors frequency srvs in
      if srv.enabled then collectors_of frequency srv srv.devices ++ rest else rest

  module _ (duration : ℤ → Text) where
    unfoldable pub server_row : List (Text × ℤ) → ServerConfig F → ServerRow
    server_row frequency srv = record {
      server_id = srv.server_id;
      server_name = srv.server_name;
      protocol = to_lower (trim_space srv.protocol);
      host = srv.host;
      port = srv.port;
      timeout = duration srv.timeout;
      retry_count = srv.retry_count;
      enabled = srv.enabled;
      poll_interval = elim (override frequency srv.server_id) [
        | none ↦ []
        | some d ↦ duration (pos d)
      ];
    }

    unfoldable pub device_row : ServerConfig F → Device F → DeviceRow
    device_row srv dev = record {
      device_id = dev.device_id;
      server_id = srv.server_id;
      vendor = dev.vendor;
      slave_id = dev.slave_id;
      poll_interval = duration (pos dev.poll_interval);
    }

    module _ {W : Type 0} (tables : Tables W) where
      unfoldable pub save_devices : ServerConfig F → List (Device F) → W → Go Error W
      save_devices srv [] w = ok w
      save_devices srv (dev ∷ devs) w = do
        w' ← tables.save_device (device_row srv dev) w
        save_devices srv devs w'

      unfoldable pub save_servers : List (Text × ℤ) → List (ServerConfig F) → W → Go Error W
      save_servers frequency [] w = ok w
      save_servers frequency (srv ∷ srvs) w = do
        w' ← tables.save_server (server_row frequency srv) w
        w'' ← save_devices srv srv.devices w'
        save_servers frequency srvs w''

      unfoldable pub init_database : List (Text × ℤ) → List (ServerConfig F) → W → Go Error W
      init_database frequency srvs w = do
        count ← tables.count_servers w
        elim count [ zero ↦ save_servers frequency srvs w | suc n ↦ ok w ]
