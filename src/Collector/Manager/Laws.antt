-- ===== src/Collector/Manager/Laws.antt =====
-- Each collector that is started has its server and its device in the data base
-- (internal/collector/manager.go).
use mutil_modbus.Prelude.{◌≡◌, ◌⊎◌, List, [], ◌∷◌, ◌++◌, map}
use mutil_modbus.Prelude.Text.{Text}
use mutil_modbus.Prelude.Float.{ℤ}
use mutil_modbus.Collector.Devices.{Device}
use mutil_modbus.Manager.Run.{ServerConfig}
use mutil_modbus.Collector.Manager.{DeviceRow, server_row, device_row}
use mutil_modbus.Collector.Manager.KeyedTables.{Rows}

abbrev pub Has : {A : Type 0} → A → List A → Type 0
Has a [] = ⊥
Has a (x ∷ xs) = (x ≡ a) ⊎ Has a xs

module _ {F : Type 0} (duration : ℤ → Text) (frequency : List (Text × ℤ)) where
  abbrev pub device_rows : List (ServerConfig F) → List DeviceRow
  device_rows [] = []
  device_rows (srv ∷ srvs) = map (device_row duration srv) srv.devices ++ device_rows srvs

  -- The rows that a collector belongs to: its server's row, and a row of the device of its id under
  -- this server.
  abbrev pub IsListed : Rows → ServerConfig F × Device F → Type 0
  IsListed rows (srv, dev) =
      Has (server_row duration frequency srv) rows.servers
      × ((row : DeviceRow) × Has row rows.devices
          × (row.server_id ≡ srv.server_id)
          × (row.device_id ≡ dev.device_id)
          × (row.vendor ≡ dev.vendor)
          × (row.slave_id ≡ dev.slave_id))
