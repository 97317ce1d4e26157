-- ===== src/Manager/Snapshot.antt =====
-- The current values of the running servers (Snapshot, modbusGetU16 and modbusGetBool of
-- internal/servermgr/manager.go, and internal/model/snapshot.go). The running servers are a list of
-- ids and servers; the time of the snapshot is an argument.
pub mod Laws
use mutil_modbus.Prelude.{ℕ, Bool, List, [], ◌∷◌, Option, none, some, if◌then◌else◌}
use mutil_modbus.Prelude.Text.{Text, text, same, to_lower}
use mutil_modbus.Prelude.Float.{ℤ}
use mutil_modbus.Go.{Go, NoError, ok, fail, panic, ◌>>=◌}
use mutil_modbus.Tcp.Server.{Server}
use mutil_modbus.Tcp.Registers.{
  AddressError, get_holding_register, get_input_register, get_coil, get_discrete_input,
}
use mutil_modbus.Collector.Dedup.{lookup}
use mutil_modbus.Collector.Point.{Point}
use mutil_modbus.Collector.Devices.{Device}
use mutil_modbus.Manager.Run.{ServerConfig}

pub record PointSnapshot : Type 0 where
  pub name : Text
  pub register_type : Text
  pub address : ℕ
  pub unit : Text
  pub value_uint16 : Option ℕ
  pub value_bool : Option Bool
  pub timestamp : ℕ

pub record DeviceSnapshot : Type 0 where
  pub device_id : Text
  pub vendor : Text
  pub slave_id : ℕ
  pub points : List PointSnapshot

-- The address is the host and the port, which `fmt.Sprintf` joins.
pub record ServerSnapshot : Type 0 where
  pub server_id : Text
  pub server_name : Text
  pub address : Text × ℤ
  pub devices : List DeviceSnapshot
  pub timestamp : ℕ

pub data GetError : Type 0 where
  unsupported_kind : Text → GetError
  not_read : AddressError → GetError

abbrev pub as_get : {A : Type 0} → Go AddressError A → Go GetError A
as_get (ok a) = ok a
as_get (fail e) = fail (not_read e)
as_get panic = panic

unfoldable pub modbus_get_u16 : Server → Text → ℕ → Go GetError ℕ
modbus_get_u16 s kind addr =
    if same (to_lower kind) (text "holding")
    then as_get (get_holding_register s addr)
    else if same (to_lower kind) (text "input")
    then as_get (get_input_register s addr)
    else fail (unsupported_kind kind)

unfoldable pub modbus_get_bool : Server → Text → ℕ → Go GetError Bool
modbus_get_bool s kind addr =
    if same (to_lower kind) (text "coil")
    then as_get (get_coil s addr)
    else if same (to_lower kind) (text "discrete")
    then as_get (get_discrete_input s addr)
    else fail (unsupported_kind kind)

-- `if v, err := ...; err == nil { ... = &v }`
abbrev pub if_read : {A : Type 0} → Go GetError A → Go NoError (Option A)
if_read (ok a) = ok (some a)
if_read (fail e) = ok none
if_read panic = panic

unfoldable pub values_of_point : Server → Text → ℕ → Go NoError (Option ℕ × Option Bool)
values_of_point s register_type address =
    if same register_type (text "holding")
    then (do v ← if_read (modbus_get_u16 s (text "holding") address); ok (v, none))
    else if same register_type (text "input")
    then (do v ← if_read (modbus_get_u16 s (text "input") address); ok (v, none))
    else if same register_type (text "coil")
    then (do b ← if_read (modbus_get_bool s (text "coil") address); ok (none, b))
    else if same register_type (text "discrete")
    then (do b ← if_read (modbus_get_bool s (text "discrete") address); ok (none, b))
    else ok (none, none)

module _ {F : Type 0} where
  unfoldable pub snapshot_point : Server → ℕ → Point F → Go NoError PointSnapshot
  snapshot_point s now p = do
    let register_type = to_lower p.register_type
    values ← values_of_point s register_type p.address
    ok record {
      name = p.name;
      register_type = register_type;
      address = p.address;
      unit = p.unit;
      value_uint16 = values.0;
      value_bool = values.1;
      timestamp = now;
    }

  unfoldable pub snapshot_points : Server → ℕ → List (Point F) → Go NoError (List PointSnapshot)
  snapshot_points s now [] = ok []
  snapshot_points s now (p ∷ ps) = do
    first ← snapshot_point s now p
    others ← snapshot_points s now ps
    ok (first ∷ others)

  unfoldable pub snapshot_devices : Server → ℕ → List (Device F) → Go NoError (List DeviceSnapshot)
  snapshot_devices s now [] = ok []
  snapshot_devices s now (d ∷ ds) = do
    points ← snapshot_points s now d.points
    others ← snapshot_devices s now ds
    ok (
        record {
          device_id = d.device_id;
          vendor = d.vendor;
          slave_id = d.slave_id;
          points = points;
        }
        ∷ others)

  unfoldable pub snapshot_server : Server → ℕ → ServerConfig F → Go NoError ServerSnapshot
  snapshot_server s now sc = do
    devices ← snapshot_devices s now sc.devices
    ok record {
      server_id = sc.server_id;
      server_name = sc.server_name;
      address = (sc.host, sc.port);
      devices = devices;
      timestamp = now;
    }

  -- The configured servers in their order; one that does not run or is not enabled is passed over.
  unfoldable pub snapshot :
      List (Text × Server) → ℕ → List (ServerConfig F) → Go NoError (List ServerSnapshot)
  snapshot servers now [] = ok []
  snapshot servers now (sc ∷ scs) =
      let rest = snapshot servers now scs in
      elim (lookup servers sc.server_id) [
        | none ↦ rest
        | some s ↦
            if sc.enabled
            then (do first ← snapshot_server s now sc; others ← rest; ok (first ∷ others))
            else rest
      ]
