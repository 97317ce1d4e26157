-- ===== src/Export.antt =====
-- The CSV export of snapshots (WriteCSV of internal/output/exporter.go). The CSV writer is a
-- parameter on a state `W`, each record being taken or refused; numbers, times and the address of a
-- server are put into words by parameters.
pub mod Laws
use mutil_modbus.Prelude.{ℕ, Bool, true, false, List, [], ◌∷◌, Option, none, some, if◌then◌else◌}
use mutil_modbus.Prelude.Text.{Text, text}
use mutil_modbus.Prelude.Float.{ℤ}
use mutil_modbus.Go.{Go, ok, fail, panic, ◌>>=◌, ◌>>◌}
use mutil_modbus.Manager.Snapshot.{PointSnapshot, DeviceSnapshot, ServerSnapshot}

pub data Error : Type 0 where
  header_not_written record_not_written not_flushed : Error

-- `fmt.Sprintf`, and `Format(time.RFC3339Nano)`.
pub record Words : Type 0 where
  pub address : Text × ℤ → Text
  pub decimal : ℕ → Text
  pub time : ℕ → Text

-- `csv.Writer`: whether a record is taken, and the state after it; `flush` is Flush and Error.
pub record Writer (W : Type 0) : Type 0 where
  pub write : List Text → W → Bool × W
  pub flush : W → Bool × W

abbrev pub taken : {W : Type 0} → Error → Bool × W → Go Error W
taken e (true, w) = ok w
taken e (false, w) = fail e

abbrev pub headers : List Text
headers =
    text "server_id"
    ∷ text "server_name"
    ∷ text "address"
    ∷ text "device_id"
    ∷ text "point_name"
    ∷ text "register_type"
    ∷ text "address_idx"
    ∷ text "unit"
    ∷ text "value_uint16"
    ∷ text "value_bool"
    ∷ text "timestamp"
    ∷ []

abbrev pub bit_text : Bool → Text
bit_text true = text "1"
bit_text false = text "0"

unfoldable pub record_of : Words → ServerSnapshot → DeviceSnapshot → PointSnapshot → List Text
record_of words s d p =
    let value_uint16 : Text = elim p.value_uint16 [ none ↦ [] | some v ↦ words.decimal v ] in
    let value_bool : Text = elim p.value_bool [ none ↦ [] | some b ↦ bit_text b ] in
    s.server_id
    ∷ s.server_name
    ∷ words.address s.address
    ∷ d.device_id
    ∷ p.name
    ∷ p.register_type
    ∷ words.decimal p.address
    ∷ p.unit
    ∷ value_uint16
    ∷ value_bool
    ∷ words.time p.timestamp
    ∷ []

module _ {W : Type 0} (words : Words) (writer : Writer W) where
  unfoldable pub write_points :
      ServerSnapshot → DeviceSnapshot → List PointSnapshot → W → Go Error W
  write_points s d [] w = ok w
  write_points s d (p ∷ ps) w = do
    w' ← taken record_not_written (writer.write (record_of words s d p) w)
    write_points s d ps w'

  unfoldable pub write_devices : ServerSnapshot → List DeviceSnapshot → W → Go Error W
  write_devices s [] w = ok w
  write_devices s (d ∷ ds) w = do w' ← write_points s d d.points w; write_devices s ds w'

  unfoldable pub write_servers : List ServerSnapshot → W → Go Error W
  write_servers [] w = ok w
  write_servers (s ∷ ss) w = do w' ← write_devices s s.devices w; write_servers ss w'

  -- Behind the creation of the file.
  unfoldable pub write_csv : List ServerSnapshot → W → Go Error W
  write_csv snaps w = do
    w' ← taken header_not_written (writer.write headers w)
    w'' ← write_servers snaps w'
    taken not_flushed (writer.flush w'')
