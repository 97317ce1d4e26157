-- ===== src/Export/Laws.antt =====
-- The records of an export (internal/output/exporter.go), also of a snapshot of the manager
-- (internal/servermgr/manager.go).
use mutil_modbus.Prelude.{
  All-append, append-nil, append_assoc, ℕ, ◌+◌, ◌≡◌, refl, ap, ◌∙◌, sym, true, List, [], ◌∷◌, ◌++◌,
  map, All, length, length-append, arith,
}
use mutil_modbus.Prelude.Text.{Text}
use mutil_modbus.Go.{ok}
use mutil_modbus.Tcp.Server.{Server}
use mutil_modbus.Manager.Run.{ServerConfig}
use mutil_modbus.Manager.Snapshot.{PointSnapshot, DeviceSnapshot, ServerSnapshot, snapshot}
use mutil_modbus.Manager.Snapshot.Laws.{described_server, active, snapshot-described}
use mutil_modbus.Export.{
  Words, Writer, headers, record_of, write_points, write_devices, write_servers, write_csv,
}

-- A writer that takes every record, as the list of the records.
abbrev pub taking : Writer (List (List Text))
taking = record { write = λ rec w. (true, w ++ (rec ∷ [])); flush = λ w. (true, w) }

-- A record for each point of each device of each server, in their order.
abbrev pub device_records : Words → ServerSnapshot → List DeviceSnapshot → List (List Text)
device_records words s [] = []
device_records words s (d ∷ ds) = map (record_of words s d) d.points ++ device_records words s ds

abbrev pub all_records : Words → List ServerSnapshot → List (List Text)
all_records words [] = []
all_records words (s ∷ ss) = device_records words s s.devices ++ all_records words ss

abbrev pub point_count : List DeviceSnapshot → ℕ
point_count [] = 0
point_count (d ∷ ds) = length d.points + point_count ds

abbrev pub all_points : List ServerSnapshot → ℕ
all_points [] = 0
all_points (s ∷ ss) = point_count s.devices + all_points ss

write_points_lem :
    (words : Words) (s : ServerSnapshot) (d : DeviceSnapshot) (ps : List PointSnapshot)
    (w : List (List Text))
    → write_points words taking s d ps w ≡ ok (w ++ map (record_of words s d) ps)
unfolding write_points
write_points_lem words s d [] w = ap ok (sym (append-nil w))
write_points_lem words s d (p ∷ ps) w =
    write_points_lem words s d ps (w ++ (record_of words s d p ∷ []))
    ∙ ap ok (append_assoc w (record_of words s d p ∷ []) (map (record_of words s d) ps))

write_devices_lem :
    (words : Words) (s : ServerSnapshot) (ds : List DeviceSnapshot) (w : List (List Text))
    → write_devices words taking s ds w ≡ ok (w ++ device_records words s ds)
unfolding write_devices
write_devices_lem words s [] w = ap ok (sym (append-nil w))
write_devices_lem words s (d ∷ ds) w = rw (write_points_lem words s d d.points w) (
    write_devices_lem words s ds (w ++ map (record_of words s d) d.points)
    ∙ ap ok (append_assoc w (map (record_of words s d) d.points) (device_records words s ds)))

write_servers_lem :
    (words : Words) (ss : List ServerSnapshot) (w : List (List Text))
    → write_servers words taking ss w ≡ ok (w ++ all_records words ss)
unfolding write_servers
write_servers_lem words [] w = ap ok (sym (append-nil w))
write_servers_lem words (s ∷ ss) w = rw (write_devices_lem words s s.devices w) (
    write_servers_lem words ss (w ++ device_records words s s.devices)
    ∙ ap ok (append_assoc w (device_records words s s.devices) (all_records words ss)))

abbrev pub HasColumns : List Text → Type 0
HasColumns rec = length rec ≡ length headers

point_records_lem :
    (words : Words) (s : ServerSnapshot) (d : DeviceSnapshot) (ps : List PointSnapshot)
    → All HasColumns (map (record_of words s d) ps)
      × (length (map (record_of words s d) ps) ≡ length ps)
unfolding record_of
point_records_lem words s d [] = (tt, refl)
point_records_lem words s d (p ∷ ps) =
    let (h, n) = point_records_lem words s d ps in ((refl, h), omega (arith, n))

device_records_lem :
    (words : Words) (s : ServerSnapshot) (ds : List DeviceSnapshot)
    → All HasColumns (device_records words s ds)
      × (length (device_records words s ds) ≡ point_count ds)
device_records_lem words s [] = (tt, refl)
device_records_lem words s (d ∷ ds) =
    let (h, n) = point_records_lem words s d d.points in
    let (k, m) = device_records_lem words s ds in
    (
      All-append HasColumns _ _ h k,
      omega (
        arith,
        n,
        m,
        length-append (map (record_of words s d) d.points) (device_records words s ds),
      ),
    )

all_records_lem :
    (words : Words) (ss : List ServerSnapshot)
    → All HasColumns (all_records words ss) × (length (all_records words ss) ≡ all_points ss)
all_records_lem words [] = (tt, refl)
all_records_lem words (s ∷ ss) =
    let (h, n) = device_records_lem words s s.devices in
    let (k, m) = all_records_lem words ss in
    (
      All-append HasColumns _ _ h k,
      omega (arith, n, m, length-append (device_records words s s.devices) (all_records words ss)),
    )

-- When the writer takes all records, the export of a snapshot of the running servers consists of the
-- header and one record for each point of the servers that are enabled and run, in their order, and
-- each record has as many fields as the header has columns.
pub write_csv-snapshot :
    {F : Type 0} (words : Words) (servers : List (Text × Server)) (now : ℕ)
    (scs : List (ServerConfig F))
    → (snaps : List ServerSnapshot) × (snapshot servers now scs ≡ ok snaps)
      × (write_csv words taking snaps [] ≡ ok (headers ∷ all_records words snaps))
      × All HasColumns (all_records words snaps)
      × (length (all_records words snaps)
          ≡ all_points (map (described_server now) (active servers scs)))
unfolding write_csv
write_csv-snapshot words servers now scs =
    let snaps : List ServerSnapshot = map (described_server now) (active servers scs) in
    let (h, n) = all_records_lem words snaps in
    (
      snaps,
      snapshot-described servers now scs,
      rw (write_servers_lem words snaps (headers ∷ [])) refl,
      h,
      n,
    )
