-- ===== src/Manager/Snapshot/Laws.antt =====
-- A snapshot is the description of the running servers (Snapshot of internal/servermgr/manager.go).
use mutil_modbus.Prelude.{
  ℕ, ◌≡◌, refl, Bool, true, false, List, [], ◌∷◌, map, Option, Option-cases, none, some, Bool-cases,
  inl, inr, get_elem?, length, leb, if◌then◌else◌, arith, get_elem?-some, get_elem?-none,
}
use mutil_modbus.Prelude.Text.{Text, text, same, same_eq, to_lower, lower_code}
use mutil_modbus.Go.{Go, ok, fail, index, index-eq_ok}
use mutil_modbus.Tcp.Server.{Server}
use mutil_modbus.Tcp.Registers.{
  AddressError, address_out_of_range, get_holding_register, get_input_register, get_coil,
  get_discrete_input,
}
use mutil_modbus.Collector.Dedup.{lookup}
use mutil_modbus.Collector.Point.{Point}
use mutil_modbus.Collector.Devices.{Device}
use mutil_modbus.Manager.Run.{ServerConfig}
use mutil_modbus.Manager.Snapshot.{
  PointSnapshot, DeviceSnapshot, ServerSnapshot, as_get, if_read, modbus_get_u16, modbus_get_bool,
  values_of_point, snapshot_point, snapshot_points, snapshot_devices, snapshot_server, snapshot,
}

-- What the tables hold for a type of register, at an address.
abbrev pub word_at : Server → Text → ℕ → Option ℕ
word_at s t a =
    if same t (text "holding")
    then get_elem? s.holding_registers a
    else if same t (text "input")
    then get_elem? s.input_registers a
    else none

abbrev pub bit_at : Server → Text → ℕ → Option Bool
bit_at s t a =
    if same t (text "coil")
    then get_elem? s.coils a
    else if same t (text "discrete")
    then get_elem? s.discrete_inputs a
    else none

module _ {F : Type 0} where
  abbrev pub described_point : Server → ℕ → Point F → PointSnapshot
  described_point s now p = record {
    name = p.name;
    register_type = to_lower p.register_type;
    address = p.address;
    unit = p.unit;
    value_uint16 = word_at s (to_lower p.register_type) p.address;
    value_bool = bit_at s (to_lower p.register_type) p.address;
    timestamp = now;
  }

  abbrev pub described_device : Server → ℕ → Device F → DeviceSnapshot
  described_device s now d = record {
    device_id = d.device_id;
    vendor = d.vendor;
    slave_id = d.slave_id;
    points = map (described_point s now) d.points;
  }

  abbrev pub described_server : ℕ → ServerConfig F × Server → ServerSnapshot
  described_server now (sc, s) = record {
    server_id = sc.server_id;
    server_name = sc.server_name;
    address = (sc.host, sc.port);
    devices = map (described_device s now) sc.devices;
    timestamp = now;
  }

  -- The enabled servers that run.
  abbrev pub active : List (Text × Server) → List (ServerConfig F) → List (ServerConfig F × Server)
  active servers [] = []
  active servers (sc ∷ scs) = elim (lookup servers sc.server_id) [
    | none ↦ active servers scs
    | some s ↦ let rest = active servers scs in if sc.enabled then (sc, s) ∷ rest else rest
  ]

read_lem :
    {A : Type 0} (xs : List A) (a : ℕ) (m : Go AddressError A)
    → (leb (length xs) a ≡ true → m ≡ fail (address_out_of_range a))
    → (leb (length xs) a ≡ false → m ≡ index xs a)
    → if_read (as_get m) ≡ ok (get_elem? xs a)
read_lem xs a m h k = elim (Bool-cases (leb (length xs) a)) [
  | inl e ↦
      let n : get_elem? xs a ≡ none = get_elem?-none xs a (ground (arith, e)) in rw (h e, n) refl
  | inr e ↦
      let (v, g) = get_elem?-some xs a (ground (arith, e)) in
      rw (k e, index-eq_ok {E = AddressError} xs a g, g) refl
]

holding_lem :
    (s : Server) (a : ℕ)
    → if_read (modbus_get_u16 s (text "holding") a) ≡ ok (get_elem? s.holding_registers a)
unfolding modbus_get_u16 get_holding_register to_lower lower_code
holding_lem s a = read_lem s.holding_registers a _ (λ e. rw e refl) (λ e. rw e refl)

input_lem :
    (s : Server) (a : ℕ)
    → if_read (modbus_get_u16 s (text "input") a) ≡ ok (get_elem? s.input_registers a)
unfolding modbus_get_u16 get_input_register to_lower lower_code
input_lem s a = read_lem s.input_registers a _ (λ e. rw e refl) (λ e. rw e refl)

coil_lem :
    (s : Server) (a : ℕ) → if_read (modbus_get_bool s (text "coil") a) ≡ ok (get_elem? s.coils a)
unfolding modbus_get_bool get_coil to_lower lower_code
coil_lem s a = read_lem s.coils a _ (λ e. rw e refl) (λ e. rw e refl)

discrete_lem :
    (s : Server) (a : ℕ)
    → if_read (modbus_get_bool s (text "discrete") a) ≡ ok (get_elem? s.discrete_inputs a)
unfolding modbus_get_bool get_discrete_input to_lower lower_code
discrete_lem s a = read_lem s.discrete_inputs a _ (λ e. rw e refl) (λ e. rw e refl)

values_of_point_lem :
    (s : Server) (t : Text) (a : ℕ) → values_of_point s t a ≡ ok (word_at s t a, bit_at s t a)
unfolding values_of_point
values_of_point_lem s t a = elim (Bool-cases (same t (text "holding"))) [
  | inl h ↦ rw (same_eq t (text "holding") h, holding_lem s a) refl
  | inr h ↦ elim (Bool-cases (same t (text "input"))) [
    | inl i ↦ rw (same_eq t (text "input") i, input_lem s a) refl
    | inr i ↦ elim (Bool-cases (same t (text "coil"))) [
      | inl c ↦ rw (same_eq t (text "coil") c, coil_lem s a) refl
      | inr c ↦ elim (Bool-cases (same t (text "discrete"))) [
        | inl d ↦ rw (same_eq t (text "discrete") d, discrete_lem s a) refl
        | inr d ↦ rw (h, i, c, d) refl
      ]
    ]
  ]
]

module _ {F : Type 0} where
  snapshot_points_lem :
      (s : Server) (now : ℕ) (ps : List (Point F))
      → snapshot_points s now ps ≡ ok (map (described_point s now) ps)
  unfolding snapshot_points snapshot_point
  snapshot_points_lem s now [] = refl
  snapshot_points_lem s now (p ∷ ps) =
      rw (values_of_point_lem s (to_lower p.register_type) p.address, snapshot_points_lem s now ps)
        refl

  snapshot_devices_lem :
      (s : Server) (now : ℕ) (ds : List (Device F))
      → snapshot_devices s now ds ≡ ok (map (described_device s now) ds)
  unfolding snapshot_devices
  snapshot_devices_lem s now [] = refl
  snapshot_devices_lem s now (d ∷ ds) =
      rw (snapshot_points_lem s now d.points, snapshot_devices_lem s now ds) refl

  -- A snapshot does not fail, and describes the servers that are enabled and run, in the order of the
  -- configuration, with each of their devices and points: a holding or input register shows its word,
  -- a coil or a discrete input its bit, a point of another type or past its table neither.
  pub snapshot-described :
      (servers : List (Text × Server)) (now : ℕ) (scs : List (ServerConfig F))
      → snapshot servers now scs ≡ ok (map (described_server now) (active servers scs))
  unfolding snapshot snapshot_server
  snapshot-described servers now [] = refl
  snapshot-described servers now (sc ∷ scs) = elim (Option-cases (lookup servers sc.server_id)) [
    | inl n ↦ rw (n, snapshot, active) (snapshot-described servers now scs)
    | inr (s, e) ↦ elim (Bool-cases sc.enabled) [
      | inl b ↦
          rw
            (
              e,
              b,
              snapshot,
              active,
              snapshot_devices_lem s now sc.devices,
              snapshot-described servers now scs,
            )
            refl
      | inr b ↦ rw (e, b, snapshot, active) (snapshot-described servers now scs)
    ]
  ]
