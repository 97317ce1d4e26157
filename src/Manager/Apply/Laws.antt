-- ===== src/Manager/Apply/Laws.antt =====
-- The manager writes a row as the simulator of cmd/server does, with the registers that the points
-- stand for.
use mutil_modbus.Prelude.{
  ℕ, ◌≡◌, refl, sym, ◌∙◌, ◌||◌, List, [], ◌∷◌, ◌++◌, Option-cases, length, Bool-cases, inl, inr,
  ◌==◌,
}
use mutil_modbus.Prelude.Text.{text, same, to_lower, trim_space}
use mutil_modbus.Prelude.Float.{FloatOps}
use mutil_modbus.Go.{Go, NoError, ok, fail, panic, ◌>>=◌, index}
use mutil_modbus.Tcp.Server.{Server}
use mutil_modbus.Tcp.Registers.{set_coil, set_discrete_input}
use mutil_modbus.Collector.Dedup.{lookup}
use mutil_modbus.Collector.Point.{Point}
use mutil_modbus.Collector.Devices.{Device}
use mutil_modbus.Simulator.Replay.{RegisterValue, Row, apply_value, apply_values, apply_row}
use mutil_modbus.Simulator.Replay.Laws.{server_writer}
use mutil_modbus.Manager.Apply.{
  scale_of, data_type_or_default, apply_point, apply_points, apply_devices, apply_row_to_server,
}
use mutil_modbus.Manager.Apply.Alike.{logged-Alike, set-Alike, numeric-Alike}

bind_congr :
    {A B : Type 0} (m k : Go NoError A) (f g : A → Go NoError B)
    → m ≡ k
    → ((a : A) → f a ≡ g a)
    → (m >>= f) ≡ (k >>= g)
bind_congr m (ok a) f g h p = rw h (p a)
bind_congr m (fail e) f g h p = absurd e
bind_congr m panic f g h p = rw h refl

bind_assoc :
    {A B C : Type 0} (m : Go NoError A) (f : A → Go NoError B) (g : B → Go NoError C)
    → (m >>= λ a. f a >>= g) ≡ ((m >>= f) >>= g)
bind_assoc (ok a) f g = refl
bind_assoc (fail e) f g = refl
bind_assoc panic f g = refl

module _ {F : Type 0} (ops : FloatOps F) where
  -- The register of the simulator that a point stands for.
  abbrev pub value_of : Point F → RegisterValue F
  value_of p = record {
    reg_type = to_lower p.register_type;
    address = p.address;
    column = trim_space p.name;
    scale = scale_of ops p.scale;
    offset = p.offset;
    data_type = data_type_or_default ops (to_lower p.data_type);
  }

  abbrev pub values_of : List (Point F) → List (RegisterValue F)
  values_of [] = []
  values_of (p ∷ ps) = value_of p ∷ values_of ps

  abbrev pub all_values : List (Device F) → List (RegisterValue F)
  all_values [] = []
  all_values (d ∷ ds) = values_of d.points ++ all_values ds

  apply_point_lem :
      (row : Row F) (s : Server) (p : Point F)
      → apply_point ops row s p ≡ apply_value ops server_writer row s (value_of p)
  unfolding apply_point apply_value
  apply_point_lem row s p = elim (Option-cases (lookup row (trim_space p.name))) [
    | inl n ↦ rw (n, apply_point, apply_value) refl
    | inr (raw, e) ↦
        let t = to_lower p.register_type in
        let x = ops.add (ops.mul raw (scale_of ops p.scale)) p.offset in
        elim (Bool-cases (same t (text "holding") || same t (text "input"))) [
          | inl n ↦
              rw (e, n, apply_point, apply_value)
                (logged-Alike _ _ (numeric-Alike ops s (value_of p) x))
          | inr n ↦ elim (Bool-cases (same t (text "coil"))) [
            | inl c ↦
                rw (e, n, c, apply_point, apply_value)
                  (logged-Alike _ _ (set-Alike s (set_coil s p.address (ops.is_positive x))))
            | inr c ↦ elim (Bool-cases (same t (text "discrete"))) [
              | inl d ↦
                  rw (e, n, c, d, apply_point, apply_value)
                    (logged-Alike _ _
                      (set-Alike s (set_discrete_input s p.address (ops.is_positive x))))
              | inr d ↦ rw (e, n, c, d, apply_point, apply_value) refl
            ]
          ]
        ]
  ]

  apply_values-append :
      (row : Row F) (s : Server) (vs us : List (RegisterValue F))
      → apply_values ops server_writer row s (vs ++ us)
        ≡ (apply_values ops server_writer row s vs >>= λ t. apply_values ops server_writer row t us)
  unfolding apply_values
  apply_values-append row s [] us = refl
  apply_values-append row s (v ∷ vs) us =
      bind_congr (apply_value ops server_writer row s v) _ _ _ refl
        (λ t. apply_values-append row t vs us)
      ∙ bind_assoc (apply_value ops server_writer row s v) _ _

  apply_points_lem :
      (row : Row F) (s : Server) (ps : List (Point F))
      → apply_points ops row s ps ≡ apply_values ops server_writer row s (values_of ps)
  unfolding apply_points apply_values
  apply_points_lem row s [] = refl
  apply_points_lem row s (p ∷ ps) =
      bind_congr (apply_point ops row s p) _ _ _ (apply_point_lem row s p)
        (λ t. apply_points_lem row t ps)

  apply_devices_lem :
      (row : Row F) (s : Server) (ds : List (Device F))
      → apply_devices ops row s ds ≡ apply_values ops server_writer row s (all_values ds)
  unfolding apply_devices apply_values
  apply_devices_lem row s [] = refl
  apply_devices_lem row s (d ∷ ds) =
      bind_congr (apply_points ops row s d.points) _ _ _ (apply_points_lem row s d.points)
        (λ t. apply_devices_lem row t ds)
      ∙ sym (apply_values-append row s (values_of d.points) (all_values ds))

  -- A row that the manager writes into a server leaves the registers that the simulator of
  -- cmd/server leaves when it has the same rows and one value for each point of the devices, in
  -- their order: with the point's name trimmed as the column, the type and data type in lower case,
  -- uint16 for no data type and 1 for a scale of zero. A panic is one of both.
  pub apply_row_to_server-simulator :
      (s : Server) (ds : List (Device F)) (rows : List (Row F)) (i old : ℕ)
      → (apply_row_to_server ops s ds rows i >>= λ t.
          ok (record { rw = t; values = all_values ds; data_rows = rows; row_index = old }))
        ≡ apply_row ops server_writer
            (record { rw = s; values = all_values ds; data_rows = rows; row_index = old })
            i
  unfolding apply_row_to_server apply_row
  apply_row_to_server-simulator s ds rows i old = elim (Bool-cases (length rows == 0)) [
    | inl e ↦ rw e refl
    | inr e ↦ rw e (
        sym (bind_assoc (index rows i) (λ row. apply_devices ops row s ds) _)
        ∙ bind_congr (index rows i) _ _ _ refl (λ row.
          bind_congr (apply_devices ops row s ds) _ _ _ (apply_devices_lem row s ds) (λ t. refl)))
  ]
