-- ===== src/Manager/Run/Writes.antt =====
-- A row that the manager writes keeps a server's tables (internal/servermgr/manager.go).
use mutil_modbus.Manager.Run.Tables.{
  IsFull, Keeps, set-Keeps, logged-Ensures, bind-Keeps, holding_lem, input_lem, coil_lem,
  discrete_lem,
}
use mutil_modbus.Prelude.{
  ℕ, ◌+◌, ◌/◌, ◌%◌, ◌<◌, ◌≡◌, false, ◌||◌, List, [], ◌∷◌, Option-cases, length, Bool-cases, inl,
  inr, ◌==◌, arith,
}
use mutil_modbus.Prelude.Text.{Text, text, same, to_lower, trim_space}
use mutil_modbus.Prelude.Float.{ℤ, FloatOps, pos, negsuc, unsigned}
use mutil_modbus.Go.{Go, NoError, ok, fail, panic, ◌>>=◌, index_ok, Ensures, Ensures-bind}
use mutil_modbus.Tcp.Server.{Server}
use mutil_modbus.Tcp.Registers.{
  set_holding_register, set_input_register, set_coil, set_discrete_input,
}
use mutil_modbus.Collector.Dedup.{lookup}
use mutil_modbus.Collector.Point.{Point}
use mutil_modbus.Collector.Devices.{Device}
use mutil_modbus.Simulator.Replay.{Row, in_range}
use mutil_modbus.Manager.Apply.{
  Error, word_of, float_to_uint16, float_to_int16, set_register_word, set_register_float32,
  write_numeric_register, scale_of, data_type_or_default, apply_point, apply_points, apply_devices,
  apply_row_to_server,
}

unsigned-lt : (z : ℤ) → unsigned 32768 z < 65536
unfolding unsigned
unsigned-lt (pos n) = omega arith
unsigned-lt (negsuc n) = omega arith

word_Keeps :
    (s : Server) (t : Text) (a w : ℕ) → IsFull s → w < 65536 → Keeps (set_register_word s t a w)
unfolding set_register_word
word_Keeps s t a w f l = elim (Bool-cases (same t (text "holding"))) [
  | inl e ↦ rw e (set-Keeps s (set_holding_register s a w) f (holding_lem s a w f l))
  | inr e ↦ elim (Bool-cases (same t (text "input"))) [
    | inl i ↦ rw (e, i) (set-Keeps s (set_input_register s a w) f (input_lem s a w f l))
    | inr i ↦ rw (e, i) f
  ]
]

-- A word that is converted goes to a register, or the server stays as it is.
converted_Keeps :
    (s : Server) (m : Go Error ℕ) (t : Text) (a : ℕ)
    → IsFull s
    → Ensures (λ w. w < 65536) m
    → Keeps (word_of s m >>= λ w. set_register_word s t a w)
converted_Keeps s (ok w) t a f h = word_Keeps s t a w f h
converted_Keeps s (fail e) t a f h = f
converted_Keeps s panic t a f h = h

module _ {F : Type 0} (ops : FloatOps F) where
  uint16-lt : (x : F) → Ensures (λ w. w < 65536) (float_to_uint16 ops x)
  unfolding float_to_uint16
  uint16-lt x = elim (Bool-cases (ops.is_finite x)) [
    | inr e ↦ rw e tt
    | inl e ↦ elim (Bool-cases (in_range (ops.round_to_int x) 0 65535)) [
      | inl r ↦ rw (e, r) (unsigned-lt (ops.round_to_int x))
      | inr r ↦ rw (e, r) tt
    ]
  ]

  int16-lt : (x : F) → Ensures (λ w. w < 65536) (float_to_int16 ops x)
  unfolding float_to_int16
  int16-lt x = elim (Bool-cases (ops.is_finite x)) [
    | inr e ↦ rw e tt
    | inl e ↦ elim (Bool-cases (in_range (ops.round_to_int x) 32768 32767)) [
      | inl r ↦ rw (e, r) (unsigned-lt (ops.round_to_int x))
      | inr r ↦ rw (e, r) tt
    ]
  ]

  float32_Keeps :
      (s : Server) (t : Text) (a : ℕ) (x : F) → IsFull s → Keeps (set_register_float32 ops s t a x)
  unfolding set_register_float32
  float32_Keeps s t a x f = elim (Bool-cases (ops.is_finite x)) [
    | inr e ↦ rw e f
    | inl e ↦ elim (Bool-cases (a == 65535)) [
      | inl l ↦ rw (e, l) f
      | inr l ↦ elim (Bool-cases (ops.overflows x)) [
        | inl o ↦ rw (e, l, o) f
        | inr o ↦
            rw (e, l, o)
              (bind-Keeps (set_register_word s t a (ops.to_bits x / 65536 % 65536)) _
                (word_Keeps s t a (ops.to_bits x / 65536 % 65536) f (omega arith))
                (λ u g. word_Keeps u t ((a + 1) % 65536) (ops.to_bits x % 65536) g (omega arith)))
      ]
    ]
  ]

  numeric_Keeps :
      (s : Server) (t : Text) (a : ℕ) (dt : Text) (x : F)
      → IsFull s
      → Keeps (write_numeric_register ops s t a dt x)
  unfolding write_numeric_register
  numeric_Keeps s t a dt x f = elim (Bool-cases (same dt (text "uint16"))) [
    | inl u ↦ rw u (converted_Keeps s (float_to_uint16 ops x) t a f (uint16-lt x))
    | inr u ↦ elim (Bool-cases (same dt (text "int16"))) [
      | inl i ↦ rw (u, i) (converted_Keeps s (float_to_int16 ops x) t a f (int16-lt x))
      | inr i ↦ elim (Bool-cases (same dt (text "float32"))) [
        | inl k ↦ rw (u, i, k) (float32_Keeps s t a x f)
        | inr k ↦ rw (u, i, k) f
      ]
    ]
  ]

  apply_point-Ensures :
      (row : Row F) (s : Server) (p : Point F) → IsFull s → Ensures IsFull (apply_point ops row s p)
  unfolding apply_point
  apply_point-Ensures row s p f = elim (Option-cases (lookup row (trim_space p.name))) [
    | inl n ↦ rw (n, apply_point) f
    | inr (raw, e) ↦
        let t = to_lower p.register_type in
        let x = ops.add (ops.mul raw (scale_of ops p.scale)) p.offset in
        elim (Bool-cases (same t (text "holding") || same t (text "input"))) [
          | inl n ↦
              rw (e, n, apply_point)
                (logged-Ensures _ (
                  numeric_Keeps s t p.address (data_type_or_default ops (to_lower p.data_type)) x
                    f))
          | inr n ↦ elim (Bool-cases (same t (text "coil"))) [
            | inl c ↦
                rw (e, n, c, apply_point)
                  (logged-Ensures _ (
                    set-Keeps s (set_coil s p.address (ops.is_positive x)) f
                      (coil_lem s p.address (ops.is_positive x) f)))
            | inr c ↦ elim (Bool-cases (same t (text "discrete"))) [
              | inl d ↦
                  rw (e, n, c, d, apply_point)
                    (logged-Ensures _ (
                      set-Keeps s (set_discrete_input s p.address (ops.is_positive x)) f
                        (discrete_lem s p.address (ops.is_positive x) f)))
              | inr d ↦ rw (e, n, c, d, apply_point) f
            ]
          ]
        ]
  ]

  apply_points-Ensures :
      (row : Row F) (s : Server) (ps : List (Point F))
      → IsFull s
      → Ensures IsFull (apply_points ops row s ps)
  unfolding apply_points
  apply_points-Ensures row s [] f = f
  apply_points-Ensures row s (p ∷ ps) f =
      Ensures-bind IsFull IsFull (apply_point ops row s p) _ (apply_point-Ensures row s p f)
        (λ t g. apply_points-Ensures row t ps g)

  apply_devices-Ensures :
      (row : Row F) (s : Server) (ds : List (Device F))
      → IsFull s
      → Ensures IsFull (apply_devices ops row s ds)
  unfolding apply_devices
  apply_devices-Ensures row s [] f = f
  apply_devices-Ensures row s (d ∷ ds) f =
      Ensures-bind IsFull IsFull (apply_points ops row s d.points) _
        (apply_points-Ensures row s d.points f) (λ t g. apply_devices-Ensures row t ds g)

  pub apply_row_to_server-Ensures :
      (s : Server) (ds : List (Device F)) (rows : List (Row F)) (i : ℕ)
      → IsFull s
      → i < length rows
      → Ensures IsFull (apply_row_to_server ops s ds rows i)
  unfolding apply_row_to_server
  apply_row_to_server-Ensures s ds rows i f l =
      let (row, e) = index_ok {E = NoError} rows i l in
      let z : (length rows == 0) ≡ false = ground (arith, l) in
      rw (z, e) (apply_devices-Ensures row s ds f)
