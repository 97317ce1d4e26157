-- ===== src/Collector/Point.antt =====
-- Reading and decoding one point (internal/collector/client.go). The Modbus client is that of
-- goburrow/modbus, a parameter; a state `W` stands for the device and the connection behind it.
-- A float32 is its bit pattern, and float64 is a parameter.
pub mod Decoding
use mutil_modbus.Prelude.{
  ℕ, ◌+◌, ◌*◌, ◌/◌, ◌%◌, Bool, true, false, ◌&&◌, ◌||◌, List, [], ◌∷◌, length, take, ltb, ◌==◌,
  if◌then◌else◌, bit_and,
}
use mutil_modbus.Prelude.Text.{Text, text, same, is_empty, to_lower, to_upper, trim_space}
use mutil_modbus.Prelude.Float.{ℤ, pos, negsuc, signed, FloatOps}
use mutil_modbus.Go.{Go, ok, fail, panic, ◌>>=◌, ◌>>◌, fail_if, Bytes, be16, index}

pub data Error : Type 0 where
  read_failed : Error
  insufficient_data : Text → Error
  unsupported_data_type : Text → Error
  unsupported_register_type : Text → Error

-- `Raw any`
pub data Raw : Type 0 where
  no_raw : Raw
  raw_bool : Bool → Raw
  raw_uint16 : ℕ → Raw
  raw_int16 : ℤ → Raw
  raw_float32 : ℕ → Raw
  raw_uint32 : ℕ → Raw
  raw_int32 : ℤ → Raw

pub record Point (F : Type 0) : Type 0 where
  pub address : ℕ
  pub name : Text
  pub data_type : Text
  pub byte_order : Text
  pub register_type : Text
  pub scale : F
  pub offset : F
  pub unit : Text

-- What a collector knows besides the point: its server, its device and the connection.
pub record Source : Type 0 where
  pub server_id : Text
  pub device_id : Text
  pub connection : Text
  pub slave_id : ℕ

pub record PointValue (F : Type 0) : Type 0 where
  pub source : Source
  pub point_name : Text
  pub address : ℕ
  pub register : Text
  pub data_type : Text
  pub byte_order : Text
  pub unit : Text
  pub raw : Raw
  pub value : F
  pub scale : F
  pub offset : F
  pub timestamp : ℕ

-- The reads of a client: what they return and the state after them.
pub record Client (W : Type 0) : Type 0 where
  pub read_coils : ℕ → ℕ → W → Go Error Bytes × W
  pub read_discrete_inputs : ℕ → ℕ → W → Go Error Bytes × W
  pub read_holding_registers : ℕ → ℕ → W → Go Error Bytes × W
  pub read_input_registers : ℕ → ℕ → W → Go Error Bytes × W

-- The switch of `reorder32`, on the tests of its cases.
abbrev pub ordered : Bool → Bool → Bool → Bool → ℕ → ℕ → ℕ → ℕ → Bytes
ordered abcd dcba badc cdab a b c d =
    if abcd
    then a ∷ b ∷ c ∷ d ∷ []
    else if dcba
    then d ∷ c ∷ b ∷ a ∷ []
    else if badc
    then b ∷ a ∷ d ∷ c ∷ []
    else if cdab
    then c ∷ d ∷ a ∷ b ∷ []
    else a ∷ b ∷ c ∷ d ∷ []

-- On its four bytes; the callers pass no other slice.
unfoldable pub reorder32 : ℕ → ℕ → ℕ → ℕ → Text → Bytes
reorder32 a b c d order =
    let o = to_upper (trim_space order) in
    ordered (is_empty o || same o (text "ABCD")) (same o (text "DCBA")) (same o (text "BADC"))
      (same o (text "CDAB")) a b c d

-- `binary.BigEndian.Uint32` of four bytes
abbrev pub be32 : Bytes → Go Error ℕ
be32 bs = do hi ← be16 bs 0; lo ← be16 bs 2; ok (hi * 65536 + lo)

abbrev pub is_wide : Text → Bool
is_wide dt = same dt (text "float32") || same dt (text "uint32") || same dt (text "int32")

unfoldable pub quantity_of : Text → ℕ
quantity_of dt = if is_wide dt then 2 else 1

module _ {F : Type 0} (ops : FloatOps F) where
  unfoldable pub bool_to_float : Bool → F
  bool_to_float b = ops.of_int (pos (if b then 1 else 0))

  -- The point's scale, with 1 for 0.
  unfoldable pub scale_of : Point F → F
  scale_of p = if ops.is_zero p.scale then ops.of_int (pos 1) else p.scale

  unfoldable pub apply_calibration : Point F → F → F
  apply_calibration p raw = ops.div (ops.sub raw p.offset) (scale_of p)

  -- The value before a read: `value`, `scale` and `offset` are 0.
  unfoldable pub blank : Source → Point F → ℕ → PointValue F
  blank source p now = record {
    source = source;
    point_name = p.name;
    address = p.address;
    register = to_lower p.register_type;
    data_type = to_lower p.data_type;
    byte_order = to_upper p.byte_order;
    unit = p.unit;
    raw = no_raw;
    value = ops.of_int (pos 0);
    scale = ops.of_int (pos 0);
    offset = ops.of_int (pos 0);
    timestamp = now;
  }

  -- The raw value that the bytes hold, by data type.
  unfoldable pub decode_raw : Bytes → Text → Text → Go Error (Raw × F)
  decode_raw content dt bo =
      if same dt (text "uint16")
      then (do
        fail_if (ltb (length content) 2) (insufficient_data dt)
        u ← be16 content 0
        ok (raw_uint16 u, ops.of_int (pos u)))
      else if same dt (text "int16")
      then (do
        fail_if (ltb (length content) 2) (insufficient_data dt)
        u ← be16 content 0
        ok (raw_int16 (signed 32768 u), ops.of_int (signed 32768 u)))
      else if is_wide dt
      then (do
        fail_if (ltb (length content) 4) (insufficient_data dt)
        a ← index content 0
        b ← index content 1
        c ← index content 2
        d ← index content 3
        u ← be32 (reorder32 a b c d bo)
        ok (
            if same dt (text "float32")
            then (raw_float32 u, ops.of_bits u)
            else if same dt (text "uint32")
            then (raw_uint32 u, ops.of_int (pos u))
            else (raw_int32 (signed 2147483648 u), ops.of_int (signed 2147483648 u))))
      else fail (unsupported_data_type dt)

  unfoldable pub decode_register_data :
      PointValue F → Bytes → Text → Text → Point F → Go Error (PointValue F)
  decode_register_data pv content dt bo p = do
    decoded ← decode_raw content dt bo
    ok (record pv {
      raw = decoded.0;
      value = apply_calibration p decoded.1;
      scale = scale_of p;
      offset = p.offset;
      data_type = if is_empty pv.data_type then dt else pv.data_type;
      byte_order = bo;
    })

  -- The value of a coil's byte: its lowest bit, false when there is no byte.
  unfoldable pub decode_coil : PointValue F → Bytes → PointValue F
  decode_coil pv content =
      let b : Bool = elim content [ [] ↦ false | x ∷ xs ↦ bit_and x 1 == 1 ] in
      record pv {
        raw = raw_bool b;
        value = bool_to_float b;
        data_type = if is_empty pv.data_type then text "bool" else pv.data_type;
      }

  unfoldable pub read_point :
      {W : Type 0} → Client W → Source → Point F → ℕ → W → Go Error (PointValue F) × W
  read_point client source p now w =
      let rt = to_lower p.register_type in
      let dt = to_lower p.data_type in
      let bo = to_upper p.byte_order in
      let pv = blank source p now in
      if same rt (text "holding")
      then (let (r, w') = client.read_holding_registers p.address (quantity_of dt) w in
          (r >>= λ content. decode_register_data pv content dt bo p, w'))
      else if same rt (text "input")
      then (let (r, w') = client.read_input_registers p.address (quantity_of dt) w in
          (r >>= λ content. decode_register_data pv content dt bo p, w'))
      else if same rt (text "coil")
      then (let (r, w') = client.read_coils p.address 1 w in
          (r >>= λ content. ok (decode_coil pv content), w'))
      else if same rt (text "discrete")
      then (let (r, w') = client.read_discrete_inputs p.address 1 w in
          (r >>= λ content. ok (decode_coil pv content), w'))
      else (fail (unsupported_register_type p.register_type), w)
