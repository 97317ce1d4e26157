-- ===== src/Simulator/Replay.antt =====
-- The replay of recorded rows (simulator of cmd/server/main.go). The registers behind the
-- registerWriter interface are a state `S`; a write that fails carries the state that it leaves.
-- float64 and its conversions are a parameter.
pub mod Laws
pub mod Cycle
use mutil_modbus.Prelude.{
  ℕ, ◌+◌, ◌*◌, ◌/◌, ◌%◌, Bool, true, false, ◌||◌, List, [], ◌∷◌, Option, none, some, length, ltb,
  leb, ◌==◌, if◌then◌else◌,
}
use mutil_modbus.Prelude.Text.{Text, text, same}
use mutil_modbus.Prelude.Float.{ℤ, pos, negsuc, unsigned, FloatOps}
use mutil_modbus.Go.{Go, NoError, ok, fail, panic, ◌>>=◌, ◌>>◌, fail_if, index}
use mutil_modbus.Collector.Dedup.{lookup}

pub data Error : Type 0 where
  invalid_value value_out_of_range unsupported_data_type : Error
  address_out_of_range overflows_float32 unsupported_register_type : Error
  write_refused : Error

-- The registerWriter interface.
pub record RegisterWriter (S : Type 0) : Type 0 where
  pub set_holding_register : S → ℕ → ℕ → Go Error S
  pub set_input_register : S → ℕ → ℕ → Go Error S
  pub set_coil : S → ℕ → Bool → Go Error S
  pub set_discrete_input : S → ℕ → Bool → Go Error S

pub record RegisterValue (F : Type 0) : Type 0 where
  pub reg_type : Text
  pub address : ℕ
  pub column : Text
  pub scale : F
  pub offset : F
  pub data_type : Text

abbrev pub Row : Type 0 → Type 0
Row F = List (Text × F)

pub record Simulator (F S : Type 0) : Type 0 where
  pub rw : S
  pub values : List (RegisterValue F)
  pub data_rows : List (Row F)
  pub row_index : ℕ

-- A write's outcome, with the state that an error leaves.
abbrev pub Outcome : Type 0 → Type 0
Outcome S = Go (Error × S) S

abbrev pub from_writer : {S : Type 0} → S → Go Error S → Outcome S
from_writer s (ok t) = ok t
from_writer s (fail e) = fail (e, s)
from_writer s panic = panic

abbrev pub in_range : ℤ → ℕ → ℕ → Bool
in_range (pos n) low high = leb n high
in_range (negsuc n) low high = ltb n low

unfoldable pub float_to_uint16 : {F : Type 0} → FloatOps F → F → Go Error ℕ
float_to_uint16 ops value = do
  fail_if (if ops.is_finite value then false else true) invalid_value
  fail_if (if in_range (ops.round_to_int value) 0 65535 then false else true) value_out_of_range
  ok (unsigned 32768 (ops.round_to_int value))

unfoldable pub float_to_int16 : {F : Type 0} → FloatOps F → F → Go Error ℕ
float_to_int16 ops value = do
  fail_if (if ops.is_finite value then false else true) invalid_value
  fail_if (if in_range (ops.round_to_int value) 32768 32767 then false else true) value_out_of_range
  ok (unsigned 32768 (ops.round_to_int value))

unfoldable pub set_register_word : {S : Type 0} → RegisterWriter S → S → Text → ℕ → ℕ → Outcome S
set_register_word writer s reg_type address word =
    if same reg_type (text "holding")
    then from_writer s (writer.set_holding_register s address word)
    else if same reg_type (text "input")
    then from_writer s (writer.set_input_register s address word)
    else fail (unsupported_register_type, s)

unfoldable pub set_register_float32 :
    {F S : Type 0} → FloatOps F → RegisterWriter S → S → RegisterValue F → F → Outcome S
set_register_float32 ops writer s v scaled = do
  fail_if (if ops.is_finite scaled then false else true) (invalid_value, s)
  fail_if (v.address == 65535) (address_out_of_range, s)
  fail_if (ops.overflows scaled) (overflows_float32, s)
  let bits = ops.to_bits scaled
  s' ← set_register_word writer s v.reg_type v.address (bits / 65536 % 65536)
  set_register_word writer s' v.reg_type ((v.address + 1) % 65536) (bits % 65536)

-- A conversion's word, with the state for its error.
abbrev pub at_state : {S : Type 0} → S → Go Error ℕ → Go (Error × S) ℕ
at_state s (ok w) = ok w
at_state s (fail e) = fail (e, s)
at_state s panic = panic

unfoldable pub write_numeric_register :
    {F S : Type 0} → FloatOps F → RegisterWriter S → S → RegisterValue F → F → Outcome S
write_numeric_register ops writer s v scaled =
    if same v.data_type (text "uint16")
    then (do
      word ← at_state s (float_to_uint16 ops scaled)
      set_register_word writer s v.reg_type v.address word)
    else if same v.data_type (text "int16")
    then (do
      word ← at_state s (float_to_int16 ops scaled)
      set_register_word writer s v.reg_type v.address word)
    else if same v.data_type (text "float32")
    then set_register_float32 ops writer s v scaled
    else fail (unsupported_data_type, s)

-- An error is logged, and the state is the one that it left.
abbrev pub logged : {S : Type 0} → Outcome S → Go NoError S
logged (ok s) = ok s
logged (fail e) = ok e.1
logged panic = panic

-- One value's turn in the loop of `applyRowLocked`; a missing column is logged and passed over.
unfoldable pub apply_value :
    {F S : Type 0} → FloatOps F → RegisterWriter S → Row F → S → RegisterValue F → Go NoError S
apply_value ops writer row s v = elim (lookup row v.column) [
  | none ↦ ok s
  | some raw ↦
      let scaled = ops.add (ops.mul raw v.scale) v.offset in
      if same v.reg_type (text "holding") || same v.reg_type (text "input")
      then logged (write_numeric_register ops writer s v scaled)
      else if same v.reg_type (text "coil")
      then logged (from_writer s (writer.set_coil s v.address (ops.is_positive scaled)))
      else if same v.reg_type (text "discrete")
      then logged (from_writer s (writer.set_discrete_input s v.address (ops.is_positive scaled)))
      else ok s
]

unfoldable pub apply_values :
    {F S : Type 0}
    → FloatOps F
    → RegisterWriter S
    → Row F
    → S
    → List (RegisterValue F)
    → Go NoError S
apply_values ops writer row s [] = ok s
apply_values ops writer row s (v ∷ vs) = do
  s' ← apply_value ops writer row s v
  apply_values ops writer row s' vs

unfoldable pub apply_row :
    {F S : Type 0} → FloatOps F → RegisterWriter S → Simulator F S → ℕ → Go NoError (Simulator F S)
apply_row ops writer sim i = if length sim.data_rows == 0 then ok sim else (do
  row ← index sim.data_rows i
  rw ← apply_values ops writer row sim.rw sim.values
  ok (record sim { rw = rw }))

-- A tick of the update period.
unfoldable pub next_row :
    {F S : Type 0} → FloatOps F → RegisterWriter S → Simulator F S → Go NoError (Simulator F S)
next_row ops writer sim =
    if length sim.data_rows == 0
    then ok sim
    else (let i = (sim.row_index + 1) % length sim.data_rows in
        apply_row ops writer (record sim { row_index = i }) i)
