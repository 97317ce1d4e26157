-- ===== src/Simulator/Replay/Cycle.antt =====
-- A tick writes the next row, and the rows go round.
use mutil_modbus.Prelude.{
  ℕ, ◌+◌, ◌/◌, ◌%◌, ◌≤◌, ◌≡◌, refl, Bool, false, ◌||◌, List, [], ◌∷◌, Option-cases, length, ◌==◌,
  arith, Bool-cases, inl, inr,
}
use native.Mathlib.Nat.{mod-lt}
use mutil_modbus.Prelude.Text.{Text, text, same}
use mutil_modbus.Prelude.Float.{FloatOps}
use mutil_modbus.Go.{Go, NoError, ok, fail, panic, ◌>>=◌, Runs, index, index_ok}
use mutil_modbus.Collector.Dedup.{lookup}
use mutil_modbus.Simulator.Replay.{
  Error, in_range, RegisterWriter, RegisterValue, Row, Simulator, Outcome, from_writer, at_state,
  logged, float_to_uint16, float_to_int16, set_register_word, set_register_float32,
  write_numeric_register, apply_value, apply_values, apply_row, next_row,
}

-- Writes that end without a panic.
pub record IsQuiet {S : Type 0} (writer : RegisterWriter S) : Type 0 where
  pub holding : (s : S) (a w : ℕ) → Runs (writer.set_holding_register s a w)
  pub input : (s : S) (a w : ℕ) → Runs (writer.set_input_register s a w)
  pub coil : (s : S) (a : ℕ) (b : Bool) → Runs (writer.set_coil s a b)
  pub discrete : (s : S) (a : ℕ) (b : Bool) → Runs (writer.set_discrete_input s a b)

logged_ok : {S : Type 0} (m : Outcome S) → Runs m → (t : S) × (logged m ≡ ok t)
logged_ok (ok s) h = (s, refl)
logged_ok (fail e) h = (e.1, refl)
logged_ok panic h = absurd h

from_writer-Runs : {S : Type 0} (s : S) (m : Go Error S) → Runs m → Runs (from_writer s m)
from_writer-Runs s (ok t) h = tt
from_writer-Runs s (fail e) h = tt
from_writer-Runs s panic h = h

at_state-Runs : {S : Type 0} (s : S) (m : Go Error ℕ) → Runs m → Runs (at_state s m)
at_state-Runs s (ok t) h = tt
at_state-Runs s (fail e) h = tt
at_state-Runs s panic h = h

bind-Runs :
    {E A B : Type 0} (m : Go E A) (f : A → Go E B)
    → Runs m
    → ((a : A) → Runs (f a))
    → Runs (m >>= f)
bind-Runs (ok a) f h k = k a
bind-Runs (fail e) f h k = tt
bind-Runs panic f h k = h

set_register_word-Runs :
    {S : Type 0} (writer : RegisterWriter S) (s : S) (t : Text) (a w : ℕ)
    → IsQuiet writer
    → Runs (set_register_word writer s t a w)
unfolding set_register_word
set_register_word-Runs writer s t a w q = elim (Bool-cases (same t (text "holding"))) [
  | inl e ↦ rw e (from_writer-Runs s _ (q.holding s a w))
  | inr e ↦ elim (Bool-cases (same t (text "input"))) [
    | inl i ↦ rw (e, i) (from_writer-Runs s _ (q.input s a w))
    | inr i ↦ rw (e, i) tt
  ]
]

float_to_uint16-Runs : {F : Type 0} (ops : FloatOps F) (x : F) → Runs (float_to_uint16 ops x)
unfolding float_to_uint16
float_to_uint16-Runs ops x = elim (Bool-cases (ops.is_finite x)) [
  | inl e ↦ elim (Bool-cases (in_range (ops.round_to_int x) 0 65535)) [
    | inl r ↦ rw (e, r) tt
    | inr r ↦ rw (e, r) tt
  ]
  | inr e ↦ rw e tt
]

float_to_int16-Runs : {F : Type 0} (ops : FloatOps F) (x : F) → Runs (float_to_int16 ops x)
unfolding float_to_int16
float_to_int16-Runs ops x = elim (Bool-cases (ops.is_finite x)) [
  | inl e ↦ elim (Bool-cases (in_range (ops.round_to_int x) 32768 32767)) [
    | inl r ↦ rw (e, r) tt
    | inr r ↦ rw (e, r) tt
  ]
  | inr e ↦ rw e tt
]

set_register_float32-Runs :
    {F S : Type 0} (ops : FloatOps F) (writer : RegisterWriter S) (s : S) (v : RegisterValue F)
    (x : F)
    → IsQuiet writer
    → Runs (set_register_float32 ops writer s v x)
unfolding set_register_float32
set_register_float32-Runs {F} {S} ops writer s v x q = elim (Bool-cases (ops.is_finite x)) [
  | inr e ↦ rw e tt
  | inl e ↦ elim (Bool-cases (v.address == 65535)) [
    | inl l ↦ rw (e, l) tt
    | inr l ↦ elim (Bool-cases (ops.overflows x)) [
      | inl o ↦ rw (e, l, o) tt
      | inr o ↦
          rw (e, l, o)
            (bind-Runs {B = S}
              (set_register_word writer s v.reg_type v.address (ops.to_bits x / 65536 % 65536)) _
              (set_register_word-Runs writer s v.reg_type v.address (ops.to_bits x / 65536 % 65536)
                q)
              (λ t.
                set_register_word-Runs writer t v.reg_type ((v.address + 1) % 65536)
                  (ops.to_bits x % 65536) q))
    ]
  ]
]

write_numeric_register-Runs :
    {F S : Type 0} (ops : FloatOps F) (writer : RegisterWriter S) (s : S) (v : RegisterValue F)
    (x : F)
    → IsQuiet writer
    → Runs (write_numeric_register ops writer s v x)
unfolding write_numeric_register
write_numeric_register-Runs {F} {S} ops writer s v x q =
    elim (Bool-cases (same v.data_type (text "uint16"))) [
      | inl e ↦ rw e (
          bind-Runs {B = S} (at_state s (float_to_uint16 ops x)) _
            (at_state-Runs s _ (float_to_uint16-Runs ops x))
            (λ w. set_register_word-Runs writer s v.reg_type v.address w q))
      | inr e₁ ↦ elim (Bool-cases (same v.data_type (text "int16"))) [
        | inl e ↦
            rw (e₁, e)
              (bind-Runs {B = S} (at_state s (float_to_int16 ops x)) _
                (at_state-Runs s _ (float_to_int16-Runs ops x))
                (λ w. set_register_word-Runs writer s v.reg_type v.address w q))
        | inr e₂ ↦ elim (Bool-cases (same v.data_type (text "float32"))) [
          | inl e ↦ rw (e₁, e₂, e) (set_register_float32-Runs ops writer s v x q)
          | inr e ↦ rw (e₁, e₂, e) tt
        ]
      ]
    ]

apply_value_ok :
    {F S : Type 0} (ops : FloatOps F) (writer : RegisterWriter S) (row : Row F) (s : S)
    (v : RegisterValue F)
    → IsQuiet writer
    → (t : S) × (apply_value ops writer row s v ≡ ok t)
unfolding apply_value
apply_value_ok ops writer row s v q = elim (Option-cases (lookup row v.column)) [
  | inl e ↦ rw (e, apply_value) (s, refl)
  | inr (raw, e) ↦
      let x = ops.add (ops.mul raw v.scale) v.offset in
      elim (Bool-cases (same v.reg_type (text "holding") || same v.reg_type (text "input"))) [
        | inl n ↦
            rw (e, n, apply_value) (logged_ok _ (write_numeric_register-Runs ops writer s v x q))
        | inr n ↦ elim (Bool-cases (same v.reg_type (text "coil"))) [
          | inl c ↦
              rw (e, n, c, apply_value)
                (logged_ok _ (from_writer-Runs s _ (q.coil s v.address (ops.is_positive x))))
          | inr c ↦ elim (Bool-cases (same v.reg_type (text "discrete"))) [
            | inl d ↦
                rw (e, n, c, d, apply_value)
                  (logged_ok _ (from_writer-Runs s _ (q.discrete s v.address (ops.is_positive x))))
            | inr d ↦ rw (e, n, c, d, apply_value) (s, refl)
          ]
        ]
      ]
]

apply_values_ok :
    {F S : Type 0} (ops : FloatOps F) (writer : RegisterWriter S) (row : Row F) (s : S)
    (vs : List (RegisterValue F))
    → IsQuiet writer
    → (t : S) × (apply_values ops writer row s vs ≡ ok t)
unfolding apply_values
apply_values_ok ops writer row s [] q = (s, refl)
apply_values_ok ops writer row s (v ∷ vs) q =
    let (t, e) = apply_value_ok ops writer row s v q in
    let (u, f) = apply_values_ok ops writer row t vs q in (u, rw (e, f) refl)

-- With registers whose writes do not panic, a tick on at least one row goes on to the next row,
-- after the last to the first, and writes it: it does not panic whatever the row holds, and keeps
-- the rows and the configured values.
pub next_row_cycle :
    {F S : Type 0} (ops : FloatOps F) (writer : RegisterWriter S) (sim : Simulator F S)
    → IsQuiet writer
    → 1 ≤ length sim.data_rows
    → (t : S) × (row : Row F) × (index {E = NoError} sim.data_rows
          ((sim.row_index + 1) % length sim.data_rows)
        ≡ ok row)
      × (apply_values ops writer row sim.rw sim.values ≡ ok t)
      × (next_row ops writer sim
          ≡ ok (record sim { rw = t; row_index = (sim.row_index + 1) % length sim.data_rows }))
unfolding next_row apply_row
next_row_cycle ops writer sim q some_rows =
    let i = (sim.row_index + 1) % length sim.data_rows in
    let filled : (length sim.data_rows == 0) ≡ false = ground arith in
    let (row, e) =
      index_ok {E = NoError} sim.data_rows i (mod-lt (sim.row_index + 1) (omega arith)) in
    let (t, f) = apply_values_ok ops writer row sim.rw sim.values q in
    (t, row, e, f, rw (filled, e, f) refl)
