-- ===== src/Config/Parse/Assignments.antt =====
-- The assignments of a configuration run through (assignRoot, assignServer and assignRegister of
-- internal/config/config.go).
use mutil_modbus.Prelude.{
  ◌≤◌, Bool, true, false, List, [], ◌∷◌, Option, none, some, if◌then◌else◌, length, arith,
}
use mutil_modbus.Prelude.Text.{Text, text, same}
use mutil_modbus.Go.{Go, ok, fail, panic, Outcome, Outcome-bind, Runs}
use mutil_modbus.Collector.Devices.{parse_uint}
use mutil_modbus.Simulator.Load.{RegisterConfig}
use mutil_modbus.Config.{
  Config, KeyError, Floats, assign_root, assign_server, assign_register, ServerSettings, or_invalid,
  parse_string, parse_int32,
}
use mutil_modbus.Config.Parse.{assign_last}

or_invalid-Runs : {A B : Type 0} (o : Option A) (e : KeyError) (f : A → B) → Runs (or_invalid o e f)
or_invalid-Runs none e f = tt
or_invalid-Runs (some a) e f = tt

if-Runs : {E A : Type 0} (b : Bool) (m k : Go E A) → Runs m → Runs k → Runs (if b then m else k)
if-Runs true m k h g = h
if-Runs false m k h g = g

pub assign_root-Runs :
    {F : Type 0} (cfg : Config F) (key value : Text) → Runs (assign_root cfg key value)
unfolding assign_root
assign_root-Runs cfg key value =
    if-Runs (same key (text "csv_file")) _ _ tt
      (if-Runs (same key (text "update_interval")) _ _ tt tt)

pub assign_server-Runs : (s : ServerSettings) (key value : Text) → Runs (assign_server s key value)
unfolding assign_server
assign_server-Runs s key value = if-Runs (same key (text "listen_address")) _ _ tt (
    if-Runs (same key (text "mode")) _ _ tt (
      if-Runs (same key (text "serial_port")) _ _ tt (
        if-Runs (same key (text "path")) _ _ tt (
          if-Runs (same key (text "baud_rate")) _ _
            (or_invalid-Runs (parse_int32 (parse_string value)) _ _)
            (if-Runs (same key (text "data_bits")) _ _
              (or_invalid-Runs (parse_int32 (parse_string value)) _ _)
              (if-Runs (same key (text "stop_bits")) _ _
                (or_invalid-Runs (parse_int32 (parse_string value)) _ _)
                (if-Runs (same key (text "parity")) _ _ tt (
                  if-Runs (same key (text "slave_id")) _ _
                    (or_invalid-Runs (parse_int32 (parse_string value)) _ _)
                    (if-Runs (same key (text "update_interval")) _ _ tt tt)))))))))

assign_register-Runs :
    {F : Type 0} (floats : Floats F) (reg : RegisterConfig F) (key value : Text)
    → Runs (assign_register floats reg key value)
unfolding assign_register
assign_register-Runs floats reg key value = if-Runs (same key (text "type")) _ _ tt (
    if-Runs (same key (text "address")) _ _
      (or_invalid-Runs (parse_uint 65536 (parse_string value)) _ _)
      (if-Runs (same key (text "csv_column")) _ _ tt (
        if-Runs (same key (text "scale")) _ _
          (or_invalid-Runs (floats.parse_float (parse_string value)) _ _)
          (if-Runs (same key (text "offset")) _ _
            (or_invalid-Runs (floats.parse_float (parse_string value)) _ _)
            (if-Runs (same key (text "data_type")) _ _ tt tt)))))

pub Runs-Outcome : {E A : Type 0} (m : Go E A) → Runs m → Outcome (λ _. Unit {0}) (λ _. Unit {0}) m
Runs-Outcome (ok a) h = tt
Runs-Outcome (fail e) h = tt
Runs-Outcome panic h = h

-- An assignment to the last register does not change how many there are.
pub assign_last-length :
    {F : Type 0} (floats : Floats F) (regs : List (RegisterConfig F)) (key value : Text)
    → 1 ≤ length regs
    → Outcome (λ rs. 1 ≤ length rs) (λ _. Unit {0}) (assign_last floats regs key value)
unfolding assign_last
assign_last-length floats [] key value h = absurd (omega arith)
assign_last-length floats (reg ∷ []) key value h =
    Outcome-bind (λ _. Unit {0}) (λ rs. 1 ≤ length rs) (λ _. Unit {0})
      (assign_register floats reg key value) _
      (Runs-Outcome _ (assign_register-Runs floats reg key value)) (λ r _. omega arith)
assign_last-length floats (reg ∷ next ∷ regs) key value h =
    Outcome-bind (λ rs. 1 ≤ length rs) (λ rs. 1 ≤ length rs) (λ _. Unit {0})
      (assign_last floats (next ∷ regs) key value) _
      (assign_last-length floats (next ∷ regs) key value (omega arith)) (λ rs _. omega arith)
