-- ===== src/Simulator/Load/Laws.antt =====
-- Registers that pass the checks are ones that the replay supports.
use mutil_modbus.Prelude.{
  ◌≡◌, refl, true, ◌||◌, ◌&&◌, List, [], ◌∷◌, Bool-cases, inl, inr, All, if◌then◌else◌, length,
  arith,
}
use mutil_modbus.Prelude.Text.{Text, text, is_empty, to_lower}
use mutil_modbus.Prelude.Float.{FloatOps}
use mutil_modbus.Go.{Ensures, Ensures-bind}
use mutil_modbus.Simulator.Replay.{RegisterValue}
use mutil_modbus.Simulator.Load.{
  RegisterConfig, is_numeric, is_bit, is_word_type, data_type_of, load_register, load_registers,
}

-- A register's type and data type go together: a word type for a numeric register, and none for a
-- bit.
abbrev pub Supported : {F : Type 0} → RegisterValue F → Type 0
Supported v =
    (if is_numeric v.reg_type
      then is_word_type v.data_type
      else (is_bit v.reg_type && is_empty v.data_type))
    ≡ true

data_type_of-Supported :
    (type dt : Text)
    → (is_numeric type || is_bit type) ≡ true
    → Ensures
        (λ t. (if is_numeric type then is_word_type t else (is_bit type && is_empty t)) ≡ true)
        (data_type_of type dt)
unfolding data_type_of
data_type_of-Supported type dt h = elim (Bool-cases (is_numeric type)) [
  | inl n ↦
      let word : Text = if is_empty dt then text "uint16" else dt in
      elim (Bool-cases (is_word_type word)) [ inl w ↦ rw (n, w) w | inr w ↦ rw (n, w) tt ]
  | inr n ↦ elim (Bool-cases (is_empty dt)) [
    | inl e ↦ rw (n, e) (ground arith)
    | inr e ↦ rw (n, e) tt
  ]
]

load_register-Supported :
    {F : Type 0} (ops : FloatOps F) (reg : RegisterConfig F)
    → Ensures Supported (load_register ops reg)
unfolding load_register
load_register-Supported {F} ops reg = elim (Bool-cases (is_numeric reg.type || is_bit reg.type)) [
  | inl known ↦ rw known (
      Ensures-bind
        (λ t.
          (if is_numeric reg.type then is_word_type t else (is_bit reg.type && is_empty t)) ≡ true)
        (λ (v : RegisterValue F). Supported v) (data_type_of reg.type (to_lower reg.data_type)) _
        (data_type_of-Supported reg.type (to_lower reg.data_type) known) (λ t h. h))
  | inr unknown ↦ rw unknown tt
]

-- When the configured registers are accepted there is one value for each of them, and each value
-- is one that the replay can write: a numeric register with one of the three data types, or a bit
-- without one. No configuration makes the check panic.
pub load_registers-Supported :
    {F : Type 0} (ops : FloatOps F) (regs : List (RegisterConfig F))
    → Ensures (λ vs. (length vs ≡ length regs) × All Supported vs) (load_registers ops regs)
unfolding load_registers
load_registers-Supported ops [] = (refl, tt)
load_registers-Supported {F} ops (reg ∷ regs) =
    Ensures-bind Supported (λ vs. (length vs ≡ length (reg ∷ regs)) × All Supported vs)
      (load_register ops reg) _ (load_register-Supported ops reg)
      (λ v h.
        Ensures-bind (λ vs. (length vs ≡ length regs) × All Supported vs)
          (λ vs. (length vs ≡ length (reg ∷ regs)) × All Supported vs) (load_registers ops regs) _
          (load_registers-Supported ops regs) (λ vs k. (omega (arith, k.0), (h, k.1))))
