-- ===== src/Config/Parse/Laws.antt =====
-- What Load promises of a configuration that it accepts, and of its errors.
use mutil_modbus.Prelude.{
  ℕ, ◌+◌, ◌≡◌, ◌⊎◌, ◌≤◌, ◌<◌, refl, true, false, List, [], ◌∷◌, Option, Option-cases, none, some,
  Bool-cases, inl, inr, if◌then◌else◌, length, length-append, ◌==◌, arith, ◌&&◌, ◌||◌,
}
use mutil_modbus.Prelude.Text.{Text, text, same, is_empty, trim_space, begins, ends, split_at}
use mutil_modbus.Go.{Go, ok, fail, panic, Outcome, Outcome-bind, Outcome-imp}
use mutil_modbus.Config.{
  Config, KeyError, Floats, no_config, new_register, assign_root, assign_server,
}
use mutil_modbus.Config.Parse.{
  Error, open_failed, scan_failed, unsupported_section, invalid_line, on_line,
  register_before_header, unknown_section, csv_file_missing, registers_missing, Reader, File,
  wrapped, assign_last, open_section, assign, read_bare, read_lines, complete, load, with_config,
  bare, section_of, has_two_brackets,
}
use mutil_modbus.Config.Parse.Assignments.{
  assign_root-Runs, assign_server-Runs, Runs-Outcome, assign_last-length,
}

-- What the simulator finds in a configuration.
pub record IsComplete {F : Type 0} (cfg : Config F) : Type 0 where
  pub csv_file : is_empty cfg.csv_file ≡ false
  pub listen_address : is_empty cfg.server.listen_address ≡ false
  pub update_interval : is_empty cfg.update_interval ≡ false
  pub registers : 1 ≤ length cfg.registers

-- An error of one of the lines behind `before` up to `last` names its number, and the two errors
-- for a section that the loop cannot be in do not occur.
abbrev pub IsReported : ℕ → ℕ → Error → Type 0
IsReported before last (unsupported_section s n) = (before < n) × (n ≤ last)
IsReported before last (invalid_line n line) = (before < n) × (n ≤ last)
IsReported before last (on_line n e) = (before < n) × (n ≤ last)
IsReported before last register_before_header = ⊥
IsReported before last (unknown_section n) = ⊥
IsReported before last open_failed = Unit
IsReported before last scan_failed = Unit
IsReported before last csv_file_missing = Unit
IsReported before last registers_missing = Unit

-- The section that the loop is in: the switch knows it, and registers come behind a header.
abbrev InSection : {F : Type 0} → Reader F → Type 0
InSection st =
    (is_empty st.section ≡ true)
    ⊎ ((same st.section (text "server") ≡ true)
        ⊎ ((same st.section (text "client") ≡ true)
            ⊎ ((same st.section (text "registers") ≡ true) × (1 ≤ length st.config.registers))))

wrapped-Outcome :
    {F A : Type 0} (n last : ℕ) (P : A → Type 0) (m : Go KeyError A) (f : A → Reader F)
    → n < last
    → Outcome P (λ _. Unit {0}) m
    → ((a : A) → P a → InSection (f a))
    → Outcome InSection (IsReported n last) (wrapped (n + 1) m f)
wrapped-Outcome n last P (ok a) f l h k = k a h
wrapped-Outcome n last P (fail e) f l h k = (omega arith, omega (arith, l))
wrapped-Outcome n last P panic f l h k = h

assign-Outcome :
    {F : Type 0} (floats : Floats F) (n last : ℕ) (key value : Text) (st : Reader F)
    → n < last
    → InSection st
    → Outcome InSection (IsReported n last) (assign floats (n + 1) key value st)
unfolding assign
assign-Outcome floats n last key value st l h = elim (Bool-cases (is_empty st.section)) [
  | inl e ↦ rw e (
      wrapped-Outcome n last (λ _. Unit {0}) (assign_root st.config key value) (with_config st) l
        (Runs-Outcome _ (assign_root-Runs st.config key value)) (λ _ _. inl e))
  | inr e ↦ elim (Bool-cases (same st.section (text "server"))) [
    | inl s ↦
        rw (e, s)
          (wrapped-Outcome n last (λ _. Unit {0}) (assign_server st.config.server key value) _ l
            (Runs-Outcome _ (assign_server-Runs st.config.server key value)) (λ _ _. inr (inl s)))
    | inr s ↦ elim (Bool-cases (same st.section (text "client"))) [
      | inl c ↦
          rw (e, s, c)
            (wrapped-Outcome n last (λ _. Unit {0}) (assign_server st.config.client key value) _ l
              (Runs-Outcome _ (assign_server-Runs st.config.client key value))
              (λ _ _. inr (inr (inl c))))
      | inr c ↦
          let r : (same st.section (text "registers") ≡ true) × (1 ≤ length st.config.registers) =
            in_registers st e s c h in
          let z : (length st.config.registers == 0) ≡ false = ground (arith, r.1) in
          rw (e, s, c, r.0, z)
            (wrapped-Outcome n last (λ rs. 1 ≤ length rs)
              (assign_last floats st.config.registers key value) _ l
              (assign_last-length floats st.config.registers key value r.1)
              (λ rs k. inr (inr (inr (r.0, k)))))
    ]
  ]
]
  where
    in_registers :
        {F : Type 0} (st : Reader F)
        → is_empty st.section ≡ false
        → same st.section (text "server") ≡ false
        → same st.section (text "client") ≡ false
        → InSection st
        → (same st.section (text "registers") ≡ true) × (1 ≤ length st.config.registers)
    in_registers st e s c (inl h) = absurd (cc (e, h))
    in_registers st e s c (inr (inl h)) = absurd (cc (s, h))
    in_registers st e s c (inr (inr (inl h))) = absurd (cc (c, h))
    in_registers st e s c (inr (inr (inr h))) = h

open_section-Outcome :
    {F : Type 0} (floats : Floats F) (n last : ℕ) (line : Text) (st : Reader F)
    → n < last
    → Outcome InSection (IsReported n last) (open_section floats (n + 1) line st)
unfolding open_section
open_section-Outcome floats n last line st l =
    elim (Bool-cases (same (section_of line) (text "registers") && has_two_brackets line)) [
      | inl e ↦ rw e (
          inr (
            inr (
              inr (
                refl,
                omega (arith, length-append st.config.registers (new_register floats ∷ [])),
              ))))
      | inr e ↦ elim (Bool-cases (same (section_of line) (text "server"))) [
        | inl s ↦ rw (e, s) (inr (inl refl))
        | inr s ↦ elim (Bool-cases (same (section_of line) (text "client"))) [
          | inl c ↦ rw (e, s, c) (inr (inr (inl refl)))
          | inr c ↦ rw (e, s, c) (omega arith, omega (arith, l))
        ]
      ]
    ]

read_bare-Outcome :
    {F : Type 0} (floats : Floats F) (n last : ℕ) (line : Text) (st : Reader F)
    → n < last
    → InSection st
    → Outcome InSection (IsReported n last) (read_bare floats (n + 1) line st)
unfolding read_bare
read_bare-Outcome floats n last line st l h = elim (Bool-cases (is_empty line || begins 35 line)) [
  | inl e ↦ rw e h
  | inr e ↦ elim (Bool-cases (begins 91 line && ends 93 line)) [
    | inl b ↦ rw (e, b) (open_section-Outcome floats n last line st l)
    | inr b ↦ elim (Option-cases (split_at 61 line)) [
      | inl p ↦ rw (e, b, p) (omega arith, omega (arith, l))
      | inr (kv, p) ↦
          rw (e, b, p) (assign-Outcome floats n last (trim_space kv.0) (trim_space kv.1) st l h)
    ]
  ]
]

IsReported-mono : (n m last : ℕ) → n ≤ m → (e : Error) → IsReported m last e → IsReported n last e
IsReported-mono n m last l (unsupported_section s k) h = (omega (arith, l, h.0), h.1)
IsReported-mono n m last l (invalid_line k line) h = (omega (arith, l, h.0), h.1)
IsReported-mono n m last l (on_line k e) h = (omega (arith, l, h.0), h.1)
IsReported-mono n m last l register_before_header h = h
IsReported-mono n m last l (unknown_section k) h = h
IsReported-mono n m last l open_failed h = tt
IsReported-mono n m last l scan_failed h = tt
IsReported-mono n m last l csv_file_missing h = tt
IsReported-mono n m last l registers_missing h = tt

read_lines-Outcome :
    {F : Type 0} (floats : Floats F) (n last : ℕ) (lines : List Text) (st : Reader F)
    → n + length lines ≤ last
    → InSection st
    → Outcome InSection (IsReported n last) (read_lines floats n lines st)
unfolding read_lines
read_lines-Outcome floats n last [] st l h = h
read_lines-Outcome floats n last (raw ∷ lines) st l h =
    Outcome-bind InSection InSection (IsReported n last) (read_bare floats (n + 1) (bare raw) st) _
      (read_bare-Outcome floats n last (bare raw) st (omega (arith, l)) h)
      (λ next k.
        Outcome-imp InSection InSection _ _ (read_lines floats (n + 1) lines next) (λ _ g. g)
          (IsReported-mono n (n + 1) last (omega arith))
          (read_lines-Outcome floats (n + 1) last lines next (omega (arith, l)) k))

abbrev pub line_count : Option File → ℕ
line_count none = 0
line_count (some file) = length file.lines

default_lem :
    (default s : Text)
    → is_empty default ≡ false
    → is_empty (if is_empty s then default else s) ≡ false
default_lem default [] h = h
default_lem default (c ∷ s) h = refl

complete-Outcome :
    {F : Type 0} (n : ℕ) (cfg : Config F) → Outcome IsComplete (IsReported 0 n) (complete cfg)
unfolding complete
complete-Outcome n cfg = elim (Bool-cases (is_empty cfg.csv_file)) [
  | inl e ↦ rw e tt
  | inr e ↦ elim (Bool-cases (length cfg.registers == 0)) [
    | inl r ↦ rw (e, r) tt
    | inr r ↦
        rw (e, r)
          record {
            csv_file = e;
            listen_address = default_lem (text ":1502") cfg.server.listen_address refl;
            update_interval = default_lem (text "5s") cfg.update_interval refl;
            registers = ground (arith, r);
          }
  ]
]

-- Load runs through for any file. A configuration that it returns names a CSV file, a listen address
-- and an interval, and has at least one register. An error about a line has the number of one of the
-- file's lines, and the errors for a register before its header and for an unknown section never
-- occur.
pub load-Outcome :
    {F : Type 0} (floats : Floats F) (file : Option File)
    → Outcome IsComplete (IsReported 0 (line_count file)) (load floats file)
unfolding load
load-Outcome floats none = tt
load-Outcome {F} floats (some file) =
    Outcome-bind InSection IsComplete (IsReported 0 (length file.lines))
      (read_lines floats 0 file.lines record { config = no_config; section = [] }) _
      (read_lines-Outcome floats 0 (length file.lines) file.lines
        (record { config = no_config; section = [] }) (omega arith) (inl refl))
      (λ st _. elim (Bool-cases file.broken) [
        | inl b ↦ rw b tt
        | inr b ↦ rw b (complete-Outcome (length file.lines) st.config)
      ])
