-- ===== src/Config/Parse.antt =====
-- The loop of Load (internal/config/config.go) over the lines of the settings, and the defaults and
-- checks behind it.
pub mod Assignments
pub mod Laws
use mutil_modbus.Prelude.{
  ℕ, ◌+◌, Bool, true, false, not, ◌||◌, ◌&&◌, List, [], ◌∷◌, ◌++◌, Option, none, some, length, ◌==◌,
  if◌then◌else◌,
}
use mutil_modbus.Prelude.Text.{
  Text, text, same, is_empty, trim_space, begins, ends, trim_codes, before, split_at,
}
use mutil_modbus.Go.{Go, ok, fail, panic, ◌>>=◌, ◌>>◌, fail_if}
use mutil_modbus.Simulator.Load.{RegisterConfig}
use mutil_modbus.Config.{
  Config, KeyError, Floats, no_config, new_register, assign_root, assign_server, assign_register,
}

pub data Error : Type 0 where
  open_failed scan_failed : Error
  unsupported_section : Text → ℕ → Error
  invalid_line : ℕ → Text → Error
  on_line : ℕ → KeyError → Error
  register_before_header : Error
  unknown_section : ℕ → Error
  csv_file_missing registers_missing : Error

-- The variables of the loop.
pub record Reader (F : Type 0) : Type 0 where
  pub config : Config F
  pub section : Text

-- A file that is open: its lines, and whether the scanner stopped with an error behind them.
pub record File : Type 0 where
  pub lines : List Text
  pub broken : Bool

abbrev pub is_bracket : ℕ → Bool
is_bracket c = c == 91 || c == 93

-- A line without the comment and the spaces around it.
unfoldable pub bare : Text → Text
bare raw = trim_space (before 35 (trim_space raw))

unfoldable pub section_of : Text → Text
section_of line =
    let name = trim_codes is_bracket line in
    if begins 91 name && ends 93 name then trim_codes is_bracket name else name

abbrev pub has_two_brackets : Text → Bool
has_two_brackets [] = false
has_two_brackets (c ∷ s) = c == 91 && begins 91 s

-- An error of a key is wrapped with the number of the line.
abbrev pub wrapped : {A B : Type 0} → ℕ → Go KeyError A → (A → B) → Go Error B
wrapped n (ok a) f = ok (f a)
wrapped n (fail e) f = fail (on_line n e)
wrapped n panic f = panic

-- `assignRegister(&cfg.Registers[len(cfg.Registers)-1], key, value)`
unfoldable pub assign_last :
    {F : Type 0}
    → Floats F
    → List (RegisterConfig F)
    → Text
    → Text
    → Go KeyError (List (RegisterConfig F))
assign_last floats [] key value = panic
assign_last floats (reg ∷ []) key value = do
  last ← assign_register floats reg key value
  ok (last ∷ [])
assign_last floats (reg ∷ next ∷ regs) key value = do
  others ← assign_last floats (next ∷ regs) key value
  ok (reg ∷ others)

module _ {F : Type 0} where
  abbrev pub with_config : Reader F → Config F → Reader F
  with_config st cfg = record st { config = cfg }

  module _ (floats : Floats F) where
    unfoldable pub open_section : ℕ → Text → Reader F → Go Error (Reader F)
    open_section n line st =
        let section = section_of line in
        if same section (text "registers") && has_two_brackets line
        then ok record {
          config = record st.config {
            registers = st.config.registers ++ (new_register floats ∷ []);
          };
          section = text "registers";
        }
        else if same section (text "server")
        then ok (record st { section = text "server" })
        else if same section (text "client")
        then ok (record st { section = text "client" })
        else fail (unsupported_section section n)

    -- The switch on the current section.
    unfoldable pub assign : ℕ → Text → Text → Reader F → Go Error (Reader F)
    assign n key value st =
        if is_empty st.section
        then wrapped n (assign_root st.config key value) (with_config st)
        else if same st.section (text "server")
        then wrapped n (assign_server st.config.server key value)
            (λ s. with_config st (record st.config { server = s }))
        else if same st.section (text "client")
        then wrapped n (assign_server st.config.client key value)
            (λ s. with_config st (record st.config { client = s }))
        else if same st.section (text "registers")
        then (if length st.config.registers == 0
            then fail register_before_header
            else wrapped n (assign_last floats st.config.registers key value)
                (λ regs. with_config st (record st.config { registers = regs })))
        else fail (unknown_section n)

    -- One line, without the comment and the spaces.
    unfoldable pub read_bare : ℕ → Text → Reader F → Go Error (Reader F)
    read_bare n line st =
        if is_empty line || begins 35 line
        then ok st
        else if begins 91 line && ends 93 line
        then open_section n line st
        else elim (split_at 61 line) [
          | none ↦ fail (invalid_line n line)
          | some (key, value) ↦ assign n (trim_space key) (trim_space value) st
        ]

    -- The loop, with the number of the lines before.
    unfoldable pub read_lines : ℕ → List Text → Reader F → Go Error (Reader F)
    read_lines n [] st = ok st
    read_lines n (raw ∷ lines) st = do
      next ← read_bare (n + 1) (bare raw) st
      read_lines (n + 1) lines next

-- The default addresses and the checks behind the loop.
unfoldable pub complete : {F : Type 0} → Config F → Go Error (Config F)
complete cfg = do
  let listen =
      if is_empty cfg.server.listen_address then text ":1502" else cfg.server.listen_address
  let interval = if is_empty cfg.update_interval then text "5s" else cfg.update_interval
  fail_if (is_empty cfg.csv_file) csv_file_missing
  fail_if (length cfg.registers == 0) registers_missing
  ok (record cfg {
    server = record cfg.server { listen_address = listen };
    update_interval = interval;
  })

unfoldable pub load : {F : Type 0} → Floats F → Option File → Go Error (Config F)
load floats none = fail open_failed
load floats (some file) = do
  st ← read_lines floats 0 file.lines record { config = no_config; section = [] }
  fail_if file.broken scan_failed
  complete st.config
