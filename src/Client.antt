-- ===== src/Client.antt =====
-- The client command (cmd/client/main.go): the settings that it connects with, the reading of one
-- register and one round over the registers of the configuration. The Modbus client is that of
-- goburrow/modbus, a parameter, as it is for the collector; its address helper, its connections and
-- the words of its errors are parameters too. What is printed is a value.
pub mod Laws
pub mod Reads
pub mod EndToEnd
use mutil_modbus.Prelude.{
  ℕ, ◌+◌, ◌*◌, ◌%◌, Bool, true, false, ◌||◌, ◌&&◌, not, List, [], ◌∷◌, ◌++◌, Option, none, some,
  length, ltb, ◌==◌, if◌then◌else◌, bit_and,
}
use mutil_modbus.Prelude.Text.{Text, text, same, is_empty, to_lower, to_upper, trim_space, begins}
use mutil_modbus.Prelude.Float.{ℤ, pos, negsuc, signed, FloatOps}
use mutil_modbus.Go.{Go, NoError, ok, fail, panic, ◌>>=◌, ◌>>◌, fail_if, Bytes, be16}
use mutil_modbus.Collector.Point
use mutil_modbus.Collector.Point.{Client}
use mutil_modbus.Simulator.Load.{RegisterConfig}
use mutil_modbus.Config.{Config, ServerSettings}

pub data Error : Type 0 where
  not_read : Point.Error → Error
  float32_bytes : ℕ → Error
  unsupported_data_type : Text → Error

-- The client's section is taken when it has a mode, a port or an address.
unfoldable pub settings_of : {F : Type 0} → Config F → ServerSettings
settings_of cfg =
    if not (is_empty cfg.client.mode)
      || not (is_empty cfg.client.serial_port)
      || not (is_empty cfg.client.listen_address)
    then cfg.client
    else cfg.server

-- `normalizeAddress`, with whether `net.SplitHostPort` takes an address as a test.
unfoldable pub normalize_address : (Text → Bool) → Text → Text
normalize_address has_host_and_port given =
    let trimmed = trim_space given in
    let addr = if is_empty trimmed then text ":1503" else trimmed in
    let hosted = if begins 58 addr then text "127.0.0.1" ++ addr else addr in
    if has_host_and_port hosted
    then hosted
    else if has_colon hosted
    then hosted
    else text "127.0.0.1:" ++ hosted
  where
    has_colon : Text → Bool
    has_colon [] = false
    has_colon (c ∷ s) = c == 58 || has_colon s

abbrev pub type_or_default : Text → Text
type_or_default t = if is_empty t then text "uint16" else t

-- The bytes of a read, by data type; too few for a word are a panic of encoding/binary.
unfoldable pub decode_numeric : {F : Type 0} → FloatOps F → Text → Text → Bytes → Go Error F
decode_numeric ops data_type written content =
    if same data_type (text "uint16")
    then (do u ← be16 content 0; ok (ops.of_int (pos u)))
    else if same data_type (text "int16")
    then (do u ← be16 content 0; ok (ops.of_int (signed 32768 u)))
    else if same data_type (text "float32")
    then (do
      fail_if (ltb (length content) 4) (float32_bytes (length content))
      hi ← be16 content 0
      lo ← be16 content 2
      ok (ops.of_bits (hi * 65536 + lo)))
    else fail (unsupported_data_type written)

-- An error of the client is passed on.
abbrev pub passed_on : {A : Type 0} → Go Point.Error A → Go Error A
passed_on (ok a) = ok a
passed_on (fail e) = fail (not_read e)
passed_on panic = panic

unfoldable pub apply_scale_and_offset : {F : Type 0} → FloatOps F → F → RegisterConfig F → F
apply_scale_and_offset ops raw reg =
    let scale = if ops.is_zero reg.scale then ops.of_int (pos 1) else reg.scale in
    ops.div (ops.sub raw reg.offset) scale

module _ {F W : Type 0} (ops : FloatOps F) (client : Client W) where
  unfoldable pub read_numeric_register : RegisterConfig F → Bool → W → Go Error F × W
  read_numeric_register reg holding w =
      let data_type = type_or_default (to_lower reg.data_type) in
      let quantity = if same data_type (text "float32") then 2 else 1 in
      let (answer, w') =
        if holding
        then client.read_holding_registers reg.address quantity w
        else client.read_input_registers reg.address quantity w in
      ((passed_on answer >>= decode_numeric ops data_type reg.data_type), w')

-- A line that is printed: the column, the address and the value.
pub data Printed (F : Type 0) : Type 0 where
  holding input : Text → ℕ → F → Printed F
  coil discrete : Text → ℕ → Bool → Printed F

-- Closing and opening the client again, and whether an error is one of a lost connection.
pub record Connection (W : Type 0) : Type 0 where
  pub reopen : W → Bool × W
  pub is_lost : Error → Bool

-- What a turn of the loop leaves: the line, whether there is a client, and the state.
abbrev pub Turn : Type 0 → Type 0 → Type 0
Turn F W = Go NoError (Option (Printed F) × Bool × W)

-- A read that ends in an error is logged.
abbrev pub if_read : {A F W : Type 0} → Go Error A × W → (A → Printed F) → Turn F W
if_read (ok a, w) f = ok (some (f a), true, w)
if_read (fail e, w) f = ok (none, true, w)
if_read (panic, w) f = panic

-- The value of the second read is not printed, since `break` leaves the switch.
abbrev pub unprinted : {A F W : Type 0} → Go Error A × W → Turn F W
unprinted (ok a, w) = ok (none, true, w)
unprinted (fail e, w) = ok (none, true, w)
unprinted (panic, w) = panic

abbrev pub lowest_bit : Bytes → Bool
lowest_bit [] = false
lowest_bit (x ∷ xs) = bit_and x 1 == 1

module _ {F W : Type 0} (ops : FloatOps F) (client : Client W) (connection : Connection W) where
  -- The first read of a holding register, and the second one behind a lost connection.
  unfoldable pub after_read : RegisterConfig F → Go Error F × W → Turn F W
  after_read reg (ok value, w) =
      ok (some (holding reg.csv_column reg.address (apply_scale_and_offset ops value reg)), true, w)
  after_read reg (panic, w) = panic
  after_read reg (fail e, w) =
      if connection.is_lost e
      then (let (up, w') = connection.reopen w in
          let again = unprinted (read_numeric_register ops client reg true w') in
          if up then again else ok (none, false, w'))
      else ok (none, true, w)

  unfoldable pub turn : RegisterConfig F → Bool → W → Turn F W
  turn reg connected w =
      let type = to_lower reg.type in
      if same type (text "holding")
      then (if connected
          then after_read reg (read_numeric_register ops client reg true w)
          else panic)
      else if same type (text "input")
      then (if connected
          then if_read (read_numeric_register ops client reg false w)
              (λ v. input reg.csv_column reg.address (apply_scale_and_offset ops v reg))
          else panic)
      else if same type (text "coil")
      then (if connected
          then (let (answer, w') = client.read_coils reg.address 1 w in
              if_read (passed_on answer, w')
                (λ content. coil reg.csv_column reg.address (lowest_bit content)))
          else panic)
      else if same type (text "discrete")
      then (if connected
          then (let (answer, w') = client.read_discrete_inputs reg.address 1 w in
              if_read (passed_on answer, w')
                (λ content. discrete reg.csv_column reg.address (lowest_bit content)))
          else panic)
      else ok (none, connected, w)

  -- One round over the registers, with the lines in their order.
  unfoldable pub round :
      List (RegisterConfig F) → Bool → W → Go NoError (List (Printed F) × Bool × W)
  round [] connected w = ok ([], connected, w)
  round (reg ∷ regs) connected w = do
    first ← turn reg connected w
    others ← round regs first.1 first.2
    ok (elim first.0 [ none ↦ others.0 | some line ↦ line ∷ others.0 ], others.1, others.2)
