-- ===== src/Tcp/Registers.antt =====
-- The accessors of one register or coil (internal/modbus/server.go and snapshot.go). A float32 is
-- its IEEE 754 bit pattern, so `math.Float32bits` and `math.Float32frombits` are the identity.
pub mod Laws
use mutil_modbus.Prelude.{
  ℕ, ◌+◌, ◌*◌, ◌/◌, ◌%◌, ◌≤◌, ◌<◌, ◌≡◌, refl, Bool, true, false, List, length, get_elem?, set, leb,
  arith, length-set, get_elem?-set, ltb, ◌==◌, if◌then◌else◌, ◌&&◌, some, get_elem?-some,
}
use mutil_modbus.Go.{
  Go, ok, fail, panic, ◌>>=◌, ◌>>◌, fail_if, index, assign, index-eq_ok, assign-eq_ok,
}
use mutil_modbus.Tcp.Server.{Server, IsValid}

-- `address %d out of range`
pub data AddressError : Type 0 where
  address_out_of_range : ℕ → AddressError

abbrev pub Float32 : Type 0
Float32 = ℕ

unfoldable pub set_holding_register : Server → ℕ → ℕ → Go AddressError Server
set_holding_register s address value = do
  fail_if (leb (length s.holding_registers) address) (address_out_of_range address)
  registers ← assign s.holding_registers address value
  ok (record s { holding_registers = registers })

unfoldable pub set_input_register : Server → ℕ → ℕ → Go AddressError Server
set_input_register s address value = do
  fail_if (leb (length s.input_registers) address) (address_out_of_range address)
  registers ← assign s.input_registers address value
  ok (record s { input_registers = registers })

unfoldable pub set_coil : Server → ℕ → Bool → Go AddressError Server
set_coil s address value = do
  fail_if (leb (length s.coils) address) (address_out_of_range address)
  coils ← assign s.coils address value
  ok (record s { coils = coils })

unfoldable pub set_discrete_input : Server → ℕ → Bool → Go AddressError Server
set_discrete_input s address value = do
  fail_if (leb (length s.discrete_inputs) address) (address_out_of_range address)
  inputs ← assign s.discrete_inputs address value
  ok (record s { discrete_inputs = inputs })

-- `address+1` is a uint16.
unfoldable pub set_holding_float32 : Server → ℕ → Float32 → Go AddressError Server
set_holding_float32 s address bits = do
  fail_if (leb (length s.holding_registers) (address + 1)) (address_out_of_range address)
  high ← assign s.holding_registers address (bits / 65536 % 65536)
  both ← assign high ((address + 1) % 65536) (bits % 65536)
  ok (record s { holding_registers = both })

-- `hi<<16 | lo` on words is `hi * 65536 + lo`.
pub holding_float32 : Server → ℕ → Go AddressError Float32
holding_float32 s address = do
  fail_if (leb (length s.holding_registers) (address + 1)) (address_out_of_range address)
  hi ← index s.holding_registers address
  lo ← index s.holding_registers ((address + 1) % 65536)
  ok (hi * 65536 + lo)

pub set_input_float32 : Server → ℕ → Float32 → Go AddressError Server
set_input_float32 s address bits = do
  fail_if (leb (length s.input_registers) (address + 1)) (address_out_of_range address)
  high ← assign s.input_registers address (bits / 65536 % 65536)
  both ← assign high ((address + 1) % 65536) (bits % 65536)
  ok (record s { input_registers = both })

pub input_float32 : Server → ℕ → Go AddressError Float32
input_float32 s address = do
  fail_if (leb (length s.input_registers) (address + 1)) (address_out_of_range address)
  hi ← index s.input_registers address
  lo ← index s.input_registers ((address + 1) % 65536)
  ok (hi * 65536 + lo)

unfoldable pub get_holding_register : Server → ℕ → Go AddressError ℕ
get_holding_register s address = do
  fail_if (leb (length s.holding_registers) address) (address_out_of_range address)
  index s.holding_registers address

unfoldable pub get_input_register : Server → ℕ → Go AddressError ℕ
get_input_register s address = do
  fail_if (leb (length s.input_registers) address) (address_out_of_range address)
  index s.input_registers address

unfoldable pub get_coil : Server → ℕ → Go AddressError Bool
get_coil s address = do
  fail_if (leb (length s.coils) address) (address_out_of_range address)
  index s.coils address

unfoldable pub get_discrete_input : Server → ℕ → Go AddressError Bool
get_discrete_input s address = do
  fail_if (leb (length s.discrete_inputs) address) (address_out_of_range address)
  index s.discrete_inputs address
