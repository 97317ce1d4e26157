-- ===== src/Tcp/Registers/Laws.antt =====
-- What the accessors of registers store and read back.
use mutil_modbus.Prelude.{
  ℕ, ◌+◌, ◌/◌, ◌%◌, ◌^◌, ◌≤◌, ◌<◌, ◌≡◌, ◌≢◌, refl, Bool, List, length, get_elem?, set, arith,
  length-set, get_elem?-set, some,
}
use mutil_modbus.Go.{ok, fail, index, assign}
use mutil_modbus.Tcp.Server.{Server}
use mutil_modbus.Tcp.Registers.{
  address_out_of_range, Float32, set_holding_register, get_holding_register, set_holding_float32,
  holding_float32, set_input_float32, input_float32, set_coil, get_coil, set_input_register,
  get_input_register, set_discrete_input, get_discrete_input,
}

-- A word set at an address of the holding registers is read back there, every other register reads
-- as before, and the other tables are kept.
pub set_holding_register-get :
    (s : Server) (address value : ℕ)
    → address < length s.holding_registers
    → (t : Server) × (set_holding_register s address value ≡ ok t)
      × (get_holding_register t address ≡ ok value)
      × ((other : ℕ)
          → other ≢ address
          → get_holding_register t other ≡ get_holding_register s other)
      × (t.input_registers ≡ s.input_registers)
      × (t.coils ≡ s.coils)
      × (t.discrete_inputs ≡ s.discrete_inputs)
unfolding set_holding_register get_holding_register assign index
set_holding_register-get s address value h =
    let l = length-set s.holding_registers address value in
    (
      record s { holding_registers = set s.holding_registers address value },
      ground arith,
      ground (arith, get_elem?-set s.holding_registers address address value, l),
      λ other ne. ground (arith, get_elem?-set s.holding_registers address other value, l),
      refl,
      refl,
      refl,
    )

-- Each setter and each getter refuses an address past its table, and names the address.
pub accessors_refuse :
    (s : Server) (address value : ℕ) (bit : Bool)
    → length s.holding_registers ≤ address
    → length s.input_registers ≤ address
    → length s.coils ≤ address
    → length s.discrete_inputs ≤ address
    → (set_holding_register s address value ≡ fail (address_out_of_range address))
      × (set_input_register s address value ≡ fail (address_out_of_range address))
      × (set_coil s address bit ≡ fail (address_out_of_range address))
      × (set_discrete_input s address bit ≡ fail (address_out_of_range address))
      × (get_holding_register s address ≡ fail (address_out_of_range address))
      × (get_input_register s address ≡ fail (address_out_of_range address))
      × (get_coil s address ≡ fail (address_out_of_range address))
      × (get_discrete_input s address ≡ fail (address_out_of_range address))
unfolding set_holding_register set_input_register set_coil set_discrete_input get_holding_register
    get_input_register get_coil get_discrete_input
accessors_refuse s address value bit h k l m = (
  ground arith,
  ground arith,
  ground arith,
  ground arith,
  ground arith,
  ground arith,
  ground arith,
  ground arith,
)

two_words :
    (xs : List ℕ) (address hi lo : ℕ)
    → address + 1 < length xs
    → (get_elem? (set (set xs address hi) (address + 1) lo) address ≡ some hi)
      × (get_elem? (set (set xs address hi) (address + 1) lo) (address + 1) ≡ some lo)
      × (length (set (set xs address hi) (address + 1) lo) ≡ length xs)
two_words xs address hi lo h = ground (
  arith,
  get_elem?-set (set xs address hi) (address + 1) address lo,
  get_elem?-set (set xs address hi) (address + 1) (address + 1) lo,
  get_elem?-set xs address address hi,
  length-set xs address hi,
  length-set (set xs address hi) (address + 1) lo,
)

-- A float32 that is set at two holding registers of the table is read back bit for bit.
pub holding_float32-set :
    (s : Server) (address : ℕ) (bits : Float32)
    → address + 1 < length s.holding_registers
    → address + 1 < 65536
    → bits < 2 ^ 32
    → (t : Server) × (set_holding_float32 s address bits ≡ ok t)
      × (holding_float32 t address ≡ ok bits)
unfolding set_holding_float32 holding_float32 index assign
holding_float32-set s address bits h k l =
    let hi = bits / 65536 % 65536 in
    let lo = bits % 65536 in
    let no_wrap : (address + 1) % 65536 ≡ address + 1 = omega arith in
    let w = two_words s.holding_registers address hi lo h in
    let first = length-set s.holding_registers address hi in
    (
      record s { holding_registers = set (set s.holding_registers address hi) (address + 1) lo },
      rw no_wrap (ground (arith, first)),
      rw no_wrap (ground (arith, w)),
    )

-- A float32 that is set at two input registers of the table is read back bit for bit.
pub input_float32-set :
    (s : Server) (address : ℕ) (bits : Float32)
    → address + 1 < length s.input_registers
    → address + 1 < 65536
    → bits < 2 ^ 32
    → (t : Server) × (set_input_float32 s address bits ≡ ok t) × (input_float32 t address ≡ ok bits)
unfolding set_input_float32 input_float32 index assign
input_float32-set s address bits h k l =
    let hi = bits / 65536 % 65536 in
    let lo = bits % 65536 in
    let no_wrap : (address + 1) % 65536 ≡ address + 1 = omega arith in
    let w = two_words s.input_registers address hi lo h in
    let first = length-set s.input_registers address hi in
    (
      record s { input_registers = set (set s.input_registers address hi) (address + 1) lo },
      rw no_wrap (ground (arith, first)),
      rw no_wrap (ground (arith, w)),
    )
