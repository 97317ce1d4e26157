-- ===== src/Simulator/Replay/Laws.antt =====
-- The conversions keep the value, and a float32 goes to the server as its own accessor puts it.
use mutil_modbus.Prelude.{
  ℕ, ◌+◌, ◌/◌, ◌%◌, ◌<◌, ◌≡◌, refl, true, false, length, set, leb, ◌==◌, arith, length-set,
}
use mutil_modbus.Prelude.Text.{text}
use mutil_modbus.Prelude.Float.{ℤ, pos, negsuc, signed, unsigned, FloatOps}
use mutil_modbus.Go.{Go, ok, fail, panic, assign-eq_ok}
use mutil_modbus.Tcp.Server.{Server}
use mutil_modbus.Tcp.Registers.{
  AddressError, set_holding_register, set_input_register, set_coil, set_discrete_input,
  set_holding_float32,
}
use mutil_modbus.Simulator.Replay.{
  Error, write_refused, RegisterWriter, RegisterValue, in_range, float_to_int16, set_register_word,
  set_register_float32,
}

pub signed-in_range : (i : ℤ) → in_range i 32768 32767 ≡ true → signed 32768 (unsigned 32768 i) ≡ i
unfolding signed unsigned
signed-in_range (pos n) h = ground arith
signed-in_range (negsuc n) h = ground arith

-- A finite value whose rounding is an int16 becomes a register word that reads back, as an int16,
-- as the rounded value.
pub float_to_int16-signed :
    {F : Type 0} (ops : FloatOps F) (x : F)
    → ops.is_finite x ≡ true
    → in_range (ops.round_to_int x) 32768 32767 ≡ true
    → (w : ℕ) × (float_to_int16 ops x ≡ ok w) × (signed 32768 w ≡ ops.round_to_int x)
unfolding float_to_int16
float_to_int16-signed ops x finite fits = (
  unsigned 32768 (ops.round_to_int x),
  rw (finite, fits) refl,
  signed-in_range (ops.round_to_int x) fits,
)

abbrev pub refused : {A : Type 0} → Go AddressError A → Go Error A
refused (ok a) = ok a
refused (fail e) = fail write_refused
refused panic = panic

-- The server as the simulator's registers.
abbrev pub server_writer : RegisterWriter Server
server_writer = record {
  set_holding_register = λ s a w. refused (set_holding_register s a w);
  set_input_register = λ s a w. refused (set_input_register s a w);
  set_coil = λ s a b. refused (set_coil s a b);
  set_discrete_input = λ s a b. refused (set_discrete_input s a b);
}

-- Both are the one write of the pattern's two words.
float32_written :
    (s : Server) (address bits : ℕ)
    → address + 1 < length s.holding_registers
    → address < 65535
    → set_holding_float32 s address bits
      ≡ ok (record s {
        holding_registers =
            set
              (set s.holding_registers address (bits / 65536 % 65536))
              (address + 1)
              (bits % 65536);
      })
unfolding set_holding_float32
float32_written s address bits fits small =
    let inside : leb (length s.holding_registers) (address + 1) ≡ false = ground arith in
    let next : (address + 1) % 65536 ≡ address + 1 = omega arith in
    rw
      (
        inside,
        next,
        assign-eq_ok {E = AddressError} s.holding_registers address (bits / 65536 % 65536)
            (omega arith),
        assign-eq_ok {E = AddressError} (set s.holding_registers address (bits / 65536 % 65536))
            (address + 1) (bits % 65536)
            (omega (arith, length-set s.holding_registers address (bits / 65536 % 65536))),
      )
      refl

pub word_written :
    (s : Server) (address word : ℕ)
    → address < length s.holding_registers
    → set_register_word server_writer s (text "holding") address word
      ≡ ok (record s { holding_registers = set s.holding_registers address word })
unfolding set_register_word set_holding_register
word_written s address word fits =
    let inside : leb (length s.holding_registers) address ≡ false = ground arith in
    rw (inside, assign-eq_ok {E = AddressError} s.holding_registers address word fits) refl

-- A finite value that float32 can hold, put into two holding registers of the server at an address
-- with a register after it, leaves the server as SetHoldingFloat32 leaves it.
pub set_register_float32-server :
    {F : Type 0} (ops : FloatOps F) (s : Server) (v : RegisterValue F) (x : F)
    → v.reg_type ≡ text "holding"
    → ops.is_finite x ≡ true
    → ops.overflows x ≡ false
    → v.address < 65535
    → v.address + 1 < length s.holding_registers
    → (t : Server) × (set_register_float32 ops server_writer s v x ≡ ok t)
      × (set_holding_float32 s v.address (ops.to_bits x) ≡ ok t)
unfolding set_register_float32
set_register_float32-server ops s v x holding finite fits small inside =
    let bits = ops.to_bits x in
    let high = set s.holding_registers v.address (bits / 65536 % 65536) in
    let last : (v.address == 65535) ≡ false = ground arith in
    let next : (v.address + 1) % 65536 ≡ v.address + 1 = omega arith in
    (
      record s { holding_registers = set high (v.address + 1) (bits % 65536) },
      rw
          (
            finite,
            last,
            fits,
            holding,
            next,
            word_written s v.address (bits / 65536 % 65536) (omega arith),
            word_written (record s { holding_registers = high }) (v.address + 1) (bits % 65536)
                (omega (arith, length-set s.holding_registers v.address (bits / 65536 % 65536))),
          )
          refl,
      float32_written s v.address bits inside small,
    )
