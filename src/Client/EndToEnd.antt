-- ===== src/Client/EndToEnd.antt =====
-- A value that the simulator writes into the server is what a client of the server reads
-- (cmd/server/main.go, internal/modbus/server.go and cmd/client/main.go).
use mutil_modbus.Prelude.{
  ℕ, suc, ◌+◌, ◌*◌, ◌/◌, ◌%◌, ◌^◌, ◌≡◌, ◌≤◌, ◌<◌, refl, sym, ap, ◌∙◌, true, false, [], ◌∷◌, length,
  length-set, set, get_elem?, get_elem?-set, some, ◌==◌, inl, inr, arith,
}
use mutil_modbus.Prelude.Text.{text, to_lower}
use mutil_modbus.Prelude.Float.{ℤ, pos, negsuc, signed, unsigned, FloatOps}
use mutil_modbus.Go.{ok, be16, index, high_byte, low_byte}
use mutil_modbus.Tcp.Server.{Server}
use mutil_modbus.Collector.Point.{Client}
use mutil_modbus.Simulator.Load.{RegisterConfig}
use mutil_modbus.Simulator.Replay.{
  RegisterValue, in_range, float_to_uint16, float_to_int16, set_register_float32,
  write_numeric_register,
}
use mutil_modbus.Simulator.Replay.Laws.{server_writer, word_written, signed-in_range}
use mutil_modbus.Client.{Error, decode_numeric, read_numeric_register}
use mutil_modbus.Client.Reads.{
  IsConnected, holding_content, content_one, content_two, be16-word, reads_as, Fits, words_of,
}

unsigned-in_range : (z : ℤ) → in_range z 0 65535 ≡ true → pos (unsigned 32768 z) ≡ z
unfolding unsigned
unsigned-in_range (pos n) h = let e : n % 65536 ≡ n = ground (arith, h) in ap pos e
unsigned-in_range (negsuc n) h = absurd (ground (arith, h))

unsigned-IsWord : (z : ℤ) → unsigned 32768 z < 65536
unfolding unsigned
unsigned-IsWord (pos n) = omega arith
unsigned-IsWord (negsuc n) = omega arith

module _ {F : Type 0} (ops : FloatOps F) (client : Client Server)
    (connected : IsConnected client) where
  -- The server after a word is put into a holding register, and what the client decodes.
  abbrev with_word : Server → ℕ → ℕ → Server
  with_word s a w = record s { holding_registers = set s.holding_registers a w }

  abbrev with_words : Server → ℕ → ℕ → Server
  with_words s a bits = record s {
    holding_registers =
        set (set s.holding_registers a (bits / 65536 % 65536)) (suc a) (bits % 65536);
  }

  uint16_read :
      (reg : RegisterConfig F) (s : Server) (w : ℕ)
      → to_lower reg.data_type ≡ text "uint16"
      → reg.address < length s.holding_registers
      → reg.address < 65536
      → w < 65536
      → read_numeric_register ops client reg true (with_word s reg.address w)
        ≡ (ok (ops.of_int (pos w)), with_word s reg.address w)
  unfolding read_numeric_register decode_numeric
  uint16_read reg s w d l m b =
      let (content, read, words) =
        holding_content client connected (with_word s reg.address w) reg.address 1 m (omega arith)
          (omega arith) (omega (arith, l, length-set s.holding_registers reg.address w)) in
      let written : get_elem? (set s.holding_registers reg.address w) reg.address ≡ some w =
        ground (arith, get_elem?-set s.holding_registers reg.address reg.address w) in
      let bytes =
        content_one (set s.holding_registers reg.address w) reg.address w content words written in
      rw (d, read, bytes, be16-word w [] b) refl

  int16_read :
      (reg : RegisterConfig F) (s : Server) (w : ℕ)
      → to_lower reg.data_type ≡ text "int16"
      → reg.address < length s.holding_registers
      → reg.address < 65536
      → w < 65536
      → read_numeric_register ops client reg true (with_word s reg.address w)
        ≡ (ok (ops.of_int (signed 32768 w)), with_word s reg.address w)
  unfolding read_numeric_register decode_numeric
  int16_read reg s w d l m b =
      let (content, read, words) =
        holding_content client connected (with_word s reg.address w) reg.address 1 m (omega arith)
          (omega arith) (omega (arith, l, length-set s.holding_registers reg.address w)) in
      let written : get_elem? (set s.holding_registers reg.address w) reg.address ≡ some w =
        ground (arith, get_elem?-set s.holding_registers reg.address reg.address w) in
      let bytes =
        content_one (set s.holding_registers reg.address w) reg.address w content words written in
      rw (d, read, bytes, be16-word w [] b) refl

  be16-next :
      (a b w : ℕ) → w < 65536 → be16 {E = Error} (a ∷ b ∷ high_byte w ∷ low_byte w ∷ []) 2 ≡ ok w
  unfolding be16 index
  be16-next a b w h = let e : w / 256 % 256 * 256 + w % 256 ≡ w = omega (arith, h) in rw e refl

  float32_read :
      (reg : RegisterConfig F) (s : Server) (bits : ℕ)
      → to_lower reg.data_type ≡ text "float32"
      → reg.address + 1 < length s.holding_registers
      → reg.address < 65536
      → bits < 2 ^ 32
      → read_numeric_register ops client reg true (with_words s reg.address bits)
        ≡ (ok (ops.of_bits bits), with_words s reg.address bits)
  unfolding read_numeric_register decode_numeric
  float32_read reg s bits d l m b =
      let hi = bits / 65536 % 65536 in
      let lo = bits % 65536 in
      let once = set s.holding_registers reg.address hi in
      let one = length-set s.holding_registers reg.address hi in
      let two = length-set once (suc reg.address) lo in
      let (content, read, words) =
        holding_content client connected (with_words s reg.address bits) reg.address 2 m
          (omega arith) (omega arith) (omega (arith, l, one, two)) in
      let first : get_elem? (set once (suc reg.address) lo) reg.address ≡ some hi = ground (
        arith,
        get_elem?-set once (suc reg.address) reg.address lo,
        get_elem?-set s.holding_registers reg.address reg.address hi,
      ) in
      let second : get_elem? (set once (suc reg.address) lo) (reg.address + 1) ≡ some lo =
        ground (arith, one, get_elem?-set once (suc reg.address) (reg.address + 1) lo) in
      let bytes =
        content_two (set once (suc reg.address) lo) reg.address hi lo content words first second in
      let whole : hi * 65536 + lo ≡ bits = omega (arith, b) in
      rw
        (
          d,
          read,
          bytes,
          be16-word hi (high_byte lo ∷ low_byte lo ∷ []) (omega arith),
          be16-next (high_byte hi) (low_byte hi) lo (omega arith),
          whole,
        )
        refl

  float32_written :
      (s : Server) (v : RegisterValue F) (x : F)
      → v.reg_type ≡ text "holding"
      → ops.is_finite x ≡ true
      → ops.overflows x ≡ false
      → v.address + 1 < length s.holding_registers
      → v.address + 1 < 65536
      → set_register_float32 ops server_writer s v x ≡ ok (with_words s v.address (ops.to_bits x))
  unfolding set_register_float32
  float32_written s v x holding finite fits l m =
      let hi = ops.to_bits x / 65536 % 65536 in
      let last : (v.address == 65535) ≡ false = ground (arith, m) in
      let next : (v.address + 1) % 65536 ≡ suc v.address = omega (arith, m) in
      rw
        (
          finite,
          last,
          fits,
          holding,
          next,
          word_written s v.address hi (omega (arith, l)),
          word_written (with_word s v.address hi) (suc v.address) (ops.to_bits x % 65536)
              (omega (arith, l, length-set s.holding_registers v.address hi)),
        )
        refl

  -- A value that fits the data type of a holding register of the server is written there by the
  -- simulator, and a client whose register has the same address and data type reads it back: as the
  -- rounded value for uint16 and int16, and as the float32 pattern of the value for float32. The client
  -- is connected to the server: for a read of 1 to 125 registers, it takes the content of the answer
  -- that the server's handler gives to this request. The registers that the value takes, two for a
  -- float32 and else one, are in the table and have addresses below 65536.
  pub write_numeric_register-read :
      (s : Server) (v : RegisterValue F) (reg : RegisterConfig F) (x : F)
      → v.reg_type ≡ text "holding"
      → reg.address ≡ v.address
      → to_lower reg.data_type ≡ v.data_type
      → Fits ops v.data_type x
      → v.address + words_of v.data_type ≤ length s.holding_registers
      → v.address + words_of v.data_type ≤ 65536
      → (t : Server) × (write_numeric_register ops server_writer s v x ≡ ok t)
        × (read_numeric_register ops client reg true t ≡ (ok (reads_as ops v.data_type x), t))
  unfolding write_numeric_register float_to_uint16 float_to_int16 set_register_float32
  write_numeric_register-read s v reg x holding a d (finite, inl (u, range)) l m =
      let w = unsigned 32768 (ops.round_to_int x) in
      let l' : v.address + 1 ≤ length s.holding_registers = rw u at l in
      let m' : v.address + 1 ≤ 65536 = rw u at m in
      (
        with_word s v.address w,
        rw (u, finite, range, holding) (word_written s v.address w (omega (arith, l'))),
        rw (u, sym a)
            (uint16_read reg s w (d ∙ u) (omega (arith, a, l')) (omega (arith, a, m'))
                (unsigned-IsWord (ops.round_to_int x))
              ∙ rw (unsigned-in_range (ops.round_to_int x) range) refl),
      )
  write_numeric_register-read s v reg x holding a d (finite, inr (inl (i, range))) l m =
      let w = unsigned 32768 (ops.round_to_int x) in
      let l' : v.address + 1 ≤ length s.holding_registers = rw i at l in
      let m' : v.address + 1 ≤ 65536 = rw i at m in
      (
        with_word s v.address w,
        rw (i, finite, range, holding) (word_written s v.address w (omega (arith, l'))),
        rw (i, sym a)
            (int16_read reg s w (d ∙ i) (omega (arith, a, l')) (omega (arith, a, m'))
                (unsigned-IsWord (ops.round_to_int x))
              ∙ rw (signed-in_range (ops.round_to_int x) range) refl),
      )
  write_numeric_register-read s v reg x holding a d (finite, inr (inr (f, fits, b))) l m =
      let l' : v.address + 2 ≤ length s.holding_registers = rw f at l in
      let m' : v.address + 2 ≤ 65536 = rw f at m in
      (
        with_words s v.address (ops.to_bits x),
        rw f (float32_written s v x holding finite fits (omega (arith, l')) (omega (arith, m'))),
        rw (f, sym a)
            (float32_read reg s (ops.to_bits x) (d ∙ f) (omega (arith, a, l'))
              (omega (arith, a, m')) b),
      )
