-- ===== src/Tcp/Pdu/Singles.antt =====
-- What the writes of one coil and of one register do to the tables, on every branch.
use mutil_modbus.Prelude.{
  ℕ, ◌+◌, ◌*◌, ◌≤◌, ◌<◌, ◌≡◌, ◌≢◌, Bool, not, ◌&&◌, [], ◌∷◌, length, set, leb, ◌==◌, if◌then◌else◌,
  arith, Bool-cases, inl, inr,
}
use mutil_modbus.Go.{Go, ok, fail, Bytes, index, assign-eq_ok}
use mutil_modbus.Tcp.Server.{Error, out_of_range, invalid_value, Server}
use mutil_modbus.Tcp.Pdu.{echo, write_single_coil, write_single_register}
use mutil_modbus.Tcp.Pdu.Writes.{heads}

-- How a write of one coil ends.
pub data CoilWritten (s : Server) (a b c d : ℕ) : Go Error (Server × Bytes) → Type 0 where
  wrong_value : c * 256 + d ≢ 0xFF00 → c * 256 + d ≢ 0 → CoilWritten s a b c d (fail invalid_value)
  past_end : length s.coils ≤ a * 256 + b → CoilWritten s a b c d (fail out_of_range)
  stored :
      (value : Bool)
      → c * 256 + d ≡ (if value then 0xFF00 else 0)
      → a * 256 + b < length s.coils
      → CoilWritten s a b c d
          (ok (record s { coils = set s.coils (a * 256 + b) value }, 5 ∷ a ∷ b ∷ c ∷ d ∷ []))

pub write_single_coil-CoilWritten :
    (s : Server) (f a b c d : ℕ)
    → CoilWritten s a b c d (write_single_coil s (f ∷ a ∷ b ∷ c ∷ d ∷ []))
unfolding write_single_coil index echo
write_single_coil-CoilWritten s f a b c d =
    let address = a * 256 + b in
    let value = c * 256 + d in
    let (h₁, h₃) = heads f a b c d [] in
    rw (h₁, h₃)
      (elim (Bool-cases (not (value == 0xFF00) && not (value == 0))) [
        | inl bad ↦ rw bad (CoilWritten.wrong_value (ground arith) (ground arith))
        | inr good ↦ rw good (elim (Bool-cases (leb (length s.coils) address)) [
          | inl out ↦ rw out (CoilWritten.past_end (ground arith))
          | inr fits ↦
              rw (fits, assign-eq_ok s.coils address (value == 0xFF00) (ground arith))
                (CoilWritten.stored (value == 0xFF00) (ground arith) (ground arith))
        ])
      ])

-- How a write of one register ends.
pub data WordWritten (s : Server) (a b c d : ℕ) : Go Error (Server × Bytes) → Type 0 where
  past_end : length s.holding_registers ≤ a * 256 + b → WordWritten s a b c d (fail out_of_range)
  stored :
      a * 256 + b < length s.holding_registers
      → WordWritten s a b c d (
          ok (
            record s { holding_registers = set s.holding_registers (a * 256 + b) (c * 256 + d) },
            6 ∷ a ∷ b ∷ c ∷ d ∷ [],
          ))

pub write_single_register-WordWritten :
    (s : Server) (f a b c d : ℕ)
    → WordWritten s a b c d (write_single_register s (f ∷ a ∷ b ∷ c ∷ d ∷ []))
unfolding write_single_register index echo
write_single_register-WordWritten s f a b c d =
    let address = a * 256 + b in
    let (h₁, h₃) = heads f a b c d [] in
    rw (h₁, h₃)
      (elim (Bool-cases (leb (length s.holding_registers) address)) [
        | inl out ↦ rw out (WordWritten.past_end (ground arith))
        | inr fits ↦
            rw (fits, assign-eq_ok s.holding_registers address (c * 256 + d) (ground arith))
              (WordWritten.stored (ground arith))
      ])
