-- ===== src/Client/Laws.antt =====
-- What the loop of the client does when its connection is lost (cmd/client/main.go).
use mutil_modbus.Prelude.{
  ◌≡◌, refl, Bool, true, false, ◌||◌, none, Bool-cases, inl, inr, if◌then◌else◌,
}
use mutil_modbus.Prelude.Text.{Text, text, same, to_lower}
use mutil_modbus.Prelude.Float.{FloatOps}
use mutil_modbus.Go.{Go, ok, fail, panic, Runs}
use mutil_modbus.Collector.Point.{Client}
use mutil_modbus.Simulator.Load.{RegisterConfig}
use mutil_modbus.Client.{Error, Connection, read_numeric_register, after_read, turn}

abbrev pub is_known : Text → Bool
is_known t =
    same t (text "holding")
    || same t (text "input")
    || same t (text "coil")
    || same t (text "discrete")

module _ {F W : Type 0} (ops : FloatOps F) (client : Client W) (connection : Connection W) where
  turn_disconnected :
      (reg : RegisterConfig F) (w : W)
      → is_known (to_lower reg.type) ≡ true
      → turn ops client connection reg false w ≡ panic
  unfolding turn
  turn_disconnected reg w h = elim (Bool-cases (same (to_lower reg.type) (text "holding"))) [
    | inl a ↦ rw a refl
    | inr a ↦ elim (Bool-cases (same (to_lower reg.type) (text "input"))) [
      | inl b ↦ rw (a, b) refl
      | inr b ↦ elim (Bool-cases (same (to_lower reg.type) (text "coil"))) [
        | inl c ↦ rw (a, b, c) refl
        | inr c ↦
            let d : same (to_lower reg.type) (text "discrete") ≡ true = rw (a, b, c) at h in
            rw (a, b, c, d) refl
      ]
    ]
  ]

  -- When the read of a holding register ends with the error of a lost connection, its turn prints
  -- nothing: neither when the client is opened again and is read a second time, whether the second
  -- read gives a value or an error, nor when it cannot be opened, where there is no second read.
  -- `answer` is what the second read gives, if there is one, and not a panic. The client is there
  -- for the next turn if and only if it was opened again; without a client, the turn of a register
  -- of a known type makes the program panic in the state that was left.
  pub turn-lost :
      (reg following : RegisterConfig F) (w w' w'' last : W) (e : Error) (up : Bool)
      (answer : Go Error F)
      → to_lower reg.type ≡ text "holding"
      → is_known (to_lower following.type) ≡ true
      → read_numeric_register ops client reg true w ≡ (fail e, w')
      → connection.is_lost e ≡ true
      → connection.reopen w' ≡ (up, w'')
      → (if up
          then (read_numeric_register ops client reg true w'' ≡ (answer, last)) × Runs answer
          else (last ≡ w''))
      → (turn ops client connection reg true w ≡ ok (none, up, last))
        × (turn ops client connection following false last ≡ panic)
  unfolding turn after_read
  turn-lost reg following w w' w'' last e up answer h k r l o again =
      (if_lem up answer o again, turn_disconnected following last k)
    where
      if_lem :
          (b : Bool) (a : Go Error F)
          → connection.reopen w' ≡ (b, w'')
          → (if b
              then (read_numeric_register ops client reg true w'' ≡ (a, last)) × Runs a
              else (last ≡ w''))
          → turn ops client connection reg true w ≡ ok (none, b, last)
      if_lem true (ok value) o second = rw (h, r, l, o, second.0) refl
      if_lem true (fail second_error) o second = rw (h, r, l, o, second.0) refl
      if_lem true panic o second = absurd second.1
      if_lem false a o stays = rw (h, r, l, o, stays) refl
