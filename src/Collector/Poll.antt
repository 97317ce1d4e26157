-- ===== src/Collector/Poll.antt =====
-- The polling of one device (internal/collector/client.go). The handler behind the client and its
-- connection are a parameter with a state `W`.
pub mod Complete
use mutil_modbus.Prelude.{
  ℕ, ◌+◌, ◌≡◌, refl, Bool, true, false, ◌||◌, List, [], ◌∷◌, ◌++◌, Option, none, some, length, map,
  ltb, ◌==◌, if◌then◌else◌, arith,
}
use mutil_modbus.Prelude.Text.{Text, text, same, is_empty, to_lower, to_upper, trim_space}
use mutil_modbus.Prelude.Float.{FloatOps}
use mutil_modbus.Go.{Go, ok, fail, panic, ◌>>=◌}
use mutil_modbus.Collector.Point.{Error, Point, Source, PointValue, Client, read_point}

-- What the loop of points meets outside: whether the context is over, the time, and the reopening
-- of the connection, with the state after each.
pub record Runtime (W : Type 0) : Type 0 where
  pub cancelled : W → Bool × W
  pub now : W → ℕ
  pub reconnect : W → Bool × W

pub data PollError : Type 0 where
  context_over : PollError
  read_error : Text → Error → PollError

-- How a poll ends: the error, the state, and the values that were handed to the handler in order.
pub data Polled (F W : Type 0) : Type 0 where
  polled : Option PollError → W → List (PointValue F) → Polled F W
  poll_panic : Polled F W

module _ {F W : Type 0} (ops : FloatOps F) (client : Client W) (runtime : Runtime W)
    (source : Source) where
  -- A read with one more try after a reconnect.
  unfoldable pub read_retry : Point F → W → Go Error (PointValue F) × W
  read_retry p w =
      let (first, w₁) = read_point ops client source p (runtime.now w) w in
      elim first [
        | ok v ↦ (ok v, w₁)
        | fail e ↦
            let (connected, w₂) = runtime.reconnect w₁ in
            if connected then read_point ops client source p (runtime.now w₂) w₂ else (fail e, w₂)
        | panic ↦ (panic, w₁)
      ]

  unfoldable pub poll_once : List (Point F) → W → List (PointValue F) → Polled F W
  poll_once [] w handed = polled none w handed
  poll_once (p ∷ ps) w handed =
      let (over, w₁) = runtime.cancelled w in
      let (result, w₂) = read_retry p w₁ in
      if over then polled (some context_over) w₁ handed else elim result [
        | ok v ↦ poll_once ps w₂ (handed ++ (v ∷ []))
        | fail e ↦ polled (some (read_error p.name e)) w₂ handed
        | panic ↦ poll_panic
      ]
