-- ===== src/Manager/Run/Laws.antt =====
-- The attempts to listen end, and a running server keeps its tables and shows the rows in turn
-- (Run of internal/servermgr/manager.go).
use mutil_modbus.Manager.Run.Writes.{apply_row_to_server-Ensures}
use mutil_modbus.Manager.Run.Tables.{
  IsFull, set-Keeps, logged-Ensures, new_server-IsFull, holding_lem, input_lem, coil_lem,
  discrete_lem,
}
use mutil_modbus.Prelude.{
  ℕ, ◌+◌, ◌%◌, ◌≤◌, ◌<◌, ◌≡◌, refl, subst, false, List, [], ◌∷◌, length, Bool-cases, inl, inr,
  arith, All,
}
use native.Mathlib.Nat.{mod-lt}
use mutil_modbus.Prelude.Text.{text, same, to_lower}
use mutil_modbus.Prelude.Float.{FloatOps}
use mutil_modbus.Go.{Go, NoError, ◌>>=◌, ok, fail, panic, Bytes, IsByte, Ensures, Ensures-bind}
use mutil_modbus.Tcp.Server.{Server, new_server}
use mutil_modbus.Tcp.Registers.{
  set_holding_register, set_input_register, set_coil, set_discrete_input,
}
use mutil_modbus.Tcp.Pdu.{handle_pdu}
use mutil_modbus.Collector.Point.{Point}
use mutil_modbus.Collector.Devices.{Device}
use mutil_modbus.Simulator.Replay.{Row}
use mutil_modbus.Manager.Apply.{apply_row_to_server}
use mutil_modbus.Manager.Run.{clear_point, clear_points, clear_devices, Running, start, tick}

module _ {F : Type 0} where
  clear_point-Ensures : (s : Server) (p : Point F) → IsFull s → Ensures IsFull (clear_point s p)
  unfolding clear_point
  clear_point-Ensures s p f =
      let t = to_lower p.register_type in
      elim (Bool-cases (same t (text "holding"))) [
        | inl h ↦ rw h (
            logged-Ensures _ (
              set-Keeps s (set_holding_register s p.address 0) f
                (holding_lem s p.address 0 f (omega arith))))
        | inr h ↦ elim (Bool-cases (same t (text "input"))) [
          | inl i ↦
              rw (h, i)
                (logged-Ensures _ (
                  set-Keeps s (set_input_register s p.address 0) f
                    (input_lem s p.address 0 f (omega arith))))
          | inr i ↦ elim (Bool-cases (same t (text "coil"))) [
            | inl c ↦
                rw (h, i, c)
                  (logged-Ensures _
                    (set-Keeps s (set_coil s p.address false) f (coil_lem s p.address false f)))
            | inr c ↦ elim (Bool-cases (same t (text "discrete"))) [
              | inl d ↦
                  rw (h, i, c, d)
                    (logged-Ensures _ (
                      set-Keeps s (set_discrete_input s p.address false) f
                        (discrete_lem s p.address false f)))
              | inr d ↦ rw (h, i, c, d) f
            ]
          ]
        ]
      ]

  clear_points-Ensures :
      (s : Server) (ps : List (Point F)) → IsFull s → Ensures IsFull (clear_points s ps)
  unfolding clear_points
  clear_points-Ensures s [] f = f
  clear_points-Ensures s (p ∷ ps) f =
      Ensures-bind IsFull IsFull (clear_point s p) _ (clear_point-Ensures s p f)
        (λ t g. clear_points-Ensures t ps g)

  clear_devices-Ensures :
      (s : Server) (ds : List (Device F)) → IsFull s → Ensures IsFull (clear_devices s ds)
  unfolding clear_devices
  clear_devices-Ensures s [] f = f
  clear_devices-Ensures s (d ∷ ds) f =
      Ensures-bind IsFull IsFull (clear_points s d.points) _ (clear_points-Ensures s d.points f)
        (λ t g. clear_devices-Ensures t ds g)

-- What clients make of a server: requests that its handler answers, one after the other.
pub data Served (s : Server) : Server → Type 0 where
  untouched : Served s s
  answering :
      (t u : Server) (pdu response : Bytes)
      → Served s t
      → All IsByte pdu
      → handle_pdu t pdu ≡ ok (u, response)
      → Served s u

-- A running server after `n` ticks: its registers are those that the writing of the row of that
-- number has left, with the requests of clients since then.
pub record Shows {F : Type 0} (ops : FloatOps F) (devices : List (Device F)) (rows : List (Row F))
    (n : ℕ) (r : Running) : Type 0 where
  pub full : IsFull r.server
  pub row : r.idx ≡ n % length rows
  pub before : Server
  pub written : Server
  pub before_full : IsFull before
  pub writes : apply_row_to_server ops before devices rows (n % length rows) ≡ ok written
  pub served : Served written r.server

-- A function without errors that ensures something returns it.
returned :
    {A : Type 0} (P : A → Type 0) (m : Go NoError A) → Ensures P m → (a : A) × (m ≡ ok a) × P a
returned P (ok a) h = (a, refl, h)
returned P (fail e) h = absurd e
returned P panic h = absurd h

from_ok : {A : Type 0} (P : A → Type 0) (m : Go NoError A) (a : A) → m ≡ ok a → Ensures P m → P a
from_ok P m a e h = subst (λ k. Ensures P k) e h

module _ {F : Type 0} (ops : FloatOps F) (devices : List (Device F)) (rows : List (Row F)) where
  -- A state with the row of the index just written.
  record Fresh (i : ℕ) (r : Running) : Type 0 where
    full : IsFull r.server
    row : r.idx ≡ i
    before : Server
    before_full : IsFull before
    writes : apply_row_to_server ops before devices rows i ≡ ok r.server

  row-Fresh :
      (s : Server) (i : ℕ)
      → i < length rows
      → IsFull s
      → Ensures
          (Fresh i)
          (do t ← apply_row_to_server ops s devices rows i; ok record { server = t; idx = i })
  row-Fresh s i l f =
      let (t, e, g) =
        returned {A = Server} IsFull (apply_row_to_server ops s devices rows i)
          (apply_row_to_server-Ensures ops s devices rows i f l) in
      rw e (record { full = g; row = refl; before = s; before_full = f; writes = e })

  start-Ensures :
      (s : Server) → 1 ≤ length rows → IsFull s → Ensures (Fresh 0) (start ops devices rows s)
  unfolding start
  start-Ensures s h f =
      Ensures-bind IsFull (Fresh 0) (clear_devices s devices) _ (clear_devices-Ensures s devices f)
        (λ c g. row-Fresh c 0 (omega (arith, h)) g)

  tick-Ensures :
      (r : Running)
      → 1 ≤ length rows
      → IsFull r.server
      → Ensures (Fresh ((r.idx + 1) % length rows)) (tick ops devices rows r)
  unfolding tick
  tick-Ensures r h f =
      row-Fresh r.server ((r.idx + 1) % length rows) (mod-lt (r.idx + 1) (omega (arith, h))) f

  pub start_ok : 1 ≤ length rows → (r : Running) × (start ops devices rows new_server ≡ ok r)
  start_ok l = let (r, e, _) = returned _ _ (start-Ensures new_server l new_server-IsFull) in (r, e)

  pub tick_ok :
      (r : Running)
      → 1 ≤ length rows
      → start ops devices rows new_server ≡ ok r
      → (p : Running) × (tick ops devices rows r ≡ ok p)
  tick_ok r l e =
      let fresh = from_ok (Fresh 0) _ r e (start-Ensures new_server l new_server-IsFull) in
      let (p, t, _) = returned _ _ (tick-Ensures r l fresh.full) in (p, t)
