-- ===== src/Manager/Run.antt =====
-- The life of one server of the manager (Run of internal/servermgr/manager.go): which servers are
-- started, the attempts to listen, the first values of the registers, and the steps while it runs.
-- Listening is a parameter on a state `N` of the network. The steps of a running server are the
-- ticks of its interval and the requests of its clients, in any order.
pub mod Tables
pub mod Writes
pub mod Attempts
pub mod Laws
use mutil_modbus.Prelude.{
  ℕ, zero, suc, ◌+◌, ◌%◌, ◌≡◌, All, Bool, true, false, ◌||◌, ◌&&◌, List, [], ◌∷◌, Option, none,
  some, length, ◌==◌, if◌then◌else◌,
}
use mutil_modbus.Prelude.Text.{Text, text, same, is_empty, to_lower, trim_space}
use mutil_modbus.Prelude.Float.{ℤ, pos, negsuc, FloatOps}
use mutil_modbus.Go.{Go, NoError, ok, fail, panic, ◌>>=◌, Bytes, IsByte}
use mutil_modbus.Tcp.Server.{Server, new_server}
use mutil_modbus.Tcp.Registers.{
  AddressError, set_holding_register, set_input_register, set_coil, set_discrete_input,
}
use mutil_modbus.Tcp.Pdu.{handle_pdu}
use mutil_modbus.Collector.Point.{Point}
use mutil_modbus.Collector.Devices.{Device}
use mutil_modbus.Simulator.Replay.{Row}
use mutil_modbus.Manager.Apply.{Written, set_or_refused, logged, apply_row_to_server}

-- The fields of collector.ServerConfig and its connection that the managers read.
pub record ServerConfig (F : Type 0) : Type 0 where
  pub server_id : Text
  pub server_name : Text
  pub protocol : Text
  pub host : Text
  pub port : ℤ
  pub timeout : ℤ
  pub retry_count : ℤ
  pub enabled : Bool
  pub csv_file : Text
  pub devices : List (Device F)

abbrev pub is_tcp : Text → Bool
is_tcp protocol =
    let proto = to_lower (trim_space protocol) in
    same proto (text "modbus-tcp") || same proto (text "tcp")

-- The servers that Run starts.
unfoldable pub to_start : {F : Type 0} → List (ServerConfig F) → List (ServerConfig F)
to_start [] = []
to_start (srv ∷ srvs) =
    let rest = to_start srvs in
    if srv.enabled then (if is_tcp srv.protocol then srv ∷ rest else rest) else rest

abbrev pub retries : ℤ → ℕ
retries (pos n) = n
retries (negsuc n) = 0

-- The loop of the attempts, with the number of those that are left behind this one.
unfoldable pub listen_loop : {N : Type 0} → (N → Bool × N) → ℕ → N → Option Server × N
listen_loop listen zero net =
    let (up, net') = listen net in if up then (some new_server, net') else (none, net')
listen_loop listen (suc left) net =
    let (up, net') = listen net in
    let again = listen_loop listen left net' in if up then (some new_server, net') else again

-- A server that runs, with the row that it shows.
pub record Running : Type 0 where
  pub server : Server
  pub idx : ℕ

module _ {F : Type 0} where
  unfoldable pub clear_point : Server → Point F → Go NoError Server
  clear_point s p =
      let reg_type = to_lower p.register_type in
      if same reg_type (text "holding")
      then logged (set_or_refused s (set_holding_register s p.address 0))
      else if same reg_type (text "input")
      then logged (set_or_refused s (set_input_register s p.address 0))
      else if same reg_type (text "coil")
      then logged (set_or_refused s (set_coil s p.address false))
      else if same reg_type (text "discrete")
      then logged (set_or_refused s (set_discrete_input s p.address false))
      else ok s

  unfoldable pub clear_points : Server → List (Point F) → Go NoError Server
  clear_points s [] = ok s
  clear_points s (p ∷ ps) = do t ← clear_point s p; clear_points t ps

  unfoldable pub clear_devices : Server → List (Device F) → Go NoError Server
  clear_devices s [] = ok s
  clear_devices s (d ∷ ds) = do t ← clear_points s d.points; clear_devices t ds

  module _ (ops : FloatOps F) (devices : List (Device F)) (rows : List (Row F)) where
    -- From the registers of a new server to the first row.
    unfoldable pub start : Server → Go NoError Running
    start s = do
      cleared ← clear_devices s devices
      first ← apply_row_to_server ops cleared devices rows 0
      ok record { server = first; idx = 0 }

    -- A tick of the interval, in the loop that has at least one row.
    unfoldable pub tick : Running → Go NoError Running
    tick r = do
      let idx = (r.idx + 1) % length rows
      server ← apply_row_to_server ops r.server devices rows idx
      ok record { server = server; idx = idx }

    pub data Step : Running → Running → Type 0 where
      ticked : (r q : Running) → tick r ≡ ok q → Step r q
      requested :
          (r : Running) (pdu response : Bytes) (s : Server)
          → All IsByte pdu
          → handle_pdu r.server pdu ≡ ok (s, response)
          → Step r (record { server = s; idx = r.idx })

    pub data Reached (r : Running) : Running → Type 0 where
      here : Reached r r
      after : (q p : Running) → Reached r q → Step q p → Reached r p

    -- How many ticks led to a reached state.
    unfoldable pub ticks : (r q : Running) → Reached r q → ℕ
    ticks r _ here = 0
    ticks r _ (after q _ h (ticked _ _ e)) = ticks r q h + 1
    ticks r _ (after q _ h (requested _ pdu response s b e)) = ticks r q h
