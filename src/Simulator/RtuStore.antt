-- ===== src/Simulator/RtuStore.antt =====
-- The registers of the simulator's RTU endpoint (cmd/server/main.go); each access is one step
-- under the mutex.
use mutil_modbus.Prelude.{ℕ, Bool, false, List, replicate}
use mutil_modbus.Go.{Go, NoError, ok, ◌>>=◌, assign}

pub record RtuStore : Type 0 where
  pub coils : List Bool
  pub discretes : List Bool
  pub holding : List ℕ
  pub input : List ℕ

unfoldable pub new_rtu_store : RtuStore
new_rtu_store = record {
  coils = replicate 65536 false;
  discretes = replicate 65536 false;
  holding = replicate 65536 0;
  input = replicate 65536 0;
}

unfoldable pub put_holding_register : RtuStore → ℕ → ℕ → Go NoError RtuStore
put_holding_register s a v = do holding ← assign s.holding a v; ok (record s { holding = holding })

unfoldable pub put_input_register : RtuStore → ℕ → ℕ → Go NoError RtuStore
put_input_register s a v = do input ← assign s.input a v; ok (record s { input = input })

unfoldable pub put_coil : RtuStore → ℕ → Bool → Go NoError RtuStore
put_coil s a v = do coils ← assign s.coils a v; ok (record s { coils = coils })

unfoldable pub put_discrete_input : RtuStore → ℕ → Bool → Go NoError RtuStore
put_discrete_input s a v = do
  discretes ← assign s.discretes a v
  ok (record s { discretes = discretes })
