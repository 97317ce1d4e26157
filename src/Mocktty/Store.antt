-- ===== src/Mocktty/Store.antt =====
-- The registers of one endpoint (cmd/mocktty/main.go); each access is one step under the mutex.
use mutil_modbus.Prelude.{ℕ, ◌+◌, ◌%◌, Bool, false, true, List, replicate}
use mutil_modbus.Go.{Go, NoError, ok, ◌>>=◌, index, assign}

pub record Store : Type 0 where
  pub coils : List Bool
  pub discrete_inputs : List Bool
  pub holding : List ℕ
  pub input : List ℕ

unfoldable pub new_store : Store
new_store = record {
  coils = replicate 65536 false;
  discrete_inputs = replicate 65536 false;
  holding = replicate 65536 0;
  input = replicate 65536 0;
}

unfoldable pub set_holding : Store → ℕ → ℕ → Go NoError Store
set_holding st addr v = do holding ← assign st.holding addr v; ok (record st { holding = holding })

unfoldable pub set_input : Store → ℕ → ℕ → Go NoError Store
set_input st addr v = do input ← assign st.input addr v; ok (record st { input = input })

unfoldable pub set_coil : Store → ℕ → Bool → Go NoError Store
set_coil st addr v = do coils ← assign st.coils addr v; ok (record st { coils = coils })

unfoldable pub set_discrete : Store → ℕ → Bool → Go NoError Store
set_discrete st addr v = do
  inputs ← assign st.discrete_inputs addr v
  ok (record st { discrete_inputs = inputs })

-- One tick of the updater: `st.holding[100]++` on a uint16.
unfoldable pub tick : Store → Go NoError Store
tick st = do
  v ← index st.holding 100
  holding ← assign st.holding 100 ((v + 1) % 65536)
  ok (record st { holding = holding })

-- The demo values of a new endpoint.
unfoldable pub seed : Store → Go NoError Store
seed st = do
  s₁ ← set_holding st 100 1
  s₂ ← set_holding s₁ 101 2
  s₃ ← set_holding s₂ 102 0xABCD
  s₄ ← set_input s₃ 200 0xCAFE
  s₅ ← set_coil s₄ 0 true
  s₆ ← set_coil s₅ 2 true
  set_coil s₆ 3 true
