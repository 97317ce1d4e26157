-- ===== src/Simulator.antt =====
-- The simulator (cmd/server/main.go): the RTU endpoint and the replay of recorded rows.
pub mod RtuStore
pub mod RtuPdu
pub mod RtuStream
pub mod Agreement
pub mod Replay
pub mod Load
