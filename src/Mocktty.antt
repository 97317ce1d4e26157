-- ===== src/Mocktty.antt =====
-- The mock RTU device, cmd/mocktty.
pub mod Store
pub mod Pdu
pub mod Stream
