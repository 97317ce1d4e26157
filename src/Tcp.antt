-- ===== src/Tcp.antt =====
-- The Modbus TCP server, internal/modbus.
pub mod Server
pub mod Pdu
pub mod Registers
pub mod Connection
