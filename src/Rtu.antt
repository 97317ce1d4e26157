-- ===== src/Rtu.antt =====
-- Modbus RTU: frames with a checksum.
pub mod Crc
