-- ===== src/Collector.antt =====
-- The collector (internal/collector).
pub mod Point
pub mod Settings
pub mod Manager
pub mod Records
pub mod Opening
pub mod Storage
pub mod Poll
pub mod Devices
pub mod Dedup
