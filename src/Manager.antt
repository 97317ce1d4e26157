-- ===== src/Manager.antt =====
-- The manager of several servers (internal/servermgr/manager.go).
pub mod Apply
pub mod Run
pub mod Snapshot
