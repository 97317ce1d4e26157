-- ===== src/Tests.antt =====
-- The theorems at small concrete inputs.
mod Tcp
mod Rtu
mod Sim
mod Collect
mod Client
mod Config
mod Manager
