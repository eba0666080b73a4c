-- ===== src/Engine.antt =====
-- The event engine: core/src/engine/core and core/include/engine/core.
pub mod EventQueue
pub mod Simulation
pub mod Timeouts
pub mod Departures
pub mod Examples
