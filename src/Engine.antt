-- ===== src/Engine.antt =====
-- internal/engine: the pacing engines and what they rest on.
pub mod Quorum
pub mod Ramping
pub mod Supervisor
pub mod Watchdog
pub mod Abort
pub mod Iterations
pub mod Worker
pub mod Context
pub mod Arrival
pub mod Drain
pub mod Constant
pub mod Executor
