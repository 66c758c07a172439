-- ===== src/Safety.antt =====
-- internal/safety/engine.go: operating modes, overrides, hard limits and watchdogs.
pub mod Engine
pub mod Invariant
pub mod Accounting
pub mod Evaluate
pub mod Watchdog
