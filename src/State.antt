-- ===== src/State.antt =====
-- internal/state: canonical state, its manager and its subscriptions.
pub mod Key
pub mod Entry
pub mod Snapshot
pub mod Manager
