-- ===== src/Output.antt =====
-- internal/output: the only path of an equipment command.
pub mod Command
pub mod Service
pub mod Routes
pub mod Submit
pub mod Reconcile
pub mod Reach
