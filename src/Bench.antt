-- ===== src/Bench.antt =====
-- internal/bench: the application service between the device adapters and the core.
pub mod Coordinator
