-- ===== src/Health.antt =====
-- internal/health: the aggregate health report.
pub mod Report
