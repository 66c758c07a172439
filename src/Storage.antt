-- ===== src/Storage.antt =====
-- internal/storage: the bounded batch writer. The database client is not modelled.
pub mod Writer
