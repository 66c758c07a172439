-- ===== src/Lifecycle.antt =====
-- internal/lifecycle: the ordered start and stop of components.
pub mod Manager
