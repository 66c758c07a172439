-- ===== src/Events.antt =====
-- internal/events: the event envelope and the synchronous bus.
pub mod Event
pub mod Bus
