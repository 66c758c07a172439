-- ===== src/Alarms.antt =====
-- internal/alarms: the alarm life cycle.
pub mod Alarm
pub mod Observe
pub mod Manager
