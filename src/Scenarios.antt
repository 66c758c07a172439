-- ===== src/Scenarios.antt =====
-- Concrete runs of the program: a heater, its controller, and its alarms.
mod Data
mod Domain
mod Equipment
mod Safety
mod Health
mod Lifecycle
mod State
mod Output
mod Alarms
mod Registry
mod Mqtt
mod Bench
mod Storage
mod Events
