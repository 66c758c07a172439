-- ===== src/Registry.antt =====
-- internal/devices, internal/sensors and internal/equipment: the registries of devices with their
-- endpoints, of sensors and of equipment, and the ownership that holds between them.
pub mod Keyed
pub mod Devices
pub mod Sensors
pub mod Equipment
pub mod Owners
