-- ===== src/Equipment.antt =====
-- internal/equipment: the equipment state machine, safety profiles and the registry.
pub mod Machine
pub mod Profile
