-- ===== src/Domain.antt =====
-- internal/domain: identities, capabilities, canonical values and measurements.
pub mod Ids
pub mod Float
pub mod Entity
pub mod Sorting
pub mod Value
pub mod Measurement
