-- ===== src/Mqtt.antt =====
-- internal/mqtt: the envelope and its codec, the consumer that suppresses duplicates, and the
-- router of commands. The connection to the broker is not modelled.
pub mod Envelope
pub mod Consumer
pub mod Topics
pub mod Router
