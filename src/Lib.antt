-- ===== src/Lib.antt =====
-- AquaOS, an aquarium controller, in the parts that decide what the hardware may do.
--
-- A command for a piece of equipment enters the command service (internal/output/service.go), which
-- checks its form, its idempotency key, its expiry and the revision it expects, asks the safety
-- engine (internal/safety/engine.go), and hands it to an executor. The equipment reports back
-- through `Reconcile`, the only path to success; the watchdogs of the safety engine become commands
-- of the same service. The engine knows the equipment by its profile (internal/equipment/profile.go)
-- and reads sensors through the canonical state (internal/state/manager.go). Alarms follow
-- observations (internal/alarms/manager.go). Entities, values and identities are internal/domain,
-- the event envelope is internal/events/event.go. The registries of devices, sensors and equipment
-- (internal/devices, internal/sensors, internal/equipment) hold what the hardware is. Commands also
-- come from an MQTT broker (internal/mqtt), whose router calls the same command service.
--
-- Files:
--   Common     shared: results, maps as association lists, signed integers, Go's time package
--   Domain     Ids (domain/id.go), Entity (entity.go), Measurement (measurement.go, with float64 as
--              its bit pattern in Float), Value (value.go)
--   State      Key, Entry and Snapshot (`validate`, `snapshotLocked`), Manager (`Set`, `Get`,
--              `Delete`, `Subscribe`, `deliverLocked`) of state/manager.go
--   Equipment  Machine (`Machine.Apply` of machine.go), Profile (`Profile.Validate` of profile.go)
--   Safety     Engine, Accounting (`accountLocked`, `RecordReported`), Evaluate, Watchdog
--              (`CheckWatchdogs`) of safety/engine.go; Invariant, with every sequence of calls
--   Events     Event: the envelope, `Factory.New` and `Event.Validate`; Bus (bus.go), whose
--              handlers may use the bus, and Bus/Delivery
--   Output     Command, Routes (router.go), Service (`record`, `transition`, `emit`), Submit,
--              Reconcile (with `ExpireAcknowledged` and `RunWatchdogs`), and Reach, with every
--              sequence of calls
--   Alarms     Alarm (rules, evidence), Observe (`applyObservation`), Manager
--   Health     Report: the aggregate report of health/health.go
--   Lifecycle  Manager: `Start`, its rollback and `Stop` of lifecycle/manager.go
--   Registry   Keyed (the bodies that the three registries share), Devices, Sensors, Equipment, and
--              Owners, with every interleaving of the calls of the three
--   Mqtt       Envelope (the codec) and Consumer of mqtt/envelope.go, Topics (topics.go), Router
--              (command_router.go)
--   Bench      Coordinator: bench/coordinator.go, between the adapters and the core
--   Storage    Writer: storage/storage.go, the bounded batch writer
--   Scenarios  concrete runs
--
-- How the code is modelled. A component's state is a record, an operation is a function from the
-- state and its arguments to the new state and the `(value, error)` that Go returns. A Go map is a
-- list of bindings, of which the first for a key counts. An instant is its count of nanoseconds since
-- the zero instant, so instants before it are not represented; a duration is a signed 64-bit count,
-- `Sub` saturates, and sums wrap. What the code asks of others is a parameter: the clock, the random
-- source, the executor, the publisher, the JSON encoder. The command service takes them as fields
-- of `Env`, where each reading of the clock, each new identity and each answer may differ. No
-- function runs on fuel: every loop is a recursion on its list.
--
-- Most calls run to their end before the next one. Two calls that take a lock more than once have
-- parts that are steps of their own: the check of an owner and the store in the registries, and the
-- reservation and the release of a message in the consumer of MQTT. `Submit` too gives the lock up,
-- between the look-up of a key and the record: the theorems on the command service are about calls of
-- which none begins before the one before it has ended, and what two calls that overlap there can do
-- is a run in Scenarios/Output (`overlap_sends_twice`).
--
-- Not modelled: logging, the interleavings of the other calls, timers, HTTP, the connection to the
-- MQTT broker and the export of state to it, the database client, configuration files, device adapters, and the
-- services in other languages: they are I/O, or other languages than the controller's. The
-- configuration's validation is open.
pub mod Common
pub mod Domain
pub mod State
pub mod Health
pub mod Equipment
pub mod Safety
pub mod Events
pub mod Lifecycle
pub mod Output
pub mod Registry
pub mod Mqtt
pub mod Bench
pub mod Storage
pub mod Alarms
pub mod Scenarios
