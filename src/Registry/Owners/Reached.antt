-- ===== src/Registry/Owners/Reached.antt =====
-- internal/sensors/registry.go and internal/equipment/registry.go: what holds between the registries
-- through any interleaving of the calls.
use mathlib.Core.List.{Mem}
use aqua_os.Common.{String, false, some, List, ok, Context, ◌≡◌, arith, All, string_eq}
use aqua_os.Common.Map.{Map, lookup, insert, All-map, All-insert, All-delete, All-lookup}
use aqua_os.Domain.Entity.{Capability, Device, Endpoint, Sensor, Equipment}
use aqua_os.Domain.Entity.Sets.{supports_all_iff}
use aqua_os.Events.Event.{
  sensor_registered, sensor_updated, sensor_removed, equipment_registered, equipment_updated,
  equipment_removed,
}
use aqua_os.Registry.Keyed.Changes.{register-keeps, update-keeps, remove-keeps}
use aqua_os.Registry.Devices
use aqua_os.Registry.Sensors
use aqua_os.Registry.Equipment
use aqua_os.Registry.Owners.{
  System, new_system, lookup_of, Reach, here, registers_device, updates_device, removes_device,
  registers_endpoint, registers_sensor, updates_sensor, removes_sensor, registers_equipment,
  updates_equipment, removes_equipment,
}
use aqua_os.Registry.Owners.Owned.{
  Owned, AllOwned, register_device-AllOwned, update_device-AllOwned, remove_device-AllOwned,
  register_endpoint-AllOwned, update_device-endpoints, remove_device-endpoints,
  register_endpoint-kept,
}
use aqua_os.Registry.Owners.Backed.{
  Backed, BackedSensor, BackedEquipment, Keeps, Backed-keep, found_endpoint, validate_sensor-Backed,
  validate_equipment-Backed,
}

-- The endpoints of a system are among those of each later one.
Reach-Keeps : {o s : System} → Reach o s → Keeps o.devices.endpoints s.devices.endpoints
unfolding Devices.register_device
Reach-Keeps (here s) id e h = h
Reach-Keeps (registers_device ctx d fresh around r) id e h = Reach-Keeps r id e h
Reach-Keeps (updates_device {s = s} ctx d around r) id e h =
    rw (update_device-endpoints s.devices ctx d around) (Reach-Keeps r id e h)
Reach-Keeps (removes_device {s = s} ctx j around r) id e h =
    rw (remove_device-endpoints s.devices ctx j around) (Reach-Keeps r id e h)
Reach-Keeps (registers_endpoint {s = s} ctx n fresh r) id e h =
    register_endpoint-kept s.devices ctx n fresh id e (Reach-Keeps r id e h)
Reach-Keeps (registers_sensor ctx v fresh around early r) id e h = Reach-Keeps r id e h
Reach-Keeps (updates_sensor ctx v around early r) id e h = Reach-Keeps r id e h
Reach-Keeps (removes_sensor ctx j around r) id e h = Reach-Keeps r id e h
Reach-Keeps (registers_equipment ctx v fresh around early r) id e h = Reach-Keeps r id e h
Reach-Keeps (updates_equipment ctx v around early r) id e h = Reach-Keeps r id e h
Reach-Keeps (removes_equipment ctx j around r) id e h = Reach-Keeps r id e h

abbrev SensorsBacked : Map String Endpoint → Map String Sensor → Type 0
SensorsBacked endpoints m = All (λ (b : String × Sensor). BackedSensor endpoints b.1) m

abbrev EquipmentBacked : Map String Endpoint → Map String Equipment → Type 0
EquipmentBacked endpoints m = All (λ (b : String × Equipment). BackedEquipment endpoints b.1) m

-- What holds of the three registries between the calls.
pub record Inv (s : System) : Type 0 where
  pub owned : AllOwned s.devices
  pub sensors : SensorsBacked s.devices.endpoints s.sensors.sensors
  pub equipment : EquipmentBacked s.devices.endpoints s.equipment.equipment

-- The other registries, once the endpoints are kept.
Inv-devices :
    (s : System) (r : Devices.Registry)
    → Keeps s.devices.endpoints r.endpoints
    → AllOwned r
    → Inv s
    → Inv (record s { devices = r })
Inv-devices s r keeps owned i = record {
  owned = owned;
  sensors =
      All-map _ _ s.sensors.sensors
        (λ b.
          Backed-keep s.devices.endpoints r.endpoints b.1.endpoint_id b.1.device_id b.1.capabilities
            keeps)
        i.sensors;
  equipment =
      All-map _ _ s.equipment.equipment
        (λ b.
          Backed-keep s.devices.endpoints r.endpoints b.1.endpoint_id b.1.device_id b.1.capabilities
            keeps)
        i.equipment;
}

-- A sensor that was checked against an earlier system.
added_sensor :
    (seen s : System) (ctx : Context) (m : Map String Sensor) (v : Sensor)
    → Reach seen s
    → SensorsBacked s.devices.endpoints m
    → Sensors.validate (some (lookup_of seen)) ctx v ≡ ok tt
    → SensorsBacked s.devices.endpoints (insert v.id v m)
added_sensor seen s ctx m v early backed valid =
    All-insert (λ (b : String × Sensor). BackedSensor s.devices.endpoints b.1) v.id v m
      (Backed-keep seen.devices.endpoints s.devices.endpoints v.endpoint_id v.device_id
        v.capabilities (Reach-Keeps early) (validate_sensor-Backed seen ctx v valid))
      backed

added_equipment :
    (seen s : System) (ctx : Context) (m : Map String Equipment) (v : Equipment)
    → Reach seen s
    → EquipmentBacked s.devices.endpoints m
    → Equipment.validate (some (lookup_of seen)) ctx v ≡ ok tt
    → EquipmentBacked s.devices.endpoints (insert v.id v m)
added_equipment seen s ctx m v early backed valid =
    All-insert (λ (b : String × Equipment). BackedEquipment s.devices.endpoints b.1) v.id v m
      (Backed-keep seen.devices.endpoints s.devices.endpoints v.endpoint_id v.device_id
        v.capabilities (Reach-Keeps early) (validate_equipment-Backed seen ctx v valid))
      backed

Reach-Inv : {o s : System} → Inv o → Reach o s → Inv s
unfolding Devices.register_device Sensors.register_sensor Sensors.update_sensor
    Sensors.remove_sensor Equipment.register_equipment Equipment.update_equipment
    Equipment.remove_equipment
Reach-Inv i (here s) = i
Reach-Inv i (registers_device {s = s} ctx d fresh around r) =
    let j = Reach-Inv i r in
    Inv-devices s _ (λ id e h. h) (register_device-AllOwned s.devices ctx d fresh around j.owned) j
Reach-Inv i (updates_device {s = s} ctx d around r) =
    let j = Reach-Inv i r in
    Inv-devices s _ (λ id e h. rw (update_device-endpoints s.devices ctx d around) h)
      (update_device-AllOwned s.devices ctx d around j.owned) j
Reach-Inv i (removes_device {s = s} ctx id around r) =
    let j = Reach-Inv i r in
    Inv-devices s _ (λ k e h. rw (remove_device-endpoints s.devices ctx id around) h)
      (remove_device-AllOwned s.devices ctx id around j.owned) j
Reach-Inv i (registers_endpoint {s = s} ctx n fresh r) =
    let j = Reach-Inv i r in
    Inv-devices s _ (register_endpoint-kept s.devices ctx n fresh)
      (register_endpoint-AllOwned s.devices ctx n fresh j.owned) j
Reach-Inv i (registers_sensor {seen = seen} {s = s} ctx v fresh around early r) =
    let j = Reach-Inv i r in
    record {
      owned = j.owned;
      sensors =
          register-keeps Sensors.sensor_kind sensor_registered s.sensors.sensors
            (SensorsBacked s.devices.endpoints) (Sensors.validate (some (lookup_of seen)) ctx)
            j.sensors
            (λ w valid miss. added_sensor seen s ctx s.sensors.sensors w early j.sensors valid) ctx
            v fresh around;
      equipment = j.equipment;
    }
Reach-Inv i (updates_sensor {seen = seen} {s = s} ctx v around early r) =
    let j = Reach-Inv i r in
    record {
      owned = j.owned;
      sensors =
          update-keeps Sensors.sensor_kind sensor_updated s.sensors.sensors
            (SensorsBacked s.devices.endpoints) (Sensors.validate (some (lookup_of seen)) ctx)
            j.sensors
            (λ w old valid hit. added_sensor seen s ctx s.sensors.sensors w early j.sensors valid)
            ctx v around;
      equipment = j.equipment;
    }
Reach-Inv i (removes_sensor {s = s} ctx id around r) =
    let j = Reach-Inv i r in
    record {
      owned = j.owned;
      sensors =
          remove-keeps Sensors.sensor_kind sensor_removed s.sensors.sensors
            (SensorsBacked s.devices.endpoints) j.sensors ctx id around
            (All-delete _ id s.sensors.sensors j.sensors);
      equipment = j.equipment;
    }
Reach-Inv i (registers_equipment {seen = seen} {s = s} ctx v fresh around early r) =
    let j = Reach-Inv i r in
    record {
      owned = j.owned;
      sensors = j.sensors;
      equipment =
          register-keeps Equipment.equipment_kind equipment_registered s.equipment.equipment
            (EquipmentBacked s.devices.endpoints) (Equipment.validate (some (lookup_of seen)) ctx)
            j.equipment
            (λ w valid miss.
              added_equipment seen s ctx s.equipment.equipment w early j.equipment valid)
            ctx v fresh around;
    }
Reach-Inv i (updates_equipment {seen = seen} {s = s} ctx v around early r) =
    let j = Reach-Inv i r in
    record {
      owned = j.owned;
      sensors = j.sensors;
      equipment =
          update-keeps Equipment.equipment_kind equipment_updated s.equipment.equipment
            (EquipmentBacked s.devices.endpoints) (Equipment.validate (some (lookup_of seen)) ctx)
            j.equipment
            (λ w old valid hit.
              added_equipment seen s ctx s.equipment.equipment w early j.equipment valid)
            ctx v around;
    }
Reach-Inv i (removes_equipment {s = s} ctx id around r) =
    let j = Reach-Inv i r in
    record {
      owned = j.owned;
      sensors = j.sensors;
      equipment =
          remove-keeps Equipment.equipment_kind equipment_removed s.equipment.equipment
            (EquipmentBacked s.devices.endpoints) j.equipment ctx id around
            (All-delete _ id s.equipment.equipment j.equipment);
    }

-- Once an endpoint is registered, it is found as it was registered after any further calls of the
-- three registries: it is neither changed nor removed.
pub endpoint_permanent :
    (ctx : Context) (id : String) (e : Endpoint) {o s : System}
    → ctx.cancelled ≡ false
    → Devices.endpoint o.devices ctx id ≡ ok e
    → Reach o s
    → Devices.endpoint s.devices ctx id ≡ ok e
unfolding Devices.endpoint
endpoint_permanent ctx id e {o} {s} live_context found r =
    ground (arith, Reach-Keeps r id e (found_endpoint o.devices ctx id e found))

-- The capabilities that a list asks for are among those of a registered device.
abbrev pub SupportedBy : System → String → List Capability → Type 0
SupportedBy s device_id capabilities =
    (d : Device) × (lookup device_id s.devices.devices ≡ some d)
    × ((c : Capability) → Mem c capabilities → Mem c d.capabilities)

Backed-SupportedBy :
    (s : System) (endpoint_id device_id : String) (cs : List Capability)
    → AllOwned s.devices
    → Backed s.devices.endpoints endpoint_id device_id cs
    → SupportedBy s device_id cs
Backed-SupportedBy s endpoint_id device_id cs owned (e, found, owner, fits) =
    let (d, held, covers) =
      All-lookup (λ (b : String × Endpoint). Owned s.devices.devices b.1) endpoint_id e
        s.devices.endpoints owned found in
    (
      d,
      rw (← owner) held,
      λ c m.
          (supports_all_iff d.capabilities e.capabilities).0 covers c
            ((supports_all_iff e.capabilities cs).0 fits c m),
    )

new_Inv : Inv new_system
unfolding Devices.new_registry Sensors.new_registry Equipment.new_registry
new_Inv = record { owned = tt; sensors = tt; equipment = tt }

-- Whatever calls are made of new registries, in whatever order and with other calls between the
-- check of an owner and the store: the device that a registered sensor names is registered and has
-- the sensor's capabilities, and so for each registered piece of equipment.
pub registered-SupportedBy :
    {s : System}
    → Reach new_system s
    → All (λ (b : String × Sensor). SupportedBy s b.1.device_id b.1.capabilities) s.sensors.sensors
      × All
          (λ (b : String × Equipment). SupportedBy s b.1.device_id b.1.capabilities)
          s.equipment.equipment
registered-SupportedBy {s} r =
    let i = Reach-Inv new_Inv r in
    (
      All-map _ _ s.sensors.sensors
          (λ b. Backed-SupportedBy s b.1.endpoint_id b.1.device_id b.1.capabilities i.owned)
          i.sensors,
      All-map _ _ s.equipment.equipment
          (λ b. Backed-SupportedBy s b.1.endpoint_id b.1.device_id b.1.capabilities i.owned)
          i.equipment,
    )
