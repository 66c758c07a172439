-- ===== src/Registry/Owners/Backed.antt =====
-- internal/sensors/registry.go and internal/equipment/registry.go: what is accepted is backed by
-- an endpoint.
use aqua_os.Common.{
  String, true, some, List, Result, ok, err, ◌>>=◌, Context, ◌≡◌, refl, arith, ◌==◌, string_eq,
}
use aqua_os.Common.Map.{Map, lookup}
use aqua_os.Domain.Entity.{Capability, Endpoint, Sensor, Equipment, supports_all}
use aqua_os.Registry.Devices
use aqua_os.Registry.Sensors
use aqua_os.Registry.Equipment
use aqua_os.Registry.Owners.{System, lookup_of}

-- The named endpoint is registered, belongs to the named device and has the capabilities.
abbrev pub Backed : Map String Endpoint → String → String → List Capability → Type 0
Backed endpoints endpoint_id device_id capabilities =
    (e : Endpoint) × (lookup endpoint_id endpoints ≡ some e)
    × (e.device_id ≡ device_id)
    × (supports_all e.capabilities capabilities ≡ true)

abbrev pub BackedSensor : Map String Endpoint → Sensor → Type 0
BackedSensor endpoints v = Backed endpoints v.endpoint_id v.device_id v.capabilities

abbrev pub BackedEquipment : Map String Endpoint → Equipment → Type 0
BackedEquipment endpoints v = Backed endpoints v.endpoint_id v.device_id v.capabilities

-- Every endpoint of the first map is in the second one, as it is.
abbrev pub Keeps : Map String Endpoint → Map String Endpoint → Type 0
Keeps before after =
    (id : String) (e : Endpoint) → lookup id before ≡ some e → lookup id after ≡ some e

pub Backed-keep :
    (before after : Map String Endpoint) (endpoint_id device_id : String) (cs : List Capability)
    → Keeps before after
    → Backed before endpoint_id device_id cs
    → Backed after endpoint_id device_id cs
Backed-keep before after endpoint_id device_id cs keeps (e, found, owner, fits) =
    (e, keeps endpoint_id e found, owner, fits)

pub found_endpoint :
    (r : Devices.Registry) (ctx : Context) (id : String) (e : Endpoint)
    → Devices.endpoint r ctx id ≡ ok e
    → lookup id r.endpoints ≡ some e
unfolding Devices.endpoint
found_endpoint r ctx id e h = ground arith

-- A successful look-up followed by the tests of a sensor or of a piece of equipment.
owner_Backed :
    (r : Devices.Registry) (ctx : Context) (endpoint_id device_id : String) (cs : List Capability)
    (e : Endpoint)
    → Devices.endpoint r ctx endpoint_id ≡ ok e
    → (e.device_id == device_id) ≡ true
    → supports_all e.capabilities cs ≡ true
    → Backed r.endpoints endpoint_id device_id cs
owner_Backed r ctx endpoint_id device_id cs e h owner fits = (
  e,
  found_endpoint r ctx endpoint_id e h,
  (string_eq.beq_iff e.device_id device_id).0 owner,
  fits,
)

sensor_lookup_Backed :
    (r : Devices.Registry) (ctx : Context) (v : Sensor) (a : Result Endpoint)
    → Devices.endpoint r ctx v.endpoint_id ≡ a
    → (a >>= Sensors.belongs v) ≡ ok tt
    → BackedSensor r.endpoints v
unfolding Sensors.belongs
sensor_lookup_Backed r ctx v (err x) q h = cc
sensor_lookup_Backed r ctx v (ok e) q h =
    owner_Backed r ctx v.endpoint_id v.device_id v.capabilities e q (ground arith) (ground arith)

-- An accepted sensor is backed.
pub validate_sensor-Backed :
    (s : System) (ctx : Context) (v : Sensor)
    → Sensors.validate (some (lookup_of s)) ctx v ≡ ok tt
    → BackedSensor s.devices.endpoints v
unfolding Sensors.validate Sensors.check_owner
validate_sensor-Backed s ctx v h = sensor_lookup_Backed s.devices ctx v _ refl (ground arith)

equipment_lookup_Backed :
    (r : Devices.Registry) (ctx : Context) (v : Equipment) (a : Result Endpoint)
    → Devices.endpoint r ctx v.endpoint_id ≡ a
    → (a >>= Equipment.belongs v) ≡ ok tt
    → BackedEquipment r.endpoints v
unfolding Equipment.belongs
equipment_lookup_Backed r ctx v (err x) q h = cc
equipment_lookup_Backed r ctx v (ok e) q h =
    owner_Backed r ctx v.endpoint_id v.device_id v.capabilities e q (ground arith) (ground arith)

pub validate_equipment-Backed :
    (s : System) (ctx : Context) (v : Equipment)
    → Equipment.validate (some (lookup_of s)) ctx v ≡ ok tt
    → BackedEquipment s.devices.endpoints v
unfolding Equipment.validate Equipment.check_owner
validate_equipment-Backed s ctx v h = equipment_lookup_Backed s.devices ctx v _ refl (ground arith)
