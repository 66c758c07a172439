-- ===== src/Registry/Sensors.antt =====
-- internal/sensors/registry.go: sensors, each of which belongs to an endpoint.
use aqua_os.Common.{
  String, Bool, false, true, not, Option, none, some, List, [], ◌∷◌, Result, err, ◌>>=◌, ◌>>◌,
  guard, Check, name_required, observe_only, ownership_lookup_required, endpoint_not_owned,
  exceeds_endpoint, Context, ◌==◌, string_eq,
}
use aqua_os.Common.Map.{Map}
use aqua_os.Domain.Ids.{validate_uuid}
use aqua_os.Domain.Float.{Float64}
use aqua_os.Domain.Measurement.{validate_quantity}
use aqua_os.Domain.Entity.{
  Sensor, Endpoint, Capability, observe, validate_capabilities, supports_all,
}
use aqua_os.Events.Event.{sensor_registered, sensor_updated, sensor_removed}
use aqua_os.Registry.Keyed.{Kind, Surroundings, Answer, register, update, get, list, remove}

pub record Registry : Type 0 where
  pub sensors : Map String Sensor
  pub started : Bool

unfoldable pub new_registry : Registry
new_registry = record { sensors = []; started = false }

unfoldable pub start : Registry → Registry
start r = record r { started = true }

unfoldable pub stop : Registry → Registry
stop r = record r { started = false }

abbrev pub sensor_kind : Kind Sensor
sensor_kind = record {
  source = "sensors";
  id_of = λ v. v.id;
  with_id = λ v id. record v { id = id };
}

-- The list is `[observe]`.
unfoldable pub only_observe : List Capability → Bool
only_observe (observe ∷ []) = true
only_observe _ = false

-- The tests of a sensor against the endpoint that it names.
unfoldable pub belongs : Sensor → Endpoint → Check
belongs v e = do
  guard (e.device_id == v.device_id) endpoint_not_owned
  guard (supports_all e.capabilities v.capabilities) exceeds_endpoint

unfoldable pub check_owner : Option (Context → String → Result Endpoint) → Context → Sensor → Check
check_owner none ctx v = err ownership_lookup_required
check_owner (some owners) ctx v = do e ← owners ctx v.endpoint_id; belongs v e

-- The zero of float64.
abbrev zero_float : Float64
zero_float = 0

-- `validate`; `owners` is the look-up of endpoints, if there is one.
unfoldable pub validate : Option (Context → String → Result Endpoint) → Context → Sensor → Check
validate owners ctx v = do
  validate_uuid v.id
  guard (not (v.name == "")) name_required
  validate_capabilities v.capabilities
  guard (only_observe v.capabilities) observe_only
  validate_quantity (record { kind = v.quantity; value = zero_float; units = v.units })
  check_owner owners ctx v

-- The operations, with the look-up of endpoints.
module _ (owners : Option (Context → String → Result Endpoint)) where
  -- `Register`.
  unfoldable pub register_sensor :
      Registry
      → Context
      → Sensor
      → Result String
      → Surroundings Sensor
      → Registry × Answer sensor_kind
  register_sensor r ctx v fresh around =
      let (sensors, answer) =
        register sensor_kind (validate owners ctx) sensor_registered r.sensors ctx v fresh around in
      (record r { sensors = sensors }, answer)

  -- `Update`.
  unfoldable pub update_sensor :
      Registry → Context → Sensor → Surroundings Sensor → Registry × Check
  update_sensor r ctx v around =
      let (sensors, answer) =
        update sensor_kind (validate owners ctx) sensor_updated r.sensors ctx v around in
      (record r { sensors = sensors }, answer)

-- `Get`, `List` and `Remove`.
unfoldable pub get_sensor : Registry → Context → String → Result Sensor
get_sensor r ctx id = get sensor_kind r.sensors ctx id

unfoldable pub list_sensors : Registry → Context → Result (List Sensor)
list_sensors r ctx = list sensor_kind r.sensors ctx

unfoldable pub remove_sensor : Registry → Context → String → Surroundings String → Registry × Check
remove_sensor r ctx id around =
    let (sensors, answer) = remove sensor_kind sensor_removed r.sensors ctx id around in
    (record r { sensors = sensors }, answer)
