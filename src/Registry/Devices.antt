-- ===== src/Registry/Devices.antt =====
-- internal/devices/registry.go: devices and the endpoints that adapters own. The context is read
-- once at the start of a call; `Health` is left out.
use aqua_os.Common.{
  String, Bool, true, false, not, ◌&&◌, Option, none, some, List, [], Result, ok, err, ◌>>=◌, ◌>>◌,
  guard, Check, context_cancelled, entry_not_found, entry_exists, device_owned, name_required,
  device_update_orphans, endpoint_exceeds_device, Context, live, if◌then◌else◌, ◌==◌, string_eq,
  any,
}
use aqua_os.Common.Map.{Map, lookup, insert, delete}
use aqua_os.Domain.Ids.{validate_uuid}
use aqua_os.Domain.Entity.{Device, Endpoint, validate_capabilities, supports_all}
use aqua_os.Events.Event.{device_registered, device_updated, device_removed}
use aqua_os.Registry.Keyed.{Kind, Surroundings, Answer, emit, register, get, list}

pub record Registry : Type 0 where
  pub devices : Map String Device
  pub endpoints : Map String Endpoint
  pub started : Bool

unfoldable pub new_registry : Registry
new_registry = record { devices = []; endpoints = []; started = false }

unfoldable pub start : Registry → Registry
start r = record r { started = true }

unfoldable pub stop : Registry → Registry
stop r = record r { started = false }

abbrev pub device_kind : Kind Device
device_kind = record {
  source = "devices";
  id_of = λ d. d.id;
  with_id = λ d id. record d { id = id };
}

-- `validateDevice`.
unfoldable pub validate_device : Device → Check
validate_device d = do
  validate_uuid d.id
  guard (not (d.name == "")) name_required
  validate_capabilities d.capabilities

-- `Register`.
unfoldable pub register_device :
    Registry
    → Context
    → Device
    → Result String
    → Surroundings Device
    → Registry × Answer device_kind
register_device r ctx d fresh around =
    let (devices, answer) =
      register device_kind validate_device device_registered r.devices ctx d fresh around in
    (record r { devices = devices }, answer)

-- Some endpoint of the device has a capability that the device would not have.
unfoldable pub orphans : Device → Map String Endpoint → Bool
orphans d endpoints =
    any
      (λ (b : String × Endpoint).
        b.1.device_id == d.id && not (supports_all d.capabilities b.1.capabilities))
      endpoints

unfoldable pub update_known :
    Registry → Device → Surroundings Device → Option Device → Registry × Check
update_known r d around none = (r, err entry_not_found)
update_known r d around (some old) =
    if orphans d r.endpoints
    then (r, err device_update_orphans)
    else (record r { devices = insert d.id d r.devices }, emit around "devices" device_updated d)

unfoldable pub update_valid : Registry → Device → Surroundings Device → Check → Registry × Check
update_valid r d around (err x) = (r, err x)
update_valid r d around (ok _) = update_known r d around (lookup d.id r.devices)

-- `Update`.
unfoldable pub update_device : Registry → Context → Device → Surroundings Device → Registry × Check
update_device r ctx d around =
    if ctx.cancelled
    then (r, err context_cancelled)
    else update_valid r d around (validate_device d)

-- `Get` and `List`.
unfoldable pub get_device : Registry → Context → String → Result Device
get_device r ctx id = get device_kind r.devices ctx id

unfoldable pub list_devices : Registry → Context → Result (List Device)
list_devices r ctx = list device_kind r.devices ctx

-- Some endpoint names the device.
unfoldable pub owns : String → Map String Endpoint → Bool
owns id endpoints = any (λ (b : String × Endpoint). b.1.device_id == id) endpoints

unfoldable pub remove_known :
    Registry → String → Surroundings String → Option Device → Registry × Check
remove_known r id around none = (r, err entry_not_found)
remove_known r id around (some old) =
    if owns id r.endpoints
    then (r, err device_owned)
    else (record r { devices = delete id r.devices }, emit around "devices" device_removed id)

-- `Remove`.
unfoldable pub remove_device : Registry → Context → String → Surroundings String → Registry × Check
remove_device r ctx id around =
    if ctx.cancelled
    then (r, err context_cancelled)
    else remove_known r id around (lookup id r.devices)

-- The tests of an endpoint before the lock is taken.
unfoldable pub validate_endpoint : Endpoint → Check
validate_endpoint e = do
  validate_uuid e.id
  guard (not (e.name == "")) name_required
  validate_capabilities e.capabilities

abbrev pub EndpointAnswer : Type 0
EndpointAnswer = Option Endpoint × Check

unfoldable pub store_endpoint :
    Registry → Endpoint → Option Endpoint → Device → Registry × EndpointAnswer
store_endpoint r e (some old) d = (r, (none, err entry_exists))
store_endpoint r e none d =
    if not (supports_all d.capabilities e.capabilities)
    then (r, (none, err endpoint_exceeds_device))
    else (record r { endpoints = insert e.id e r.endpoints }, (some e, ok tt))

unfoldable pub attach : Registry → Endpoint → Option Device → Registry × EndpointAnswer
attach r e none = (r, (none, err entry_not_found))
attach r e (some d) = store_endpoint r e (lookup e.id r.endpoints) d

unfoldable pub attach_valid : Registry → Endpoint → Check → Registry × EndpointAnswer
attach_valid r e (err x) = (r, (none, err x))
attach_valid r e (ok _) = attach r e (lookup e.device_id r.devices)

unfoldable pub attach_named : Registry → Result Endpoint → Registry × EndpointAnswer
attach_named r (err x) = (r, (none, err x))
attach_named r (ok e) = attach_valid r e (validate_endpoint e)

unfoldable pub name_endpoint : Endpoint → Result String → Result Endpoint
name_endpoint e fresh = if e.id == "" then (do id ← fresh; ok (record e { id = id })) else ok e

-- `RegisterEndpoint`.
unfoldable pub register_endpoint :
    Registry → Context → Endpoint → Result String → Registry × EndpointAnswer
register_endpoint r ctx e fresh =
    if ctx.cancelled
    then (r, (none, err context_cancelled))
    else attach_named r (name_endpoint e fresh)

abbrev found_endpoint : Option Endpoint → Result Endpoint
found_endpoint none = err entry_not_found
found_endpoint (some e) = ok e

-- `Endpoint`.
unfoldable pub endpoint : Registry → Context → String → Result Endpoint
endpoint r ctx id = do live ctx; found_endpoint (lookup id r.endpoints)
