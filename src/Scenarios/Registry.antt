-- ===== src/Scenarios/Registry.antt =====
-- A controller with one endpoint, and a heater that is registered on it.
use aqua_os.Common.{
  String, ◌≡◌, refl, false, none, some, [], ◌∷◌, ok, err, device_owned, string_eq, All,
}
use aqua_os.Common.Map.{lookup, insert, delete}
use aqua_os.Domain.Entity.{
  Device, Endpoint, Sensor, Equipment, observe, switch, capability_beq, validate, validate_from,
  validate_capabilities, supports_all,
}
use aqua_os.Registry.Keyed.{
  Surroundings, register, register_named, assign_id, register_valid, store_new, emit, publish_to,
}
use aqua_os.Domain.Ids.{validate_uuid}
use aqua_os.Registry.Devices
use aqua_os.Registry.Equipment
use aqua_os.Registry.Owners.{
  System, new_system, lookup_of, Reach, here, registers_device, registers_endpoint,
  registers_equipment, removes_device,
}
use aqua_os.Registry.Owners.Reached.{endpoint_permanent, registered-SupportedBy, SupportedBy}
use aqua_os.Scenarios.Data.{heater_id, float_id, source_id, live_context, controls}

abbrev around : {A : Type 0} → Surroundings A
around = record {
  publisher = none;
  encode = λ a. ok "{}";
  json_valid = λ s. false;
  now = 5;
  fresh_correlation = err device_owned;
  correlation_id = "";
}

abbrev relay : Device
relay = record { id = float_id; name = "relay"; capabilities = observe ∷ controls; metadata = [] }

abbrev channel : Endpoint
channel = record { id = source_id; device_id = float_id; name = "channel"; capabilities = controls }

abbrev heater : Equipment
heater = record {
  id = heater_id;
  device_id = float_id;
  endpoint_id = source_id;
  name = "heater";
  capabilities = switch ∷ [];
  metadata = [];
}

abbrev with_relay : System
with_relay = record new_system {
  devices = (Devices.register_device new_system.devices live_context relay (ok "") around).0;
}

abbrev with_channel : System
with_channel = record with_relay {
  devices = (Devices.register_endpoint with_relay.devices live_context channel (ok "")).0;
}

-- The heater is checked before the removal of its device is tried, and stored after it.
abbrev after_removal : System
after_removal = record with_channel {
  devices = (Devices.remove_device with_channel.devices live_context float_id around).0;
}

abbrev with_heater : System
with_heater = record after_removal {
  equipment =
      (Equipment.register_equipment (some (lookup_of with_channel)) after_removal.equipment
        live_context heater (ok "") around).0;
}

reaches_channel : Reach new_system with_channel
reaches_channel =
    registers_endpoint live_context channel (ok "")
      (registers_device live_context relay (ok "") around (here new_system))

reaches_heater : Reach new_system with_heater
reaches_heater =
    registers_equipment live_context heater (ok "") around
      (removes_device live_context float_id around (here with_channel))
      (removes_device live_context float_id around reaches_channel)

-- The removal is refused, and the heater is stored.
heater_stored :
    (lookup heater_id with_heater.equipment.equipment ≡ some heater)
    × (lookup float_id with_heater.devices.devices ≡ some relay)
unfolding Equipment.register_equipment Equipment.new_registry Equipment.validate
    Equipment.has_output Equipment.check_owner Equipment.belongs Devices.new_registry
    Devices.register_device Devices.validate_device Devices.remove_device Devices.remove_known
    Devices.owns Devices.endpoint Devices.register_endpoint Devices.attach_named
    Devices.name_endpoint Devices.attach_valid Devices.validate_endpoint Devices.attach
    Devices.store_endpoint lookup insert delete register register_named assign_id register_valid
    store_new emit publish_to validate_uuid validate_capabilities supports_all capability_beq
    validate validate_from
heater_stored = (refl, refl)

endpoint_permanent_example :
    Devices.endpoint with_heater.devices live_context source_id ≡ ok channel
unfolding Devices.new_registry Devices.register_device Devices.validate_device Devices.endpoint
    Devices.register_endpoint Devices.attach_named Devices.name_endpoint Devices.attach_valid
    Devices.validate_endpoint Devices.attach Devices.store_endpoint lookup insert register
    register_named assign_id register_valid store_new emit publish_to validate_uuid
    validate_capabilities supports_all capability_beq validate validate_from
endpoint_permanent_example =
    endpoint_permanent live_context source_id channel {o = with_channel} {s = with_heater} refl refl
      (registers_equipment live_context heater (ok "") around
        (removes_device live_context float_id around (here with_channel))
        (removes_device live_context float_id around (here with_channel)))

registered-SupportedBy_example :
    All
      (λ (b : String × Sensor). SupportedBy with_heater b.1.device_id b.1.capabilities)
      with_heater.sensors.sensors
    × All
        (λ (b : String × Equipment). SupportedBy with_heater b.1.device_id b.1.capabilities)
        with_heater.equipment.equipment
registered-SupportedBy_example = registered-SupportedBy {s = with_heater} reaches_heater
