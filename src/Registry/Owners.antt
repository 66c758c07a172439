-- ===== src/Registry/Owners.antt =====
-- The three registries together, as internal/app/container.go wires them: the registry of devices
-- is the look-up of endpoints of the other two. A sensor or a piece of equipment is checked
-- against the endpoints before its registry takes its lock, so other calls may come in between.
pub mod Owned
pub mod Backed
pub mod Reached
use aqua_os.Common.{String, Result, Context, some}
use aqua_os.Domain.Entity.{Device, Endpoint, Sensor, Equipment}
use aqua_os.Registry.Keyed.{Surroundings}
use aqua_os.Registry.Devices
use aqua_os.Registry.Sensors
use aqua_os.Registry.Equipment

pub record System : Type 0 where
  pub devices : Devices.Registry
  pub sensors : Sensors.Registry
  pub equipment : Equipment.Registry

abbrev pub new_system : System
new_system = record {
  devices = Devices.new_registry;
  sensors = Sensors.new_registry;
  equipment = Equipment.new_registry;
}

-- The look-up of endpoints that the registry of devices provides.
abbrev pub lookup_of : System → Context → String → Result Endpoint
lookup_of s = Devices.endpoint s.devices

-- Calls in any order. A call that checks an owner reads the endpoints of an earlier system.
pub data Reach : System → System → Type 0 where
  here : (s : System) → Reach s s
  registers_device :
      {o s : System} (ctx : Context) (d : Device) (fresh : Result String)
      (around : Surroundings Device)
      → Reach o s
      → Reach o (record s { devices = (Devices.register_device s.devices ctx d fresh around).0 })
  updates_device :
      {o s : System} (ctx : Context) (d : Device) (around : Surroundings Device)
      → Reach o s
      → Reach o (record s { devices = (Devices.update_device s.devices ctx d around).0 })
  removes_device :
      {o s : System} (ctx : Context) (id : String) (around : Surroundings String)
      → Reach o s
      → Reach o (record s { devices = (Devices.remove_device s.devices ctx id around).0 })
  registers_endpoint :
      {o s : System} (ctx : Context) (e : Endpoint) (fresh : Result String)
      → Reach o s
      → Reach o (record s { devices = (Devices.register_endpoint s.devices ctx e fresh).0 })
  registers_sensor :
      {o seen s : System} (ctx : Context) (v : Sensor) (fresh : Result String)
      (around : Surroundings Sensor)
      → Reach seen s
      → Reach o s
      → Reach o (record s {
        sensors = (Sensors.register_sensor (some (lookup_of seen)) s.sensors ctx v fresh around).0;
      })
  updates_sensor :
      {o seen s : System} (ctx : Context) (v : Sensor) (around : Surroundings Sensor)
      → Reach seen s
      → Reach o s
      → Reach o (record s {
        sensors = (Sensors.update_sensor (some (lookup_of seen)) s.sensors ctx v around).0;
      })
  removes_sensor :
      {o s : System} (ctx : Context) (id : String) (around : Surroundings String)
      → Reach o s
      → Reach o (record s { sensors = (Sensors.remove_sensor s.sensors ctx id around).0 })
  registers_equipment :
      {o seen s : System} (ctx : Context) (v : Equipment) (fresh : Result String)
      (around : Surroundings Equipment)
      → Reach seen s
      → Reach o s
      → Reach o (record s {
        equipment =
            (Equipment.register_equipment (some (lookup_of seen)) s.equipment ctx v fresh around).0;
      })
  updates_equipment :
      {o seen s : System} (ctx : Context) (v : Equipment) (around : Surroundings Equipment)
      → Reach seen s
      → Reach o s
      → Reach o (record s {
        equipment = (Equipment.update_equipment (some (lookup_of seen)) s.equipment ctx v around).0;
      })
  removes_equipment :
      {o s : System} (ctx : Context) (id : String) (around : Surroundings String)
      → Reach o s
      → Reach o (record s { equipment = (Equipment.remove_equipment s.equipment ctx id around).0 })
