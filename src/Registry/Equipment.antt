-- ===== src/Registry/Equipment.antt =====
-- internal/equipment/registry.go: equipment, each piece of which belongs to an endpoint.
use aqua_os.Common.{
  String, Bool, false, true, not, ◌||◌, Option, none, some, List, [], ◌∷◌, Result, err, ◌>>=◌, ◌>>◌,
  guard, Check, name_required, output_capability_required, ownership_lookup_required,
  endpoint_not_owned, exceeds_endpoint, Context, ◌==◌, string_eq,
}
use aqua_os.Common.Map.{Map}
use aqua_os.Domain.Ids.{validate_uuid}
use aqua_os.Domain.Entity.{
  Equipment, Endpoint, Capability, switch, variable_output, validate_capabilities, supports_all,
}
use aqua_os.Events.Event.{equipment_registered, equipment_updated, equipment_removed}
use aqua_os.Registry.Keyed.{Kind, Surroundings, Answer, register, update, get, list, remove}

pub record Registry : Type 0 where
  pub equipment : Map String Equipment
  pub started : Bool

unfoldable pub new_registry : Registry
new_registry = record { equipment = []; started = false }

unfoldable pub start : Registry → Registry
start r = record r { started = true }

unfoldable pub stop : Registry → Registry
stop r = record r { started = false }

abbrev pub equipment_kind : Kind Equipment
equipment_kind = record {
  source = "equipment";
  id_of = λ v. v.id;
  with_id = λ v id. record v { id = id };
}

-- The equipment switches or has a variable output.
unfoldable pub has_output : List Capability → Bool
has_output cs = supports_all cs (switch ∷ []) || supports_all cs (variable_output ∷ [])

-- The tests of a piece of equipment against the endpoint that it names.
unfoldable pub belongs : Equipment → Endpoint → Check
belongs v e = do
  guard (e.device_id == v.device_id) endpoint_not_owned
  guard (supports_all e.capabilities v.capabilities) exceeds_endpoint

unfoldable pub check_owner :
    Option (Context → String → Result Endpoint) → Context → Equipment → Check
check_owner none ctx v = err ownership_lookup_required
check_owner (some owners) ctx v = do e ← owners ctx v.endpoint_id; belongs v e

-- `validate`; `owners` is the look-up of endpoints, if there is one.
unfoldable pub validate : Option (Context → String → Result Endpoint) → Context → Equipment → Check
validate owners ctx v = do
  validate_uuid v.id
  guard (not (v.name == "")) name_required
  validate_capabilities v.capabilities
  guard (has_output v.capabilities) output_capability_required
  check_owner owners ctx v

-- The operations, with the look-up of endpoints.
module _ (owners : Option (Context → String → Result Endpoint)) where
  -- `Register`.
  unfoldable pub register_equipment :
      Registry
      → Context
      → Equipment
      → Result String
      → Surroundings Equipment
      → Registry × Answer equipment_kind
  register_equipment r ctx v fresh around =
      let (equipment, answer) =
        register equipment_kind (validate owners ctx) equipment_registered r.equipment ctx v fresh
          around in
      (record r { equipment = equipment }, answer)

  -- `Update`.
  unfoldable pub update_equipment :
      Registry → Context → Equipment → Surroundings Equipment → Registry × Check
  update_equipment r ctx v around =
      let (equipment, answer) =
        update equipment_kind (validate owners ctx) equipment_updated r.equipment ctx v around in
      (record r { equipment = equipment }, answer)

-- `Get`, `List` and `Remove`.
unfoldable pub get_equipment : Registry → Context → String → Result Equipment
get_equipment r ctx id = get equipment_kind r.equipment ctx id

unfoldable pub list_equipment : Registry → Context → Result (List Equipment)
list_equipment r ctx = list equipment_kind r.equipment ctx

unfoldable pub remove_equipment :
    Registry → Context → String → Surroundings String → Registry × Check
remove_equipment r ctx id around =
    let (equipment, answer) = remove equipment_kind equipment_removed r.equipment ctx id around in
    (record r { equipment = equipment }, answer)
