-- ===== src/Equipment/Profile.antt =====
-- internal/equipment/profile.go: safety profiles and their validation.
pub mod Safe
use aqua_os.Common.{
  String, Bool, true, false, not, ◌&&◌, ◌||◌, Option, List, [], ◌∷◌, ok, err, ◌>>=◌, ◌>>◌, guard,
  Check, Error, controlled_capabilities_required, hazardous_required, maximum_on_required,
  safety_input_required, unsupported_equipment_kind, negative_limit, maximum_on_exceeds_daily,
  hazardous_fail_safe_on, maximum_daily_on_required, safety_input_not_observation,
  safety_input_id_invalid, Duration, ltb_ℤ, leb_ℤ, pos, if◌then◌else◌, ◌==◌, string_eq,
}
use aqua_os.Domain.Ids.{validate_uuid}
use aqua_os.Domain.Entity.{
  Capability, switch, command_acknowledgement, reported_state, validate_capabilities, supports_all,
}
use aqua_os.State.Key.{Key, EntityKind, sensor, Plane, observation}

pub data Kind : Type 0 where
  outlet heater return_pump circulation_pump ato dosing_pump light : Kind
  other_kind : String → Kind

pub record InputRequirement : Type 0 where
  pub key : Key
  pub require_boolean : Option Bool

pub record Limits : Type 0 where
  pub maximum_on : Duration
  pub maximum_daily_on : Duration
  pub minimum_off : Duration

pub record Profile : Type 0 where
  pub equipment_id : String
  pub kind : Kind
  pub hazardous : Bool
  pub fail_safe_on : Bool
  pub capabilities : List Capability
  pub limits : Limits
  pub open limits use *
  pub required_inputs : List InputRequirement

abbrev controlled : List Capability
controlled = switch ∷ command_acknowledgement ∷ reported_state ∷ []

abbrev is_empty {ℓ} : {A : Type ℓ} → List A → Bool
is_empty [] = true
is_empty (x ∷ xs) = false

-- What heaters, top-off and dosing equipment must declare.
unfoldable pub validate_hazard : Profile → Check
validate_hazard p = do
  guard p.hazardous hazardous_required
  guard (ltb_ℤ (pos 0) p.maximum_on) maximum_on_required
  guard (not (is_empty p.required_inputs)) safety_input_required

-- The `switch` on the kind.
unfoldable pub validate_kind : Kind → Profile → Check
unfolding validate_hazard
validate_kind heater p = validate_hazard p
validate_kind ato p = validate_hazard p
validate_kind dosing_pump p = validate_hazard p
validate_kind (other_kind s) p = err unsupported_equipment_kind
validate_kind _ p = ok tt

abbrev is_dosing : Kind → Bool
is_dosing dosing_pump = true
is_dosing _ = false

abbrev is_sensor : EntityKind → Bool
is_sensor sensor = true
is_sensor _ = false

abbrev is_observation : Plane → Bool
is_observation observation = true
is_observation _ = false

unfoldable pub validate_limits : Profile → Check
validate_limits p = do
  guard
      (not (
        ltb_ℤ p.maximum_on (pos 0)
        || ltb_ℤ p.maximum_daily_on (pos 0)
        || ltb_ℤ p.minimum_off (pos 0)))
      negative_limit
  guard (not (ltb_ℤ (pos 0) p.maximum_daily_on && ltb_ℤ p.maximum_daily_on p.maximum_on))
      maximum_on_exceeds_daily
  guard (not (p.fail_safe_on && p.hazardous)) hazardous_fail_safe_on
  guard (not (is_dosing p.kind && leb_ℤ p.maximum_daily_on (pos 0))) maximum_daily_on_required

abbrev or_input_id_invalid : Check → Check
or_input_id_invalid (ok _) = ok tt
or_input_id_invalid (err _) = err safety_input_id_invalid

unfoldable pub validate_input : InputRequirement → Check
validate_input r = do
  guard (is_sensor r.key.entity_kind && is_observation r.key.plane && not (r.key.attribute == ""))
      safety_input_not_observation
  or_input_id_invalid (validate_uuid r.key.entity_id)

unfoldable pub validate_inputs : List InputRequirement → Check
unfolding validate_input
validate_inputs [] = ok tt
validate_inputs (r ∷ rs) = let rest = validate_inputs rs in do validate_input r; rest

-- `Profile.Validate`.
unfoldable pub validate_profile : Profile → Check
validate_profile p = do
  validate_uuid p.equipment_id
  validate_capabilities p.capabilities
  guard (supports_all p.capabilities controlled) controlled_capabilities_required
  validate_kind p.kind p
  validate_limits p
  validate_inputs p.required_inputs
