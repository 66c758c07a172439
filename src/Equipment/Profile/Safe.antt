-- ===== src/Equipment/Profile/Safe.antt =====
-- internal/equipment/profile.go: which profiles `Validate` accepts.
use aqua_os.Common.{
  ◌≡◌, ◌≢◌, refl, ◌↔◌, Bool, true, false, List, [], ◌∷◌, ok, arith, pos, ◌≤ℤ◌, ◌<ℤ◌, All, eq_iff,
}
use aqua_os.Domain.Ids.{validate_uuid}
use aqua_os.Domain.Entity.{validate_capabilities, supports_all}
use aqua_os.State.Key.{sensor, observation}
use aqua_os.Equipment.Profile.{
  Kind, heater, ato, dosing_pump, other_kind, InputRequirement, Profile, controlled, validate_input,
  validate_inputs, validate_kind, validate_limits, validate_profile, validate_hazard,
}

-- Heaters, top-off and dosing equipment can do harm when left on.
abbrev pub is_dangerous : Kind → Bool
is_dangerous heater = true
is_dangerous ato = true
is_dangerous dosing_pump = true
is_dangerous _ = false

abbrev pub is_supported : Kind → Bool
is_supported (other_kind s) = false
is_supported _ = true

-- What a profile promises about its kind and its limits.
pub record IsSafe (p : Profile) : Type 0 where
  pub supported : is_supported p.kind ≡ true
  pub declared : is_dangerous p.kind ≡ true → p.hazardous ≡ true
  pub limited : is_dangerous p.kind ≡ true → pos 0 <ℤ p.maximum_on
  pub watched : is_dangerous p.kind ≡ true → p.required_inputs ≢ []
  pub dosed : p.kind ≡ dosing_pump → pos 0 <ℤ p.maximum_daily_on
  pub on_nonneg : pos 0 ≤ℤ p.maximum_on
  pub daily_nonneg : pos 0 ≤ℤ p.maximum_daily_on
  pub off_nonneg : pos 0 ≤ℤ p.minimum_off
  pub ordered : pos 0 <ℤ p.maximum_daily_on → p.maximum_on ≤ℤ p.maximum_daily_on
  pub fails_off : p.hazardous ≡ true → p.fail_safe_on ≡ false

-- An input reads an observation of a sensor under a named attribute.
abbrev pub IsObservation : InputRequirement → Type 0
IsObservation r =
    (r.key.entity_kind ≡ sensor)
    × (r.key.plane ≡ observation)
    × (r.key.attribute ≢ "")
    × (validate_uuid r.key.entity_id ≡ ok tt)

validate_input_iff : (r : InputRequirement) → (validate_input r ≡ ok tt) ↔ IsObservation r
unfolding validate_input
validate_input_iff r =
    (λ h. ground (arith, eq_iff r.key.attribute ""), λ h. ground (arith, eq_iff r.key.attribute ""))

validate_inputs_iff :
    (rs : List InputRequirement) → (validate_inputs rs ≡ ok tt) ↔ All IsObservation rs
unfolding validate_inputs
validate_inputs_iff [] = (λ h. tt, λ h. refl)
validate_inputs_iff (r ∷ rs) = (
  λ h. (
    (validate_input_iff r).0 (ground arith),
    (validate_inputs_iff rs).0 (ground (arith, validate_input_iff r)),
  ),
  λ (h, k). rw ((validate_input_iff r).1 h, (validate_inputs_iff rs).1 k),
)

IsSafe-iff :
    (p : Profile) → ((validate_kind p.kind p ≡ ok tt) × (validate_limits p ≡ ok tt)) ↔ IsSafe p
unfolding validate_kind validate_limits validate_hazard
IsSafe-iff p = (λ (h, k). ground arith, λ v. (ground arith, ground arith))

stages :
    (p : Profile)
    → validate_profile p ≡ ok tt
    → (validate_uuid p.equipment_id ≡ ok tt)
      × (validate_capabilities p.capabilities ≡ ok tt)
      × (supports_all p.capabilities controlled ≡ true)
      × (validate_kind p.kind p ≡ ok tt)
      × (validate_limits p ≡ ok tt)
      × (validate_inputs p.required_inputs ≡ ok tt)
unfolding validate_profile
stages p h = ground arith

-- `Profile.Validate` accepts exactly the profiles with a valid identity, declared capabilities
-- without repetition that include switching, acknowledgement and reported state, a safe
-- combination of kind and limits, and inputs that are sensor observations.
pub validate_profile_iff :
    (p : Profile)
    → (validate_profile p ≡ ok tt) ↔ (
        (validate_uuid p.equipment_id ≡ ok tt)
        × (validate_capabilities p.capabilities ≡ ok tt)
        × (supports_all p.capabilities controlled ≡ true)
        × IsSafe p
        × All IsObservation p.required_inputs)
unfolding validate_profile
validate_profile_iff p = (
  λ h.
      let (i, c, s, k, l, r) = stages p h in
      (i, c, s, (IsSafe-iff p).0 (k, l), (validate_inputs_iff p.required_inputs).0 r),
  λ (i, c, s, v, a).
      ground (arith, (IsSafe-iff p).1 v, (validate_inputs_iff p.required_inputs).1 a),
)
