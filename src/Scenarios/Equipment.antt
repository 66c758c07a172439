-- ===== src/Scenarios/Equipment.antt =====
-- A machine switched on, confirmed, and a profile that is safe.
use aqua_os.Common.{◌≡◌, ◌≢◌, refl, ◌⊎◌, true, false, List, [], ◌∷◌, ok}
use aqua_os.Domain.Ids.{is_hex, dash_at, strip, decodes, has_frame, validate_codes, validate_uuid}
use aqua_os.Domain.Entity.{
  validate, validate_from, validate_capabilities, supports_all, capability_beq,
}
use aqua_os.Equipment.Machine.{
  Machine, Transition, starting, on, command_on, acknowledged_on, reported_on, reported_off,
  new_machine, dispatch, apply, run,
}
use aqua_os.Equipment.Machine.Diagram.{Edge, apply_iff_Edge}
use aqua_os.Equipment.Machine.Reconciled.{report_of, pending_for, apply-reported}
use aqua_os.Equipment.Profile.{
  validate_hazard, validate_kind, validate_limits, validate_input, validate_inputs,
  validate_profile,
}
use aqua_os.Equipment.Profile.Safe.{IsSafe, validate_profile_iff}
use aqua_os.Scenarios.Data.{heater_profile}

abbrev waiting : Machine
waiting = record { state = starting; acknowledged = true }

abbrev history : List Transition
history = reported_off ∷ command_on ∷ acknowledged_on ∷ reported_on ∷ []

history_ends_on : run new_machine history ≡ record { state = on; acknowledged = false }
unfolding run new_machine apply dispatch
history_ends_on = refl

apply_iff_Edge_example : Edge starting true reported_on on
unfolding apply dispatch
apply_iff_Edge_example = (apply_iff_Edge waiting reported_on on).0 (refl, refl)

apply-reported_example :
    (reported_on ≡ report_of true) × ((starting ≢ pending_for true) ⊎ (true ≡ true))
apply-reported_example =
    apply-reported waiting reported_on true (unfold apply dispatch in refl) (λ e. cc)

heater_profile_valid : validate_profile heater_profile ≡ ok tt
unfolding validate_profile validate_uuid validate_codes has_frame strip decodes is_hex dash_at
    validate_capabilities validate_from validate supports_all capability_beq validate_kind
    validate_hazard validate_limits validate_inputs validate_input
heater_profile_valid = refl

validate_profile_iff_example : IsSafe heater_profile
validate_profile_iff_example = ((validate_profile_iff heater_profile).0 heater_profile_valid).3
