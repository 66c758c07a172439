-- ===== src/Scenarios/Safety.antt =====
-- The heater's controller: an allowed activation, a stop, and a watchdog that trips.
use aqua_os.Common.{
  string_eq, ◌≡◌, refl, true, false, some, [], ◌∷◌, ok, All, sub_time, add_duration, wrap_int64,
  to_signed,
}
use aqua_os.Common.Map.{lookup, insert}
use aqua_os.Domain.Ids.{is_hex, dash_at, strip, decodes, has_frame, validate_codes, validate_uuid}
use aqua_os.Domain.Entity.{
  validate, validate_from, validate_capabilities, supports_all, capability_beq,
}
use aqua_os.Equipment.Profile.{
  Profile, validate_hazard, validate_kind, validate_limits, validate_input, validate_inputs,
  validate_profile,
}
use aqua_os.Safety.Engine.{
  maximum_on_reason, input_missing, Override, Engine, WatchdogAction, zero_runtime, empty,
  add_profiles, new_engine,
}
use aqua_os.Safety.Accounting.{
  roll_date, add_elapsed, account_runtime, get_runtime, put_runtime, account, report,
  record_reported,
}
use aqua_os.Safety.Evaluate.{
  allow, hard, judge_input, hard_limit_hit, hazard_check, decide, evaluate_known, evaluate,
}
use aqua_os.Safety.Evaluate as Decide
use aqua_os.Safety.Evaluate.Policy.{MayActivate, evaluate_iff}
use aqua_os.Safety.Watchdog.{
  expire_overrides, limit_reached, settle, check_one, check_profiles, sweep, check_watchdogs,
}
use aqua_os.Safety.Invariant.{Inv}
use aqua_os.Safety.Invariant.Loops.{IsSafeAction, check_watchdogs-IsSafeAction}
use aqua_os.Safety.Invariant.Reach.{Reach, here, next, records, watches, reachable_engine-Inv}
use aqua_os.Scenarios.Data.{
  heater_id, heater_profile, live_context, flooded, silent, controller, switch_on,
}

dry_heater_refused :
    (evaluate silent controller live_context 5 switch_on).1 ≡ ok (hard input_missing)
unfolding evaluate evaluate_known account account_runtime roll_date add_elapsed get_runtime
    put_runtime decide hard_limit_hit hazard_check Decide.validate_inputs judge_input lookup insert
dry_heater_refused = refl

evaluate_iff_example :
    (p : Profile) × (lookup heater_id controller.profiles ≡ some p)
    × (true ≡ true → MayActivate flooded controller p switch_on 100)
unfolding evaluate evaluate_known account account_runtime roll_date add_elapsed get_runtime
    put_runtime decide hard_limit_hit hazard_check Decide.validate_inputs judge_input lookup insert
evaluate_iff_example = (evaluate_iff flooded controller live_context 5 switch_on refl).0 refl

abbrev pass : Override
pass = record {
  id = "";
  equipment_id = heater_id;
  requester = "keeper";
  reason = "";
  created_at = 1;
  expires_at = 1000;
}

abbrev built : Engine
built = record controller { started = false }

built_by_new_engine : new_engine (heater_profile ∷ []) ≡ ok built
unfolding new_engine add_profiles empty validate_profile validate_uuid validate_codes has_frame
    strip decodes is_hex dash_at validate_capabilities validate_from validate supports_all
    capability_beq validate_kind validate_hazard validate_limits validate_inputs validate_input
    lookup insert
built_by_new_engine = refl

-- The heater reported on at 100.
abbrev heating : Engine
heating = record built {
  runtime =
      (
        heater_id,
        record zero_runtime {
          on = true;
          on_since = 100;
          daily_date = some 0;
          last_accounted = 100;
        },
      )
      ∷ [];
}

heating_recorded : record_reported built live_context heater_id true 100 ≡ ok heating
unfolding record_reported account account_runtime roll_date add_elapsed get_runtime put_runtime
    report lookup insert
heating_recorded = refl

heating_reached : Reach built heating
heating_reached = next here (records live_context heater_id true 100 heating_recorded)

reachable_engine-Inv_example : Inv (check_watchdogs heating live_context 60000000100).0
reachable_engine-Inv_example =
    reachable_engine-Inv (heater_profile ∷ []) built_by_new_engine
      (next heating_reached (watches live_context 60000000100))

abbrev shut_down : WatchdogAction
shut_down = record {
  equipment_id = heater_id;
  turn_on = false;
  reason = maximum_on_reason;
  observed_at = 60000000100;
}

heating_trips : (check_watchdogs heating live_context 60000000100).1 ≡ ok (shut_down ∷ [])
unfolding check_watchdogs sweep expire_overrides check_profiles check_one settle limit_reached
    account account_runtime roll_date add_elapsed get_runtime put_runtime lookup insert sub_time
    add_duration wrap_int64 to_signed
heating_trips = refl

check_watchdogs-IsSafeAction_example :
    ((check_watchdogs heating live_context 60000000100).0.profiles ≡ heating.profiles)
    × All (IsSafeAction heating.profiles) (shut_down ∷ [])
check_watchdogs-IsSafeAction_example =
    check_watchdogs-IsSafeAction heating live_context 60000000100
      (reachable_engine-Inv (heater_profile ∷ []) built_by_new_engine heating_reached) heating_trips
