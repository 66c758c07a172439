-- ===== src/Safety/Evaluate.antt =====
-- internal/safety/engine.go: `Evaluate` and `validateInputs`, the decision on one intent.
pub mod Limits
pub mod Policy
use aqua_os.Common.{
  String, Bool, true, false, not, ◌&&◌, ◌||◌, Option, none, some, List, [], ◌∷◌, Result, ok, err,
  ◌>>=◌, ◌>>◌, Error, state_not_found, context_cancelled, Context, live, Time, is_zero, before,
  sub_time, ltb_ℤ, leb_ℤ, pos, if◌then◌else◌, string_eq,
}
use aqua_os.Common.Map.{lookup, delete}
use aqua_os.Domain.Measurement.{Quality, good, stale}
use aqua_os.Equipment.Profile.{Profile, InputRequirement}
use aqua_os.State.Entry.{Entry, StateReader}
use aqua_os.Safety.Engine.{
  Mode, normal, maintenance, manual, emergency_stop, Reason, allowed_reason, unknown_reason,
  stop_reason, override_required_reason, input_missing, input_invalid, input_stale, input_mismatch,
  maximum_on_reason, maximum_daily_on_reason, minimum_off_reason, Intent, Decision, Override,
  RuntimeState, Engine,
}
use aqua_os.Safety.Accounting.{account}

abbrev pub soft : Reason → Decision
soft r = record { allowed = false; reason = r; hard_limit = false; override_id = "" }

abbrev pub hard : Reason → Decision
hard r = record { allowed = false; reason = r; hard_limit = true; override_id = "" }

abbrev pub allow : String → Decision
allow id = record { allowed = true; reason = allowed_reason; hard_limit = false; override_id = id }

-- The requirement on a Boolean input: `none` asks for nothing.
abbrev pub mismatches : Option Bool → Option Bool → Bool
mismatches none v = false
mismatches (some w) none = true
mismatches (some true) (some v) = not v
mismatches (some false) (some v) = v

-- One round of `validateInputs`: `none` goes on to the next requirement.
unfoldable pub judge_input : InputRequirement → Result Entry → Option (Result Decision)
judge_input r (err state_not_found) = some (ok (hard input_missing))
judge_input r (err x) = some (err x)
judge_input r (ok v) = by_quality v.quality
  where
    by_quality : Quality → Option (Result Decision)
    by_quality stale = some (ok (hard input_stale))
    by_quality good =
        if mismatches r.require_boolean v.value.boolean
        then some (ok (hard input_mismatch))
        else none
    by_quality _ = some (ok (hard input_invalid))

-- An early return, or what follows.
abbrev pub first_answer : Option (Result Decision) → Result Decision → Result Decision
first_answer none rest = rest
first_answer (some answer) rest = answer

unfoldable pub validate_inputs : StateReader → List InputRequirement → Result Decision
validate_inputs read [] = ok (allow "")
validate_inputs read (r ∷ rs) =
    let rest = validate_inputs read rs in first_answer (judge_input r (read r.key)) rest

-- The hard limits, before any input is read: `none` lets the evaluation go on.
unfoldable pub hard_limit_hit : Mode → Profile → RuntimeState → Time → Option Reason
hard_limit_hit mode p r now =
    if is_stop mode
    then some stop_reason
    else if r.on && ltb_ℤ (pos 0) p.maximum_on && leb_ℤ p.maximum_on (sub_time now r.on_since)
    then some maximum_on_reason
    else if ltb_ℤ (pos 0) p.maximum_daily_on && leb_ℤ p.maximum_daily_on r.daily_on
    then some maximum_daily_on_reason
    else if not (is_zero r.off_since)
        && ltb_ℤ (pos 0) p.minimum_off
        && ltb_ℤ (sub_time now r.off_since) p.minimum_off
    then some minimum_off_reason
    else none
  where
    is_stop : Mode → Bool
    is_stop emergency_stop = true
    is_stop _ = false

abbrev pub needs_override : Mode → Bool
needs_override maintenance = true
needs_override manual = true
needs_override _ = false

abbrev pub unnamed : Option Override → Bool
unnamed none = true
unnamed (some o) = false

abbrev pub override_name : Option Override → String
override_name none = ""
override_name (some o) = o.id

-- The end of `Evaluate`, once no limit and no input stands against it.
abbrev pub by_mode : Mode → Option Override → Decision
by_mode mode o =
    if needs_override mode && unnamed o
    then soft override_required_reason
    else allow (override_name o)

-- The inputs of hazardous equipment decide first.
unfoldable pub hazard_check : StateReader → Profile → Result Decision
hazard_check read p = if p.hazardous then validate_inputs read p.required_inputs else ok (allow "")

abbrev pub after_inputs : Mode → Option Override → Result Decision → Result Decision
after_inputs mode o (ok checked) = ok (if not checked.allowed then checked else by_mode mode o)
after_inputs mode o (err x) = err x

abbrev pub after_limits :
    StateReader → Mode → Profile → Option Override → Option Reason → Result Decision
after_limits read mode p o (some reason) = ok (hard reason)
after_limits read mode p o none = after_inputs mode o (hazard_check read p)

-- `Evaluate` after the lookups, with the override that is still in force.
unfoldable pub decide :
    StateReader → Mode → Profile → RuntimeState → Option Override → Time → Bool → Result Decision
decide read mode p r o now false = ok (allow "")
decide read mode p r o now true = after_limits read mode p o (hard_limit_hit mode p r now)

-- An override in force at an instant.
abbrev pub in_force : Option Override → Time → Option Override
in_force none now = none
in_force (some o) now = if not (before now o.expires_at) then none else some o

abbrev pub drop_expired : Engine → String → Option Override → Time → Engine
drop_expired e id none now = e
drop_expired e id (some o) now =
    if not (before now o.expires_at) then record e { overrides = delete id e.overrides } else e

unfoldable pub evaluate_known :
    StateReader → Engine → Time → Intent → Option Profile → Engine × Result Decision
evaluate_known read e now i none = (e, ok (soft unknown_reason))
evaluate_known read e now i (some p) =
    let (accounted, r) = account e i.equipment_id now in
    let found = lookup i.equipment_id e.overrides in
    (
      drop_expired accounted i.equipment_id found now,
      decide read e.mode p r (in_force found now) now i.turn_on,
    )

-- The instant at which an intent is judged: its own, or the clock's where it has none.
abbrev pub judged_at : Time → Intent → Time
judged_at clock i = if is_zero i.issued_at then clock else i.issued_at

-- `Evaluate`.
unfoldable pub evaluate : StateReader → Engine → Context → Time → Intent → Engine × Result Decision
evaluate read e ctx clock i =
    if ctx.cancelled
    then (e, err context_cancelled)
    else evaluate_known read e (judged_at clock i) i (lookup i.equipment_id e.profiles)
