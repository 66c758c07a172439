-- ===== src/Alarms/Manager.antt =====
-- internal/alarms/manager.go: the manager's operations. What publishing answers is an argument; the
-- state does not depend on it.
pub mod Operator
pub mod Repeats
use aqua_os.Common.{
  ℕ, String, Bool, true, false, not, ◌&&◌, Option, none, some, [], Result, ok, err, ◌>>◌, guard,
  Check, Error, context_cancelled, alarm_not_found, alarm_duplicate, invalid_alarm_transition,
  condition_active, Context, live, Time, is_zero, after, ltb, if◌then◌else◌, ◌==◌, string_eq,
}
use aqua_os.Common.Map.{Map, lookup, insert}
use aqua_os.Alarms.Alarm.{
  Status, active, acknowledged, cleared, Rule, Observation, Alarm, zero_alarm, Transition,
  no_change, debouncing, clear_pending, cleared_now, acknowledged_now, ignored_stale, RuleState,
  validate_rule,
}
use aqua_os.Alarms.Observe.{Applied, is_cleared, apply_observation}

pub record Manager : Type 0 where
  pub rules : Map String RuleState
  pub alarms : Map String Alarm
  pub evidence_limit : ℕ
  pub started : Bool

-- `NewManagerWithDependencies`.
unfoldable pub new_manager : ℕ → Manager
new_manager limit = record {
  rules = [];
  alarms = [];
  evidence_limit = if ltb limit 1 then 1 else limit;
  started = false;
}

abbrev is_absent {ℓ} : {A : Type ℓ} → Option A → Bool
is_absent none = true
is_absent (some a) = false

abbrev pub fresh_rule : Rule → RuleState
fresh_rule rule = record {
  rule = rule;
  pending_active = none;
  pending_clear = none;
  last_observation = 0;
  current = "";
}

-- `RegisterRule`.
unfoldable pub register_rule : Manager → Context → Rule → Result Manager
register_rule m ctx rule = do
  live ctx
  validate_rule rule
  guard (is_absent (lookup rule.id m.rules)) alarm_duplicate
  ok (record m { rules = insert rule.id (fresh_rule rule) m.rules })

-- `m.alarms[id]`: the zero alarm where there is none.
abbrev pub or_zero : Option Alarm → Alarm
or_zero none = zero_alarm
or_zero (some a) = a

unfoldable pub alarm_of : Manager → String → Alarm
alarm_of m id = or_zero (lookup id m.alarms)

-- `(Alarm, Transition, error)`.
abbrev pub Observed : Type 0
Observed = Manager × Alarm × Transition × Option Error

-- The transitions that are published.
abbrev pub is_published : Transition → Bool
is_published no_change = false
is_published debouncing = false
is_published clear_pending = false
is_published _ = true

-- Files the state that an observation leaves.
unfoldable pub file : Manager → String → Applied → Manager
file m rule_id r = record m {
  rules = insert rule_id r.rule_state m.rules;
  alarms = if r.alarm.id == "" then m.alarms else insert r.alarm.id r.alarm m.alarms;
}

abbrev error_of : Check → Option Error
error_of (ok _) = none
error_of (err x) = some x

abbrev answer_error : Applied → Check → Option Error
answer_error r published = by_error r.error
  where
    by_error : Option Error → Option Error
    by_error (some x) = some x
    by_error none = if is_published r.transition then error_of published else none

unfoldable pub observe_rule :
    Manager
    → Observation
    → Result String
    → (Transition → Alarm → Check)
    → Option RuleState
    → Observed
observe_rule m o fresh publish none = (m, zero_alarm, no_change, some alarm_not_found)
observe_rule m o fresh publish (some st) =
    if not (is_zero st.last_observation) && not (after o.observed_at st.last_observation)
    then (m, alarm_of m st.current, ignored_stale, none)
    else let r =
        apply_observation m.evidence_limit (record st { last_observation = o.observed_at })
          (alarm_of m st.current) o fresh in
      (file m o.rule_id r, r.alarm, r.transition, answer_error r (publish r.transition r.alarm))

-- The time and the correlation of an observation that has none.
abbrev pub stamped : Observation → Time → Observation
stamped o clock = if is_zero o.observed_at then record o { observed_at = clock } else o

unfoldable pub observe_correlated :
    Manager → Observation → Result String → (Transition → Alarm → Check) → Result String → Observed
observe_correlated m o fresh publish (err x) = (m, zero_alarm, no_change, some x)
observe_correlated m o fresh publish (ok id) =
    observe_rule m (record o { correlation_id = id }) fresh publish (lookup o.rule_id m.rules)

-- `Observe`: `correlation` is what the identity generator answers where the observation has none.
unfoldable pub observe :
    Manager
    → Context
    → Observation
    → Time
    → Result String
    → Result String
    → (Transition → Alarm → Check)
    → Observed
observe m ctx o clock fresh correlation publish =
    if ctx.cancelled
    then (m, zero_alarm, no_change, some context_cancelled)
    else observe_correlated m (stamped o clock) fresh publish
        (if o.correlation_id == "" then correlation else ok o.correlation_id)

abbrev pub is_active : Status → Bool
is_active active = true
is_active _ = false

-- `(Alarm, error)`, with the manager left behind.
abbrev pub Changed : Type 0
Changed = Manager × Alarm × Option Error

unfoldable pub acknowledge_found :
    Manager → String → Time → (Transition → Alarm → Check) → Option Alarm → Changed
acknowledge_found m id now publish none = (m, zero_alarm, some alarm_not_found)
acknowledge_found m id now publish (some a) =
    let a' = record a { status = acknowledged; acknowledged_at = some now } in
    if not (is_active a.status)
    then (m, zero_alarm, some invalid_alarm_transition)
    else (record m { alarms = insert id a' m.alarms }, a', error_of (publish acknowledged_now a'))

-- `Acknowledge`.
unfoldable pub acknowledge :
    Manager → Context → String → Time → (Transition → Alarm → Check) → Changed
acknowledge m ctx id now publish =
    if ctx.cancelled
    then (m, zero_alarm, some context_cancelled)
    else acknowledge_found m id now publish (lookup id m.alarms)

unfoldable pub clear_found :
    Manager → String → Time → (Transition → Alarm → Check) → Option Alarm → Changed
clear_found m id now publish none = (m, zero_alarm, some alarm_not_found)
clear_found m id now publish (some a) =
    let a' = record a { status = cleared; cleared_at = some now } in
    if a.condition_active
    then (m, zero_alarm, some condition_active)
    else if is_cleared a.status
    then (m, zero_alarm, some invalid_alarm_transition)
    else (record m { alarms = insert id a' m.alarms }, a', error_of (publish cleared_now a'))

-- `Clear`.
unfoldable pub clear : Manager → Context → String → Time → (Transition → Alarm → Check) → Changed
clear m ctx id now publish =
    if ctx.cancelled
    then (m, zero_alarm, some context_cancelled)
    else clear_found m id now publish (lookup id m.alarms)

-- `Get`.
unfoldable pub get : Manager → Context → String → Result Alarm
get m ctx id = do live ctx; found (lookup id m.alarms)
  where
    found : Option Alarm → Result Alarm
    found none = err alarm_not_found
    found (some a) = ok a
