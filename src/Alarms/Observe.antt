-- ===== src/Alarms/Observe.antt =====
-- internal/alarms/manager.go: `applyObservation`, the effect of one observation on a rule and its
-- current alarm. `limit` is the bound on kept evidence, `fresh` what the identity generator
-- answers.
pub mod Lifecycle
use aqua_os.Common.{
  ℕ, ◌+◌, ◌%◌, String, Bool, true, false, not, ◌||◌, Option, none, some, [], Result, ok, err, Error,
  Time, sub_time, ltb, ltb_ℤ, if◌then◌else◌, ◌==◌, string_eq,
}
use aqua_os.Events.Event.{Severity, rank}
use aqua_os.Alarms.Alarm.{
  Status, active, cleared, Rule, Observation, Alarm, zero_alarm, Transition, no_change, debouncing,
  raised, escalated, clear_pending, cleared_now, RuleState, append_evidence,
}

-- What `applyObservation` returns, with the rule's state that it leaves.
pub record Applied : Type 0 where
  pub rule_state : RuleState
  pub alarm : Alarm
  pub transition : Transition
  pub error : Option Error

abbrev pub is_cleared : Status → Bool
is_cleared cleared = true
is_cleared _ = false

abbrev pub or_at : Option Time → Time → Time
or_at none at = at
or_at (some t) at = t

abbrev pub worse : Severity → Severity → Severity
worse a b = if ltb (rank a) (rank b) then b else a

-- A new alarm of the rule, first observed when the condition began.
abbrev pub new_alarm : ℕ → String → Rule → Time → Observation → Alarm
new_alarm limit id rule since o = record {
  id = id;
  rule_id = rule.id;
  code = rule.code;
  subject = rule.subject;
  severity = worse rule.severity o.severity;
  status = active;
  condition_active = true;
  evidence = append_evidence [] o.evidence limit;
  first_observed = since;
  last_observed = o.observed_at;
  occurrence_count = 1;
  acknowledged_at = none;
  cleared_at = none;
  correlation_id = o.correlation_id;
}

unfoldable pub raise : ℕ → RuleState → Time → Observation → Result String → Applied
raise limit st since o (err x) = record {
  rule_state = st;
  alarm = zero_alarm;
  transition = no_change;
  error = some x;
}
raise limit st since o (ok id) = record {
  rule_state = record st { current = id; pending_active = none };
  alarm = new_alarm limit id st.rule since o;
  transition = raised;
  error = none;
}

-- The condition holds and no alarm is open: it must last for the rule's debounce time.
unfoldable pub begin : ℕ → RuleState → Observation → Result String → Applied
begin limit st o fresh =
    let since = or_at st.pending_active o.observed_at in
    let waiting = record st { pending_active = some since } in
    if ltb_ℤ (sub_time o.observed_at since) st.rule.debounce
    then record { rule_state = waiting; alarm = zero_alarm; transition = debouncing; error = none }
    else raise limit waiting since o fresh

-- The condition holds and an alarm is open. The count is a uint64.
unfoldable pub repeat_alarm : ℕ → RuleState → Alarm → Observation → Applied
repeat_alarm limit st a o =
    let seen = record a {
      condition_active = true;
      last_observed = o.observed_at;
      occurrence_count = (a.occurrence_count + 1) % 18446744073709551616;
      evidence = append_evidence a.evidence o.evidence limit;
      correlation_id = o.correlation_id;
    } in
    if ltb (rank a.severity) (rank o.severity)
    then record {
      rule_state = st;
      alarm = record seen { severity = o.severity };
      transition = escalated;
      error = none;
    }
    else record { rule_state = st; alarm = seen; transition = no_change; error = none }

unfoldable pub apply_active : ℕ → RuleState → Alarm → Observation → Result String → Applied
apply_active limit st a o fresh =
    let healthy = record st { pending_clear = none } in
    if st.current == "" || is_cleared a.status
    then begin limit healthy o fresh
    else repeat_alarm limit healthy a o

-- The condition is gone and an alarm is open: it must stay away for the rule's hysteresis.
unfoldable pub settle : ℕ → RuleState → Alarm → Observation → Applied
settle limit st a o =
    let since = or_at st.pending_clear o.observed_at in
    let seen = record a {
      condition_active = false;
      last_observed = o.observed_at;
      evidence = append_evidence a.evidence o.evidence limit;
      correlation_id = o.correlation_id;
    } in
    if ltb_ℤ (sub_time o.observed_at since) st.rule.hysteresis || st.rule.latching
    then record {
      rule_state = record st { pending_clear = some since };
      alarm = seen;
      transition = clear_pending;
      error = none;
    }
    else record {
      rule_state = record st { pending_clear = none };
      alarm = record seen { status = cleared; cleared_at = some o.observed_at };
      transition = cleared_now;
      error = none;
    }

unfoldable pub apply_inactive : ℕ → RuleState → Alarm → Observation → Applied
apply_inactive limit st a o =
    let calm = record st { pending_active = none } in
    if st.current == ""
    then record { rule_state = calm; alarm = zero_alarm; transition = no_change; error = none }
    else if is_cleared a.status
    then record { rule_state = calm; alarm = a; transition = no_change; error = none }
    else settle limit calm a o

-- `applyObservation`, at the alarm that `m.alarms[state.current]` yields.
unfoldable pub apply_observation : ℕ → RuleState → Alarm → Observation → Result String → Applied
apply_observation limit st a o fresh =
    if o.active then apply_active limit st a o fresh else apply_inactive limit st a o
