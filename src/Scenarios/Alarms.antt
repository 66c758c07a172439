-- ===== src/Scenarios/Alarms.antt =====
-- A rule of the heater's alarms: raised after its debounce, repeated, cleared after its hysteresis.
use aqua_os.Common.{
  [], ◌∷◌, ◌≡◌, unequal, Check, refl, true, false, none, some, ok, err, deadline_exceeded, arith,
  pos, sub_time, string_eq,
}
use aqua_os.Events.Event.{warning, critical}
use aqua_os.Alarms.Alarm.{Transition, Rule, Evidence, Observation, Alarm, RuleState, zero_alarm}
use aqua_os.Alarms.Observe.{
  new_alarm, raise, begin, apply_active, settle, apply_inactive, apply_observation,
}
use aqua_os.Alarms.Observe.Lifecycle.{IsClosed, IsOpen, Keeps, raised_iff, cleared_iff, open_alarm}
use aqua_os.Alarms.Manager.{Manager, observe, clear}
use aqua_os.Alarms.Manager.Operator.{Clears, clear-Clears}
use aqua_os.Alarms.Manager.Repeats.{observe_twice}
use aqua_os.Scenarios.Data.{heater_id, live_context}

abbrev rule : Rule
rule = record {
  id = "rule";
  code = "heat";
  name = "Heater";
  subject = record { kind = "equipment"; id = heater_id };
  severity = warning;
  debounce = pos 10;
  hysteresis = pos 20;
  latching = false;
}

abbrev heat : Evidence
heat = record { code = "heat"; message = "too warm" }

abbrev seen : Observation
seen = record {
  rule_id = "rule";
  active = true;
  severity = critical;
  observed_at = 110;
  evidence = heat;
  correlation_id = "c";
}

-- The condition was first seen at 100.
abbrev pending : RuleState
pending = record {
  rule = rule;
  pending_active = some 100;
  pending_clear = none;
  last_observation = 110;
  current = "";
}

abbrev heat_alarm : Alarm
heat_alarm = new_alarm 3 "a" rule 100 seen

raised_iff_example : IsClosed pending zero_alarm
unfolding apply_observation apply_active begin raise sub_time
raised_iff_example = ((raised_iff 3 pending zero_alarm seen (ok "a")).0 refl).1

abbrev open_rule : RuleState
open_rule = record pending { pending_active = none; pending_clear = some 200; current = "a" }

abbrev gone : Observation
gone = record seen { active = false; observed_at = 220 }

cleared_iff_example : IsOpen open_rule heat_alarm
unfolding apply_observation apply_inactive settle sub_time
cleared_iff_example = ((cleared_iff 3 open_rule heat_alarm gone (ok "b")).0 refl).1

open_alarm_example : Keeps heat_alarm seen (apply_observation 3 open_rule heat_alarm seen (ok "b"))
open_alarm_example = open_alarm 3 open_rule heat_alarm seen (ok "b") (λ e. cc, λ e. cc)

abbrev watching : Manager
watching = record {
  rules = ("rule", record open_rule { last_observation = 150 }) ∷ [];
  alarms = ("a", heat_alarm) ∷ [];
  evidence_limit = 3;
  started = true;
}

abbrev heard : Transition → Alarm → Check
heard t a = ok tt

abbrev unheard : Transition → Alarm → Check
unheard t a = err deadline_exceeded

-- The condition has gone: the observation is heard at 220, and once more at 230.
observe_twice_example :
    let n = (observe watching live_context gone 220 (ok "b") (ok "d") heard).0 in
    (observe n live_context gone 230 (ok "e") (ok "f") unheard).0 ≡ n
observe_twice_example =
    observe_twice watching live_context live_context gone 220 230 (ok "b") (ok "e") (ok "d")
      (ok "f") heard unheard refl (unequal "c" "" refl) (λ e. ground arith)

clear-Clears_example : Clears watching "a" 180 (clear watching live_context "a" 180 heard).0
clear-Clears_example = clear-Clears watching live_context "a" 180 heard
