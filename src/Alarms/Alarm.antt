-- ===== src/Alarms/Alarm.antt =====
-- internal/alarms/manager.go: rules, observations, alarms, and the state kept for a rule.
use aqua_os.Common.{
  ℕ, ◌-◌, String, Bool, false, not, ◌&&◌, ◌||◌, Option, none, List, [], ◌∷◌, ◌++◌, ◌>>◌, guard,
  Check, rule_fields_required, rule_severity_invalid, rule_delay_negative, Time, Duration, pos, ltb,
  ltb_ℤ, eqb, if◌then◌else◌, ◌==◌, string_eq, length, drop,
}
use aqua_os.Domain.Ids.{validate_uuid}
use aqua_os.Events.Event.{Severity, other_severity, rank}

-- `unset` is the zero value of Go's string type.
pub data Status : Type 0 where
  unset active acknowledged cleared : Status

pub record Subject : Type 0 where
  pub kind : String
  pub id : String

-- An observation's explanation; the metadata is carried and not read.
pub record Evidence : Type 0 where
  pub code : String
  pub message : String

pub record Rule : Type 0 where
  pub id : String
  pub code : String
  pub name : String
  pub subject : Subject
  pub severity : Severity
  pub debounce : Duration
  pub hysteresis : Duration
  pub latching : Bool

pub record Observation : Type 0 where
  pub rule_id : String
  pub active : Bool
  pub severity : Severity
  pub observed_at : Time
  pub evidence : Evidence
  pub correlation_id : String

pub record Alarm : Type 0 where
  pub id : String
  pub rule_id : String
  pub code : String
  pub subject : Subject
  pub severity : Severity
  pub status : Status
  pub condition_active : Bool
  pub evidence : List Evidence
  pub first_observed : Time
  pub last_observed : Time
  pub occurrence_count : ℕ
  pub acknowledged_at : Option Time
  pub cleared_at : Option Time
  pub correlation_id : String

-- `Alarm{}`.
abbrev pub zero_alarm : Alarm
zero_alarm = record {
  id = "";
  rule_id = "";
  code = "";
  subject = record { kind = ""; id = "" };
  severity = other_severity "";
  status = unset;
  condition_active = false;
  evidence = [];
  first_observed = 0;
  last_observed = 0;
  occurrence_count = 0;
  acknowledged_at = none;
  cleared_at = none;
  correlation_id = "";
}

pub data Transition : Type 0 where
  no_change debouncing raised escalated clear_pending cleared_now acknowledged_now : Transition
  ignored_stale : Transition

pub record RuleState : Type 0 where
  pub rule : Rule
  pub pending_active : Option Time
  pub pending_clear : Option Time
  pub last_observation : Time
  pub current : String

-- `validateRule`.
unfoldable pub validate_rule : Rule → Check
validate_rule r = do
  validate_uuid r.id
  guard (not (r.code == "" || r.name == "" || r.subject.kind == "")) rule_fields_required
  validate_uuid r.subject.id
  guard (not (eqb (rank r.severity) 0)) rule_severity_invalid
  guard (not (ltb_ℤ r.debounce (pos 0) || ltb_ℤ r.hysteresis (pos 0))) rule_delay_negative

-- `appendEvidence`: empty evidence is not kept, and only the newest up to the limit are.
unfoldable pub append_evidence : List Evidence → Evidence → ℕ → List Evidence
append_evidence values value limit =
    if value.code == "" && value.message == ""
    then values
    else if ltb limit (length (values ++ value ∷ []))
    then drop (length (values ++ value ∷ []) - limit) (values ++ value ∷ [])
    else values ++ value ∷ []
