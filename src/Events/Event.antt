-- ===== src/Events/Event.antt =====
-- internal/events/event.go: event types, severities, the envelope, its construction and validation.
-- A payload is the text that encoding/json makes of it.
use aqua_os.Common.{
  ℕ, String, Bool, false, not, ◌||◌, Result, ok, ◌>>=◌, ◌>>◌, guard, Check, event_fields_required,
  event_severity_invalid, event_payload_invalid, Time, is_zero, eqb, ◌==◌, string_eq, if◌then◌else◌,
}
use aqua_os.Domain.Ids.{validate_uuid}

pub data EventType : Type 0 where
  device_registered device_updated device_removed : EventType
  sensor_registered sensor_updated sensor_removed : EventType
  equipment_registered equipment_updated equipment_removed : EventType
  state_changed : EventType
  alarm_raised alarm_acknowledged alarm_cleared alarm_escalated : EventType
  command_validated command_rejected command_dispatched : EventType
  command_acknowledged command_reconciled command_expired : EventType
  safety_mode_changed safety_override_changed safety_watchdog_tripped : EventType
  configuration_changed : EventType
  other_event : String → EventType

pub data Severity : Type 0 where
  debug info warning critical : Severity
  other_severity : String → Severity

-- `Severity.Rank`.
abbrev pub rank : Severity → ℕ
rank debug = 1
rank info = 2
rank warning = 3
rank critical = 4
rank (other_severity s) = 0

pub record Event : Type 0 where
  pub timestamp : Time
  pub source : String
  pub event_type : EventType
  pub severity : Severity
  pub payload : String
  pub correlation_id : String

abbrev is_untyped : EventType → Bool
is_untyped (other_event s) = s == ""
is_untyped _ = false

-- `Event.Validate`, where `json_valid` is `json.Valid`.
unfoldable pub validate_event : (String → Bool) → Event → Check
validate_event json_valid e = do
  guard (not (is_zero e.timestamp || e.source == "" || is_untyped e.event_type))
      event_fields_required
  guard (not (eqb (rank e.severity) 0)) event_severity_invalid
  validate_uuid e.correlation_id
  guard (json_valid e.payload) event_payload_invalid

abbrev or_new : String → Result String → Result String
or_new id fresh = if id == "" then fresh else ok id

-- `Factory.New`: `encoded` is what json.Marshal answers, `fresh` what the identity generator would.
unfoldable pub factory_new :
    (String → Bool)
    → Time
    → Result String
    → String
    → EventType
    → Severity
    → Result String
    → String
    → Result Event
factory_new json_valid now fresh source event_type severity encoded correlation_id = do
  payload ← encoded
  id ← or_new correlation_id fresh
  let event : Event = record {
    timestamp = now;
    source = source;
    event_type = event_type;
    severity = severity;
    payload = payload;
    correlation_id = id;
  }
  validate_event json_valid event
  ok event
