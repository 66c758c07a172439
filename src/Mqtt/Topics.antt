-- ===== src/Mqtt/Topics.antt =====
-- internal/mqtt/topics.go: the names of the topics, with their delivery policies. The two regular
-- expressions are tests of a text's characters.
pub mod Levels
pub mod Filter
use Prim.Native.Char.{code}
use Prim.Native.String.{len, ◌++◌ as text_append}
use aqua_os.Common.{
  ℕ, String, Bool, true, false, not, ◌&&◌, ◌||◌, Result, ok, err, ◌>>=◌, ◌>>◌, guard, Error, Check,
  topic_resource_invalid, unknown_purpose, purpose_has_constructor, site_invalid, leb, eqb,
  if◌then◌else◌,
}

-- Go's `Purpose` is a string: `other_purpose` is any text outside the declared set.
pub data Purpose : Type 0 where
  core_status availability sensor_state equipment_reported equipment_desired : Purpose
  command_request command_result alarm_state event_stream : Purpose
  ai_observation ha_discovery ha_command : Purpose
  other_purpose : String → Purpose

pub record Policy : Type 0 where
  pub purpose : Purpose
  pub qos : ℕ
  pub retained : Bool

pub record Registry : Type 0 where
  pub site_id : String

unfoldable pub is_lower : ℕ → Bool
is_lower c = leb b'a' c && leb c b'z'

unfoldable pub is_digit : ℕ → Bool
is_digit c = leb b'0' c && leb c b'9'

-- `[a-z0-9-]*`, and with `_` in place of the dash for the second pattern.
unfoldable pub segment_tail : ℕ → String → Bool
unfolding is_lower is_digit
segment_tail joint String.[] = true
segment_tail joint (String.◌∷◌ c s) =
    (is_lower (code c) || is_digit (code c) || eqb (code c) joint) && segment_tail joint s

unfoldable pub matches_pattern : ℕ → String → Bool
unfolding is_lower segment_tail
matches_pattern joint String.[] = false
matches_pattern joint (String.◌∷◌ c s) = is_lower (code c) && segment_tail joint s && leb (len s) 62

-- `topicSegmentPattern` and `haComponentPattern`.
unfoldable pub is_segment : String → Bool
unfolding matches_pattern
is_segment s = matches_pattern b'-' s

unfoldable pub is_component : String → Bool
unfolding matches_pattern
is_component s = matches_pattern b'_' s

-- `strings.ContainsAny(resource, "+#/")`.
unfoldable pub has_reserved : String → Bool
has_reserved String.[] = false
has_reserved (String.◌∷◌ c s) =
    eqb (code c) b'+' || eqb (code c) b'#' || eqb (code c) b'/' || has_reserved s

-- `NewRegistry`.
unfoldable pub new_registry : String → Result Registry
new_registry site_id = do guard (is_segment site_id) site_invalid; ok (record { site_id = site_id })

abbrev pub root : Registry → String
root r = text_append "aquaos/" (text_append r.site_id (text_append "/" "v1"))

abbrev pub under : Registry → String → String → String → String
under r before resource after =
    text_append (root r) (text_append before (text_append resource after))

abbrev policy : Purpose → Bool → Policy
policy purpose retained = record { purpose = purpose; qos = 1; retained = retained }

unfoldable pub topic_of : Registry → Purpose → String → Result (String × Policy)
topic_of r core_status resource =
    ok (text_append (root r) "/system/core/status", policy core_status true)
topic_of r availability resource =
    ok (text_append (root r) "/system/core/availability", policy availability true)
topic_of r sensor_state resource =
    ok (under r "/sensors/" resource "/state", policy sensor_state true)
topic_of r equipment_reported resource =
    ok (under r "/equipment/" resource "/reported", policy equipment_reported true)
topic_of r equipment_desired resource =
    ok (under r "/equipment/" resource "/desired", policy equipment_desired true)
topic_of r command_request resource =
    ok (under r "/commands/" resource "/request", policy command_request false)
topic_of r command_result resource =
    ok (under r "/commands/" resource "/result", policy command_result false)
topic_of r alarm_state resource = ok (under r "/alarms/" resource "/state", policy alarm_state true)
topic_of r event_stream resource =
    ok (text_append (root r) (text_append "/events/" resource), policy event_stream false)
topic_of r ai_observation resource = err purpose_has_constructor
topic_of r ha_discovery resource = err purpose_has_constructor
topic_of r ha_command resource = err unknown_purpose
topic_of r (other_purpose s) resource = err unknown_purpose

-- `Topic`.
unfoldable pub topic : Registry → Purpose → String → Result (String × Policy)
topic r purpose resource =
    if has_reserved resource || not (is_segment resource)
    then err topic_resource_invalid
    else topic_of r purpose resource

-- `AIObservation`.
unfoldable pub ai_observation_topic : Registry → String → String → Result (String × Policy)
ai_observation_topic r service kind = do
  guard (not (not (is_segment service) || not (is_segment kind))) topic_resource_invalid
  ok (
    text_append (root r)
        (text_append "/ai/" (text_append service (text_append "/observations/" kind))),
    policy ai_observation false,
  )

-- `HADiscovery`.
unfoldable pub ha_discovery_topic : Registry → String → String → Result (String × Policy)
ha_discovery_topic r component object_id = do
  guard (not (not (is_component component) || not (is_segment object_id))) topic_resource_invalid
  ok (
    text_append "homeassistant/"
        (text_append component (text_append "/" (text_append object_id "/config"))),
    policy ha_discovery true,
  )

-- `HACommand` and `HAStatus`.
unfoldable pub ha_command_topic : Registry → String → Result (String × Policy)
ha_command_topic r equipment_id = do
  guard (is_segment equipment_id) topic_resource_invalid
  ok (under r "/home-assistant/" equipment_id "/set", policy ha_command false)

unfoldable pub ha_status_topic : Registry → String × Policy
ha_status_topic r = (text_append (root r) "/home-assistant/status", policy core_status true)

-- `SubscriptionFilter`.
unfoldable pub subscription_filter : Registry → Purpose → Result (String × ℕ)
subscription_filter r command_request = ok (text_append (root r) "/commands/+/request", 1)
subscription_filter r ai_observation = ok (text_append (root r) "/ai/+/observations/+", 1)
subscription_filter r ha_command = ok (text_append (root r) "/home-assistant/+/set", 1)
subscription_filter r _ = err unknown_purpose
