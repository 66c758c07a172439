-- ===== src/Scenarios/Mqtt.antt =====
-- A broker's message that switches the heater on, and its topics.
use aqua_os.Common.{
  String, ◌≡◌, refl, true, false, none, some, [], ◌∷◌, ok, err, arith, ◌⊎◌, string_eq, Result,
  trailing_json, ◌↔◌, ok-injective,
}
use aqua_os.Common.Map.{lookup, insert, delete}
use aqua_os.Output.Service.Ledger.{Inv}
use aqua_os.Domain.Ids.{validate_uuid, validate_codes, has_frame, strip, decodes, is_hex, dash_at}
use aqua_os.Mqtt.Envelope.{
  Payload, Envelope, ended, more_json, Json, Codec, major, validate, decode, parsed, whole,
  ensure_eof, by_version, conclude, encode,
}
use aqua_os.Mqtt.Envelope.Decoding.{IsSound, decode_iff, decode-encode, sealed}
use aqua_os.Mqtt.Consumer.{Consumer, new_consumer, bounded, drop_oldest, reserve, reserve_new}
use aqua_os.Mqtt.Consumer.Window.{IsWindow, here, reserves, reachable-IsWindow}
use aqua_os.Mqtt.Consumer.Memory.{begins, takes, reserve_remembers}
use aqua_os.Mqtt.Topics.{
  Registry, command_request, topic, topic_of, subscription_filter, has_reserved, is_segment,
  matches_pattern, segment_tail, is_lower, is_digit, Policy,
}
use aqua_os.Mqtt.Topics.Levels.{levels}
use aqua_os.Mqtt.Topics.Filter.{selects, IsCore, topic-injective, filter_iff}
use aqua_os.Mqtt.Router.{Ports, handle}
use aqua_os.Mqtt.Router.Requests.{Handling, handle-Handling}
use aqua_os.Scenarios.Data.{correlation, live_context}
use aqua_os.Scenarios.Output.{env, warm_up, start, start_holds}

abbrev codec : Codec
codec = record {
  site_id = "reef";
  maximum_payload = 300;
  decoded = 0;
  malformed = 0;
  oversized = 0;
  expired = 0;
  unknown = 0;
  duplicates = 0;
}

abbrev request : Envelope
request = sealed codec "m-1" "panel" correlation 100 (some 2000) none (123 ∷ [])

-- A wire on which an envelope is one byte.
abbrev read_byte : Payload → Result (Envelope × aqua_os.Mqtt.Envelope.Rest)
read_byte (x ∷ []) = ok (request, ended)
read_byte _ = err trailing_json

abbrev json : Json
json = record {
  decode_envelope = read_byte;
  marshal_envelope = λ e. ok (7 ∷ []);
  valid = λ p. true;
}

request_decoded : (decode json codec 500 (7 ∷ [])).1 ≡ ok request
unfolding decode parsed whole ensure_eof by_version conclude major validate validate_uuid
    validate_codes has_frame strip decodes is_hex dash_at
request_decoded = refl

decode_iff_example : IsSound json codec 500 request
decode_iff_example = ((decode_iff json codec 500 (7 ∷ []) request).0 request_decoded).3

reads_request :
    (p : Payload)
    → json.marshal_envelope request ≡ ok p
    → json.decode_envelope p ≡ ok (request, ended)
reads_request p h = rw (← ok-injective h) refl

request_encoded :
    encode json codec 100 "m-1" "panel" correlation 100 (some 2000) none (ok (123 ∷ []))
    ≡ ok (7 ∷ [])
unfolding encode validate validate_uuid validate_codes has_frame strip decodes is_hex dash_at
request_encoded = refl

decode-encode_example : (decode json codec 500 (7 ∷ [])).1 ≡ ok request
decode-encode_example =
    decode-encode json codec codec 100 500 "m-1" "panel" correlation 100 (some 2000) none (123 ∷ [])
      (7 ∷ []) reads_request refl (omega arith) (omega arith) request_encoded

-- A window of two messages.
abbrev empty : Consumer
empty = record { codec = codec; capacity = 2; seen = []; order = [] }

empty_made : new_consumer codec 2 ≡ ok empty
unfolding new_consumer
empty_made = refl

abbrev holding : String → Consumer
holding id = record empty { seen = (id, tt) ∷ []; order = id ∷ [] }

abbrev holding_two : Consumer
holding_two = record empty { seen = ("m-1", tt) ∷ ("m-2", tt) ∷ []; order = "m-1" ∷ "m-2" ∷ [] }

abbrev moved_on : Consumer
moved_on = record empty { seen = ("m-2", tt) ∷ ("m-3", tt) ∷ []; order = "m-2" ∷ "m-3" ∷ [] }

first_reserved : reserve empty "m-1" ≡ some (holding "m-1")
unfolding reserve reserve_new bounded drop_oldest lookup insert
first_reserved = refl

second_reserved : reserve (holding "m-1") "m-2" ≡ some holding_two
unfolding reserve reserve_new bounded drop_oldest lookup insert
second_reserved = refl

-- A third message makes the window forget the first.
third_reserved : reserve holding_two "m-3" ≡ some moved_on
unfolding reserve reserve_new bounded drop_oldest lookup insert delete
third_reserved = refl

reachable-IsWindow_example : IsWindow moved_on
reachable-IsWindow_example = reachable-IsWindow codec 2 empty moved_on empty_made (
    reserves "m-3" third_reserved
      (reserves "m-2" second_reserved (reserves "m-1" first_reserved here)))

reserve_remembers_example : reserve holding_two "m-1" ≡ none
reserve_remembers_example =
    reserve_remembers "m-1" 1 empty (holding "m-1") holding_two
      (reachable-IsWindow codec 2 empty empty empty_made here) first_reserved
      (takes "m-2" second_reserved begins) (omega arith)

abbrev reef : Registry
reef = record { site_id = "reef" }

abbrev request_policy : Policy
request_policy = record { purpose = command_request; qos = 1; retained = false }

site_valid : is_segment reef.site_id ≡ true
unfolding is_segment matches_pattern segment_tail is_lower is_digit
site_valid = refl

request_topic :
    topic reef command_request "heater"
    ≡ ok ("aquaos/reef/v1/commands/heater/request", request_policy)
unfolding topic topic_of has_reserved is_segment matches_pattern segment_tail is_lower is_digit
request_topic = refl

topic-injective_example :
    (reef.site_id ≡ reef.site_id)
    × (command_request ≡ command_request)
    × (IsCore command_request ⊎ (◌≡◌ {A = String} "heater" "heater"))
topic-injective_example =
    topic-injective reef reef command_request command_request "heater" "heater"
      "aquaos/reef/v1/commands/heater/request" request_policy request_policy site_valid site_valid
      request_topic request_topic

filter_iff_example :
    (selects
        (levels "aquaos/reef/v1/commands/+/request")
        (levels "aquaos/reef/v1/commands/heater/request")
      ≡ true)
    ↔ ((reef.site_id ≡ reef.site_id) × (command_request ≡ command_request))
filter_iff_example =
    filter_iff reef reef command_request "heater" "aquaos/reef/v1/commands/+/request"
      "aquaos/reef/v1/commands/heater/request" 1 request_policy site_valid site_valid
      (unfold subscription_filter in refl) request_topic

-- A router whose commands are the heater's, with the correlation that the envelope carries.
abbrev ports : Ports
ports = record {
  json = json;
  codec = codec;
  topics = reef;
  decode_command = λ p. ok (record warm_up { correlation_id = correlation }, ended);
  marshal_result = λ r. ok (5 ∷ []);
  publish = λ p. ok tt;
  now = 500;
}

handle-Handling_example :
    Inv (handle env ports empty start live_context 500 "heater" (7 ∷ [])).1
    × Handling env ports empty start live_context 500
        (7 ∷ [])
        (handle env ports empty start live_context 500 "heater" (7 ∷ [])).1
handle-Handling_example =
    handle-Handling env ports empty start live_context 500 "heater" (7 ∷ []) start_holds
