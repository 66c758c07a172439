-- ===== src/Mqtt/Envelope.antt =====
-- internal/mqtt/envelope.go: the envelope and the codec. What encoding/json does is a parameter,
-- and so is the clock's reading at a call. A payload is its bytes; `data` of the source is
-- `content` here.
pub mod Decoding
use Prim.Native.Char.{code}
use Prim.Native.String.{len}
use aqua_os.Common.{
  ℕ, String, Bool, true, false, not, ◌||◌, Option, none, some, List, [], ◌∷◌, length, Result, ok,
  err, ◌>>=◌, ◌>>◌, guard, Check, Error, payload_oversized, unknown_version, message_expired,
  envelope_fields_invalid, envelope_data_invalid, trailing_json, Time, is_zero, before, ltb, eqb,
  next_uint64, if◌then◌else◌, ◌==◌, string_eq,
}
use aqua_os.Domain.Ids.{validate_uuid}

abbrev pub Payload : Type 0
Payload = List ℕ

pub record Envelope : Type 0 where
  pub schema_version : String
  pub message_id : String
  pub correlation_id : String
  pub source : String
  pub site_id : String
  pub occurred_at : Time
  pub expires_at : Option Time
  pub revision : Option ℕ
  pub content : Payload

-- What a decoder finds after the value that it has read.
pub data Rest : Type 0 where
  ended : Rest
  more_json : Rest
  broken : Error → Rest

-- encoding/json as the codec uses it: a strict decoder of envelopes, `Marshal` and `Valid`.
pub record Json : Type 0 where
  pub decode_envelope : Payload → Result (Envelope × Rest)
  pub marshal_envelope : Envelope → Result Payload
  pub valid : Payload → Bool

pub record Codec : Type 0 where
  pub site_id : String
  pub maximum_payload : ℕ
  pub decoded : ℕ
  pub malformed : ℕ
  pub oversized : ℕ
  pub expired : ℕ
  pub unknown : ℕ
  pub duplicates : ℕ

abbrev pub schema_version : String
schema_version = "1.0"

-- `major`: the text up to the first dot.
unfoldable pub major : String → String
major String.[] = ""
major (String.◌∷◌ c s) = if eqb (code c) b'.' then "" else String.◌∷◌ c (major s)

-- `ensureEOF`.
unfoldable pub ensure_eof : Rest → Check
ensure_eof ended = ok tt
ensure_eof more_json = err trailing_json
ensure_eof (broken x) = err x

abbrev pub has_expired : Time → Option Time → Bool
has_expired now none = false
has_expired now (some at) = not (before now at)

abbrev pub is_expiry : Error → Bool
is_expiry message_expired = true
is_expiry _ = false

module _ (json : Json) where
  -- `validate`.
  unfoldable pub validate : Codec → Time → Envelope → Check
  validate c now e = do
    guard
        (not (
          e.schema_version == ""
          || e.message_id == ""
          || ltb 64 (len e.message_id)
          || e.source == ""
          || not (e.site_id == c.site_id)
          || is_zero e.occurred_at))
        envelope_fields_invalid
    validate_uuid e.correlation_id
    guard (json.valid e.content) envelope_data_invalid
    guard (not (has_expired now e.expires_at)) message_expired

  unfoldable pub conclude : Codec → Envelope → Check → Codec × Result Envelope
  conclude c e (ok _) = (record c { decoded = next_uint64 c.decoded }, ok e)
  conclude c e (err x) =
      if is_expiry x
      then (record c { expired = next_uint64 c.expired }, err x)
      else (record c { malformed = next_uint64 c.malformed }, err x)

  unfoldable pub by_version : Codec → Time → Envelope → Codec × Result Envelope
  by_version c now e =
      if not (major e.schema_version == major schema_version)
      then (record c { unknown = next_uint64 c.unknown }, err unknown_version)
      else conclude c e (validate c now e)

  unfoldable pub whole : Codec → Time → Envelope → Check → Codec × Result Envelope
  whole c now e (err x) = (record c { malformed = next_uint64 c.malformed }, err x)
  whole c now e (ok _) = by_version c now e

  unfoldable pub parsed : Codec → Time → Result (Envelope × Rest) → Codec × Result Envelope
  parsed c now (err x) = (record c { malformed = next_uint64 c.malformed }, err x)
  parsed c now (ok (e, rest)) = whole c now e (ensure_eof rest)

  -- `Decode`.
  unfoldable pub decode : Codec → Time → Payload → Codec × Result Envelope
  decode c now payload =
      if ltb c.maximum_payload (length payload)
      then (record c { oversized = next_uint64 c.oversized }, err payload_oversized)
      else parsed c now (json.decode_envelope payload)

  -- `Encode`; `content` is what `Marshal` makes of the value.
  unfoldable pub encode :
      Codec
      → Time
      → String
      → String
      → String
      → Time
      → Option Time
      → Option ℕ
      → Result Payload
      → Result Payload
  encode c now message_id source correlation_id occurred_at expires_at revision marshalled = do
    content ← marshalled
    let envelope : Envelope = record {
      schema_version = schema_version;
      message_id = message_id;
      correlation_id = correlation_id;
      source = source;
      site_id = c.site_id;
      occurred_at = occurred_at;
      expires_at = expires_at;
      revision = revision;
      content = content;
    }
    validate c now envelope
    payload ← json.marshal_envelope envelope
    guard (not (ltb c.maximum_payload (length payload))) payload_oversized
    ok payload
