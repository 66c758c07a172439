-- ===== src/Mqtt/Envelope/Decoding.antt =====
-- internal/mqtt/envelope.go: which payloads `Decode` accepts, and what `Encode` makes is read back.
use Prim.Native.String.{len}
use aqua_os.Common.{
  ℕ, ◌+◌, ◌%◌, ◌<◌, ◌≤◌, String, ◌≡◌, ◌≢◌, ◌↔◌, refl, true, false, not, Option, none, some, length,
  Result, ok, err, guard, Check, Error, Time, arith, if-elim, eq_iff, Bool-cases, inl, inr,
  ok-injective, bind-ok, >>-eq-ok, guard-ok, ◌==◌, string_eq, ge→ltb, ltb, payload_oversized,
  next_uint64, ◌∙◌,
}
use aqua_os.Domain.Ids.{validate_uuid}
use aqua_os.Mqtt.Envelope.{
  Payload, Envelope, Rest, ended, more_json, broken, Json, Codec, schema_version, major, ensure_eof,
  has_expired, is_expiry, validate, conclude, by_version, whole, parsed, decode, encode,
}

-- The instant lies before the expiry, if there is one.
abbrev pub BeforeExpiry : Time → Option Time → Type 0
BeforeExpiry now none = Unit
BeforeExpiry now (some at) = now < at

-- What the contract asks of an envelope.
pub record IsSound (json : Json) (c : Codec) (now : Time) (e : Envelope) : Type 0 where
  pub versioned : e.schema_version ≢ ""
  pub identified : e.message_id ≢ ""
  pub short : len e.message_id ≤ 64
  pub sourced : e.source ≢ ""
  pub ours : e.site_id ≡ c.site_id
  pub dated : e.occurred_at ≢ 0
  pub correlated : validate_uuid e.correlation_id ≡ ok tt
  pub valid : json.valid e.content ≡ true
  pub current : BeforeExpiry now e.expires_at

current_iff : (now : Time) (at : Option Time) → (has_expired now at ≡ false) ↔ BeforeExpiry now at
current_iff now none = (λ h. tt, λ h. refl)
current_iff now (some at) = ground arith

validate-IsSound :
    (json : Json) (c : Codec) (now : Time) (e : Envelope)
    → validate json c now e ≡ ok tt
    → IsSound json c now e
unfolding validate
validate-IsSound json c now e h = ground (
  arith,
  eq_iff e.schema_version "",
  eq_iff e.message_id "",
  eq_iff e.source "",
  eq_iff e.site_id c.site_id,
  current_iff now e.expires_at,
)

IsSound-validate :
    (json : Json) (c : Codec) (now : Time) (e : Envelope)
    → IsSound json c now e
    → validate json c now e ≡ ok tt
unfolding validate
IsSound-validate json c now e s = ground (
  arith,
  eq_iff e.schema_version "",
  eq_iff e.message_id "",
  eq_iff e.source "",
  eq_iff e.site_id c.site_id,
  current_iff now e.expires_at,
)

err-ok : {A : Type 0} {x : Error} {a : A} → ◌≡◌ {A = Result A} (err x) (ok a) → ⊥
err-ok h = cc

conclude-accepts :
    (json : Json) (c : Codec) (e f : Envelope) (k : Check)
    → (conclude json c e k).1 ≡ ok f
    → (k ≡ ok tt) × (e ≡ f)
unfolding conclude
conclude-accepts json c e f (ok u) h = (refl, ok-injective h)
conclude-accepts json c e f (err x) h = ground arith

by_version-accepts :
    (json : Json) (c : Codec) (now : Time) (e f : Envelope)
    → (by_version json c now e).1 ≡ ok f
    → (major e.schema_version ≡ "1") × IsSound json c now e × (e ≡ f)
unfolding by_version major
by_version-accepts json c now e f h =
    elim (Bool-cases (major e.schema_version == major schema_version)) [
      | inl same ↦
          let (valid, q) = conclude-accepts json c e f (validate json c now e) (rw same at h) in
          (
            (string_eq.beq_iff (major e.schema_version) "1").0 same,
            validate-IsSound json c now e valid,
            q,
          )
      | inr other ↦ absurd (err-ok (rw other at h))
    ]

whole-accepts :
    (json : Json) (c : Codec) (now : Time) (e f : Envelope) (k : Check)
    → (whole json c now e k).1 ≡ ok f
    → (k ≡ ok tt) × ((by_version json c now e).1 ≡ ok f)
unfolding whole
whole-accepts json c now e f (ok u) h = (refl, h)
whole-accepts json c now e f (err x) h = cc

ensure_eof-ended : (rest : Rest) → ensure_eof rest ≡ ok tt → rest ≡ ended
unfolding ensure_eof
ensure_eof-ended ended h = refl
ensure_eof-ended more_json h = cc
ensure_eof-ended (broken x) h = cc

parsed-accepts :
    (json : Json) (c : Codec) (now : Time) (r : Result (Envelope × Rest)) (f : Envelope)
    → (parsed json c now r).1 ≡ ok f
    → (r ≡ ok (f, ended)) × (major f.schema_version ≡ "1") × IsSound json c now f
unfolding parsed
parsed-accepts json c now (err x) f h = cc
parsed-accepts json c now (ok (e, rest)) f h =
    let (end, later) = whole-accepts json c now e f (ensure_eof rest) h in
    let (version, sound, q) = by_version-accepts json c now e f later in
    rw (← q, ensure_eof-ended rest end) (refl, version, sound)

sound-accepted :
    (json : Json) (c : Codec) (now : Time) (e : Envelope)
    → major e.schema_version ≡ "1"
    → IsSound json c now e
    → (parsed json c now (ok (e, ended))).1 ≡ ok e
unfolding parsed whole ensure_eof by_version conclude major
sound-accepted json c now e version sound = rw (version, IsSound-validate json c now e sound) refl

-- `Decode` accepts a payload with an envelope exactly when the payload is not longer than the
-- maximum, is one JSON envelope and nothing else, has the major version of the schema, and the
-- envelope is sound at the time of the call.
pub decode_iff :
    (json : Json) (c : Codec) (now : Time) (payload : Payload) (e : Envelope)
    → ((decode json c now payload).1 ≡ ok e) ↔ (
        (length payload ≤ c.maximum_payload)
        × (json.decode_envelope payload ≡ ok (e, ended))
        × (major e.schema_version ≡ "1")
        × IsSound json c now e)
unfolding decode
decode_iff json c now payload e = elim (Bool-cases (ltb c.maximum_payload (length payload))) [
  | inl long ↦ (
    λ h. absurd (err-ok (rw long at h)),
    λ (short, _, _, _). absurd (cc (ge→ltb c.maximum_payload (length payload) short)),
  )
  | inr short ↦ (
    λ h.
        let (found, version, sound) =
          parsed-accepts json c now (json.decode_envelope payload) e (rw short at h) in
        (ground (arith, short), found, version, sound),
    λ (_, found, version, sound). rw (short, found) (sound-accepted json c now e version sound),
  )
]

-- The decodings that a codec has counted.
abbrev pub counted : Codec → ℕ
counted c = c.decoded + c.malformed + c.oversized + c.expired + c.unknown

-- The count of accepted messages after an answer.
abbrev pub decoded_after : Codec → Result Envelope → ℕ
decoded_after c (ok e) = next_uint64 c.decoded
decoded_after c (err x) = c.decoded

abbrev Counts : Codec → Codec × Result Envelope → Type 0
Counts c (d, answer) =
    (counted d % 18446744073709551616 ≡ (counted c + 1) % 18446744073709551616)
    × (d.decoded ≡ decoded_after c answer)
    × (d.duplicates ≡ c.duplicates)

conclude-Counts :
    (json : Json) (c : Codec) (e : Envelope) (k : Check) → Counts c (conclude json c e k)
unfolding conclude
conclude-Counts json c e (ok u) = (omega arith, refl, refl)
conclude-Counts json c e (err x) =
    if-elim (Counts c) (is_expiry x) _ _ (λ _. (omega arith, refl, refl))
      (λ _. (omega arith, refl, refl))

by_version-Counts :
    (json : Json) (c : Codec) (now : Time) (e : Envelope) → Counts c (by_version json c now e)
unfolding by_version
by_version-Counts json c now e =
    if-elim (Counts c) (not (major e.schema_version == major schema_version)) _ _
      (λ _. (omega arith, refl, refl)) (λ _. conclude-Counts json c e (validate json c now e))

whole-Counts :
    (json : Json) (c : Codec) (now : Time) (e : Envelope) (k : Check)
    → Counts c (whole json c now e k)
unfolding whole
whole-Counts json c now e (ok u) = by_version-Counts json c now e
whole-Counts json c now e (err x) = (omega arith, refl, refl)

parsed-Counts :
    (json : Json) (c : Codec) (now : Time) (r : Result (Envelope × Rest))
    → Counts c (parsed json c now r)
unfolding parsed
parsed-Counts json c now (err x) = (omega arith, refl, refl)
parsed-Counts json c now (ok (e, rest)) = whole-Counts json c now e (ensure_eof rest)

-- Each call of `Decode` is counted once: modulo 2^64 the sum of the five counters of decodings
-- grows by one, the counter of accepted messages grows exactly when an envelope is returned, and
-- the counter of duplicates stays.
pub decode-counted :
    (json : Json) (c : Codec) (now : Time) (payload : Payload)
    → let (d, answer) = decode json c now payload in
      (counted d % 18446744073709551616 ≡ (counted c + 1) % 18446744073709551616)
      × (d.decoded ≡ decoded_after c answer)
      × (d.duplicates ≡ c.duplicates)
unfolding decode
decode-counted json c now payload =
    if-elim (Counts c) (ltb c.maximum_payload (length payload)) _ _ (λ _. (omega arith, refl, refl))
      (λ _. parsed-Counts json c now (json.decode_envelope payload))

-- The envelope that `Encode` makes of its arguments.
abbrev pub sealed :
    Codec → String → String → String → Time → Option Time → Option ℕ → Payload → Envelope
sealed c message_id source correlation_id occurred_at expires_at revision content = record {
  schema_version = schema_version;
  message_id = message_id;
  correlation_id = correlation_id;
  source = source;
  site_id = c.site_id;
  occurred_at = occurred_at;
  expires_at = expires_at;
  revision = revision;
  content = content;
}

encode-made :
    (json : Json) (c : Codec) (now : Time) (message_id source correlation_id : String)
    (occurred_at : Time) (expires_at : Option Time) (revision : Option ℕ)
    (content payload : Payload)
    → encode json c now message_id source correlation_id occurred_at expires_at revision
        (ok content)
      ≡ ok payload
    → let e = sealed c message_id source correlation_id occurred_at expires_at revision content in
      (validate json c now e ≡ ok tt)
      × (json.marshal_envelope e ≡ ok payload)
      × (length payload ≤ c.maximum_payload)
unfolding encode
encode-made json c now message_id source correlation_id occurred_at expires_at revision content
      payload h =
    let e = sealed c message_id source correlation_id occurred_at expires_at revision content in
    let (valid, later) = >>-eq-ok (validate json c now e) _ h in
    let (made, marshalled, last) = bind-ok (json.marshal_envelope e) _ later in
    let (fits, q) =
      >>-eq-ok (guard (not (ltb c.maximum_payload (length made))) payload_oversized) (ok made)
        last in
    let short = guard-ok (not (ltb c.maximum_payload (length made))) payload_oversized fits in
    rw (← ok-injective q) (valid, marshalled, ground (arith, short))

-- A message that is sound at one time is sound for any codec of the site before it expires.
IsSound-later :
    (json : Json) (c d : Codec) (now later : Time) (e : Envelope)
    → c.site_id ≡ d.site_id
    → BeforeExpiry later e.expires_at
    → IsSound json c now e
    → IsSound json d later e
IsSound-later json c d now later e site current s = record {
  versioned = s.versioned;
  identified = s.identified;
  short = s.short;
  sourced = s.sourced;
  ours = s.ours ∙ site;
  dated = s.dated;
  correlated = s.correlated;
  valid = s.valid;
  current = current;
}

-- What `Encode` makes, the codec of the same site decodes to the envelope with the same fields, at
-- any time before the message expires and if it takes payloads as long as the encoder's. The
-- condition on encoding/json is that its decoder reads what `Marshal` wrote of this envelope, and
-- finds nothing after it.
pub decode-encode :
    (json : Json) (c d : Codec) (now later : Time) (message_id source correlation_id : String)
    (occurred_at : Time) (expires_at : Option Time) (revision : Option ℕ)
    (content payload : Payload)
    → ((p : Payload)
        → json.marshal_envelope
            (sealed c message_id source correlation_id occurred_at expires_at revision content)
          ≡ ok p
        → json.decode_envelope p
          ≡ ok (
            sealed c message_id source correlation_id occurred_at expires_at revision content,
            ended,
          ))
    → c.site_id ≡ d.site_id
    → c.maximum_payload ≤ d.maximum_payload
    → BeforeExpiry later expires_at
    → encode json c now message_id source correlation_id occurred_at expires_at revision
        (ok content)
      ≡ ok payload
    → (decode json d later payload).1
      ≡ ok (sealed c message_id source correlation_id occurred_at expires_at revision content)
unfolding major
decode-encode json c d now later message_id source correlation_id occurred_at expires_at revision
      content payload reads site room current h =
    let e = sealed c message_id source correlation_id occurred_at expires_at revision content in
    let (valid, marshalled, short) =
      encode-made json c now message_id source correlation_id occurred_at expires_at revision
        content payload h in
    (decode_iff json d later payload e).1 (
      omega arith,
      reads payload marshalled,
      refl,
      IsSound-later json c d now later e site current (validate-IsSound json c now e valid),
    )
