-- ===== src/Common/Results.antt =====
-- Go's `(value, error)` returns. The errors of the program are one enumeration, a constructor for
-- each `errors.New`; `wrapped` values of `fmt.Errorf("…: %w")` keep the error that they wrap.
use mathlib.Core.Path.{◌≡◌, refl}
use mathlib.Core.Bool.{Bool, true, false}
use mathlib.Core.Option.{some}
use Prim.Native.Nat.{ℕ}

pub data Error : Type 0 where
  context_cancelled : Error
  -- a failure of code outside the program: storage, random source, network, encoder
  external : ℕ → Error
  -- domain
  invalid_uuid capability_required unsupported_capability duplicate_capability : Error
  value_member_count value_member_missing unsupported_value_kind : Error
  quantity_not_finite unsupported_quantity_kind incompatible_unit : Error
  ph_out_of_range level_out_of_range unsupported_quality : Error
  timestamps_required observed_after_received fresh_for_not_positive : Error
  -- equipment
  invalid_state_transition : Error
  controlled_capabilities_required hazardous_required maximum_on_required : Error
  safety_input_required unsupported_equipment_kind negative_limit : Error
  maximum_on_exceeds_daily hazardous_fail_safe_on maximum_daily_on_required : Error
  safety_input_not_observation safety_input_id_invalid : Error
  -- safety
  safety_dependencies_required duplicate_profile unsupported_mode : Error
  override_fields_required override_expiry unknown_equipment reported_timestamp_required : Error
  -- output
  command_not_found idempotency_conflict invalid_command_transition : Error
  idempotency_key_invalid requester_required command_expiry : Error
  reconciliation_timestamp_required expiry_fields_required expiry_too_early : Error
  watchdog_ttl_not_positive executor_required executor_exists : Error
  -- alarms
  alarm_not_found alarm_duplicate invalid_alarm_transition condition_active : Error
  rule_fields_required rule_severity_invalid rule_delay_negative : Error
  -- state
  state_not_found unsupported_entity_kind unsupported_plane sensor_plane equipment_plane : Error
  attribute_required invalid_timestamps freshness_not_positive subscription_capacity : Error
  -- events
  bus_closed backpressure event_fields_required event_severity_invalid event_payload_invalid : Error
  event_type_and_handler_required : Error
  -- registries
  entry_not_found entry_exists device_owned name_required device_update_orphans : Error
  endpoint_exceeds_device observe_only output_capability_required : Error
  ownership_lookup_required endpoint_not_owned exceeds_endpoint : Error
  -- mqtt
  payload_oversized unknown_version message_expired message_duplicate : Error
  envelope_fields_invalid envelope_data_invalid trailing_json codec_site_invalid : Error
  maximum_payload_invalid idempotency_capacity_invalid : Error
  correlation_mismatch expiry_exceeds_envelope topic_resource_invalid unknown_purpose : Error
  purpose_has_constructor result_retained site_invalid : Error
  -- bench
  duplicate_policy unknown_endpoint : Error
  -- storage
  queue_full writer_stopped writer_bounds writer_already_started : Error
  point_fields_required point_limits point_tag_invalid point_field_invalid : Error
  -- lifecycle
  lifecycle_already_started deadline_exceeded : Error

pub data Result {ℓ} (A : Type ℓ) : Type ℓ where
  err : Error → Result A
  ok : A → Result A

-- `if !b { return x }`.
abbrev pub guard : Bool → Error → Result (Unit {0})
guard true x = ok tt
guard false x = err x

-- Go on with the value, or return the error.
infixl 5 ◌>>=◌ ◌>>◌
abbrev pub ◌>>=◌ {ℓ κ} : {A : Type ℓ} {B : Type κ} → Result A → (A → Result B) → Result B
err x >>= next = err x
ok a >>= next = next a

abbrev pub ◌>>◌ {ℓ} : {B : Type ℓ} → Result (Unit {0}) → Result B → Result B
err x >> rest = err x
ok u >> rest = rest

-- A function whose only result is an error.
abbrev pub Check : Type 0
Check = Result (Unit {0})

-- What the program reads of a `context.Context`: whether it is cancelled, and the correlation
-- identity that it carries ("" where there is none).
pub record Context : Type 0 where
  pub cancelled : Bool

-- `if err := ctx.Err(); err != nil { return err }`.
abbrev pub live : Context → Check
live ctx = if_cancelled ctx.cancelled
  where
    if_cancelled : Bool → Check
    if_cancelled true = err context_cancelled
    if_cancelled false = ok tt

pub ok-injective {ℓ} : {A : Type ℓ} {a b : A} → ok a ≡ ok b → a ≡ b
ok-injective h = cc

pub some-inj {ℓ} : {A : Type ℓ} {a b : A} → some a ≡ some b → a ≡ b
some-inj h = cc

pub >>-eq-ok {ℓ} :
    {B : Type ℓ} (c : Check) (r : Result B) {b : B} → (c >> r) ≡ ok b → (c ≡ ok tt) × (r ≡ ok b)
>>-eq-ok (ok u) r h = (refl, h)
>>-eq-ok (err x) r h = cc

-- What a chain that succeeds has gone through.
pub bind-ok {ℓ κ} :
    {A : Type ℓ} {B : Type κ} (r : Result A) (next : A → Result B) {b : B}
    → (r >>= next) ≡ ok b
    → (a : A) × (r ≡ ok a) × (next a ≡ ok b)
bind-ok (err x) next h = cc
bind-ok (ok a) next h = (a, refl, h)

pub guard-ok : (b : Bool) (x : Error) → guard b x ≡ ok tt → b ≡ true
guard-ok true x h = refl
guard-ok false x h = cc
