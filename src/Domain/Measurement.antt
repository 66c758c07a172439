-- ===== src/Domain/Measurement.antt =====
-- internal/domain/measurement.go: quantities, their units, and measurements.
use aqua_os.Common.{
  String, Bool, true, false, ◌||◌, not, ok, ◌>>◌, guard, Check, quantity_not_finite,
  unsupported_quantity_kind, incompatible_unit, ph_out_of_range, level_out_of_range,
  unsupported_quality, timestamps_required, observed_after_received, fresh_for_not_positive, Time,
  Duration, is_zero, before, after, add_time, ltb_ℤ, pos, if◌then◌else◌,
}
use aqua_os.Domain.Ids.{validate_uuid}
use aqua_os.Domain.Float.{Float64, is_nan, is_inf, below_zero, above, fourteen, hundred}

pub data QuantityKind : Type 0 where
  temperature ph salinity flow level power voltage current : QuantityKind
  other : String → QuantityKind

pub data QuantityUnit : Type 0 where
  celsius ph_unit ppt liters_per_hour percent watts volts amperes : QuantityUnit
  other_unit : String → QuantityUnit

pub data Quality : Type 0 where
  good suspect stale invalid unavailable : Quality
  other_quality : String → Quality

pub record Quantity : Type 0 where
  pub kind : QuantityKind
  pub value : Float64
  pub units : QuantityUnit

-- The table `want` of `Quantity.Validate`.
unit_matches : QuantityKind → QuantityUnit → Bool
unit_matches temperature celsius = true
unit_matches ph ph_unit = true
unit_matches salinity ppt = true
unit_matches flow liters_per_hour = true
unit_matches level percent = true
unit_matches power watts = true
unit_matches voltage volts = true
unit_matches current amperes = true
unit_matches _ _ = false

supported_kind : QuantityKind → Bool
supported_kind (other s) = false
supported_kind _ = true

in_range : QuantityKind → Float64 → Check
in_range ph v = guard (not (below_zero v || above v fourteen)) ph_out_of_range
in_range level v = guard (not (below_zero v || above v hundred)) level_out_of_range
in_range _ v = ok tt

-- `Quantity.Validate`.
unfoldable pub validate_quantity : Quantity → Check
unfolding unit_matches supported_kind in_range
validate_quantity q = do
  guard (not (is_nan q.value || is_inf q.value)) quantity_not_finite
  guard (supported_kind q.kind) unsupported_quantity_kind
  guard (unit_matches q.kind q.units) incompatible_unit
  in_range q.kind q.value

unfoldable pub valid_quality : Quality → Bool
valid_quality (other_quality s) = false
valid_quality _ = true

pub record Measurement : Type 0 where
  pub sensor_id : String
  pub value : Quantity
  pub quality : Quality
  pub observed_at : Time
  pub received_at : Time
  pub fresh_for : Duration

-- `Measurement.Validate`.
unfoldable pub validate_measurement : Measurement → Check
unfolding valid_quality
validate_measurement m = do
  validate_uuid m.sensor_id
  validate_quantity m.value
  guard (valid_quality m.quality) unsupported_quality
  guard (not (is_zero m.observed_at || is_zero m.received_at)) timestamps_required
  guard (not (after m.observed_at m.received_at)) observed_after_received
  guard (ltb_ℤ (pos 0) m.fresh_for) fresh_for_not_positive

-- `Measurement.EffectiveQuality`.
unfoldable pub effective_quality : Measurement → Time → Quality
effective_quality m now = by_quality m.quality
  where
    aged : Quality → Quality
    aged q = if not (before now (add_time m.observed_at m.fresh_for)) then stale else q

    by_quality : Quality → Quality
    by_quality invalid = invalid
    by_quality unavailable = unavailable
    by_quality q = aged q
