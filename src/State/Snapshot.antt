-- ===== src/State/Snapshot.antt =====
-- internal/state/manager.go: what a reader sees of an entry, the ordered snapshot, and `validate`.
pub mod Order
pub mod Complete
use Prim.Native.String.{◌++◌ as text_append}
use aqua_os.Common.{
  ℕ, String, Bool, true, false, not, ◌&&◌, ◌||◌, List, [], ◌∷◌, ok, err, ◌>>=◌, ◌>>◌, guard, Check,
  Error, unsupported_entity_kind, unsupported_plane, sensor_plane, equipment_plane,
  attribute_required, unsupported_quality, invalid_timestamps, freshness_not_positive, Time,
  is_zero, before, after, add_time, ltb_ℤ, pos, ltb, if◌then◌else◌, ◌==◌, string_eq,
}
use aqua_os.Common.Map.{Map}
use aqua_os.Domain.Ids.{codes, validate_uuid}
use aqua_os.Domain.Sorting.{codes_before}
use aqua_os.Domain.Measurement.{Quality, stale, valid_quality}
use aqua_os.Domain.Value.{validate_value}
use aqua_os.State.Key.{
  EntityKind, sensor, equipment, other_entity, Plane, observation, desired, reported, other_plane,
  Key,
}
use aqua_os.State.Entry.{Entry}

pub record Snapshot : Type 0 where
  pub revision : ℕ
  pub values : List Entry

-- The entry as it is read at an instant: stale once its freshness has run out.
unfoldable pub read_at : Time → Entry → Entry
read_at now v =
    if not (before now (add_time v.observed_at v.fresh_for))
    then record v { quality = stale }
    else v

abbrev entity_text : EntityKind → String
entity_text sensor = "sensor"
entity_text equipment = "equipment"
entity_text (other_entity s) = s

abbrev plane_text : Plane → String
plane_text observation = "observation"
plane_text desired = "desired"
plane_text reported = "reported"
plane_text (other_plane s) = s

-- `keyString`.
unfoldable pub key_string : Key → String
key_string k = text_append (entity_text k.entity_kind) (
    text_append "/" (
      text_append k.entity_id
        (text_append "/" (text_append (plane_text k.plane) (text_append "/" k.attribute)))))

unfoldable pub key_before : Entry → Entry → Bool
key_before a b = codes_before (codes (key_string a.key)) (codes (key_string b.key))

-- `sort.Slice` by the keys' texts, as an insertion sort: distinct keys have distinct texts.
unfoldable pub place : Entry → List Entry → List Entry
place v [] = v ∷ []
place v (w ∷ ws) = let rest = place v ws in if key_before w v then w ∷ rest else v ∷ w ∷ ws

-- The loop of `snapshotLocked` over the map, and the sorting.
unfoldable pub collect : Time → Map Key Entry → List Entry
collect now [] = []
collect now ((k, v) ∷ values) = place (read_at now v) (collect now values)

abbrev is_sensor : EntityKind → Bool
is_sensor sensor = true
is_sensor _ = false

abbrev is_equipment : EntityKind → Bool
is_equipment equipment = true
is_equipment _ = false

abbrev is_observation : Plane → Bool
is_observation observation = true
is_observation _ = false

abbrev is_known_plane : Plane → Bool
is_known_plane (other_plane s) = false
is_known_plane _ = true

-- `validate`.
unfoldable pub validate_entry : Entry → Check
validate_entry v = do
  guard (is_sensor v.key.entity_kind || is_equipment v.key.entity_kind) unsupported_entity_kind
  guard (is_known_plane v.key.plane) unsupported_plane
  guard (not (is_sensor v.key.entity_kind && not (is_observation v.key.plane))) sensor_plane
  guard (not (is_equipment v.key.entity_kind && is_observation v.key.plane)) equipment_plane
  validate_uuid v.key.entity_id
  guard (not (v.key.attribute == "")) attribute_required
  validate_value v.value
  guard (valid_quality v.quality) unsupported_quality
  guard (not (is_zero v.observed_at || is_zero v.received_at || after v.observed_at v.received_at))
      invalid_timestamps
  guard (ltb_ℤ (pos 0) v.fresh_for) freshness_not_positive
  validate_uuid v.source
