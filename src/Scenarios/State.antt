-- ===== src/Scenarios/State.antt =====
-- The water sensor's entry, set, read and followed by a subscriber.
use mathlib.Core.List.{Perm}
use aqua_os.Common.{◌≡◌, refl, true, [], ◌∷◌, ok, Check, arith, if◌then◌else◌, add_time}
use aqua_os.Common.Map.{lookup, insert}
use aqua_os.Domain.Ids.{is_hex, dash_at, strip, decodes, has_frame, validate_codes, validate_uuid}
use aqua_os.Domain.Measurement.{stale, valid_quality}
use aqua_os.Domain.Value.{validate_value, validate_member}
use aqua_os.State.Key.{key_eq, key_beq, entity_kind_beq, plane_beq}
use aqua_os.State.Entry.{Entry}
use aqua_os.State.Snapshot.{Snapshot, read_at, place, collect, validate_entry}
use aqua_os.State.Snapshot.Order.{IsOrdered}
use aqua_os.State.Snapshot.Complete.{shown}
use aqua_os.State.Manager.{
  Subscription, Manager, new_manager, offer, deliver, snapshot_of, announce, revised, set_valid,
  set, get, snapshot, subscribe, receive,
}
use aqua_os.State.Manager.Delivery.{accounted, Holds, offer_accounts}
use aqua_os.State.Manager.Reads.{set-get, snapshot_complete}
use aqua_os.State.Manager.Invariant.{
  Inv, here, next, sets, subscribes, receives, reachable_manager-Inv,
}
use aqua_os.Scenarios.Data.{live_context, water, water_entry}

abbrev silent_publisher : Entry → Check
silent_publisher v = ok tt

abbrev filled : Manager
filled = (set new_manager live_context water_entry 20 silent_publisher).0

set_answers_first :
    (set new_manager live_context water_entry 20 silent_publisher).1 ≡ ok water_entry
unfolding set set_valid announce snapshot_of deliver new_manager insert collect place validate_entry
    validate_uuid validate_codes has_frame strip decodes is_hex dash_at validate_value
    validate_member valid_quality
set_answers_first = refl

-- A minute later the entry is stale.
set-get_example :
    (water_entry ≡ revised new_manager water_entry)
    × (get filled live_context water 90000000000 ≡ (
        if key_eq.beq water water
        then ok (read_at 90000000000 water_entry)
        else get new_manager live_context water 90000000000))
set-get_example =
    set-get new_manager live_context live_context water_entry water_entry 20 90000000000
      silent_publisher water set_answers_first refl

water_stale :
    get filled live_context water 90000000000 ≡ ok (record water_entry { quality = stale })
unfolding get read_at key_beq entity_kind_beq plane_beq add_time set set_valid announce snapshot_of
    deliver new_manager lookup insert collect place validate_entry validate_uuid validate_codes
    has_frame strip decodes is_hex dash_at validate_value validate_member valid_quality
water_stale = refl

abbrev watered : Manager
watered = record {
  values = (water, water_entry) ∷ [];
  revision = 1;
  subscribers = [];
  next_subscriber = 0;
  started = true;
}

abbrev water_view : Snapshot
water_view = record { revision = 1; values = water_entry ∷ [] }

snapshot_complete_example :
    (water_view.revision ≡ watered.revision)
    × Perm water_view.values (shown 20 watered.values)
    × IsOrdered water_view.values
unfolding snapshot snapshot_of collect place read_at add_time
snapshot_complete_example = snapshot_complete watered live_context 20 water_view refl

abbrev blank : Snapshot
blank = record { revision = 3; values = [] }

-- A stream of one place that is full.
abbrev full : Subscription
full = record { capacity = 1; updates = record { snapshot = blank; dropped = 4 } ∷ [] }

offer_accounts_example :
    Holds blank full (offer blank full) × (accounted (offer blank full).updates ≡ 6)
offer_accounts_example = offer_accounts blank full (ground arith) (ground arith) (ground arith)

abbrev followed : Manager
followed = (subscribe filled live_context 1 21).0

reachable_manager-Inv_example : Inv (receive followed 1).0
reachable_manager-Inv_example = reachable_manager-Inv (
    next
      (next (next here (sets live_context water_entry 20 silent_publisher))
        (subscribes live_context 1 21))
      (receives 1))
