-- ===== src/Scenarios/Events.antt =====
-- Three subscriptions to one type, the second of which was given up.
use aqua_os.Common.{ℕ, Bool, true, false, [], ◌∷◌, ok, Check, Context, nat_eq}
use aqua_os.Events.Event.{Event, state_changed, info}
use aqua_os.Events.Bus.{Subscription, Bus, event_type_eq}
use aqua_os.Scenarios.Data.{live_context, correlation}

abbrev to_state : ℕ → Bool → Subscription
to_state handler active = record { topic = state_changed; handler = handler; active = active }

abbrev bus : Bus
bus = record {
  subscriptions = (0, to_state 7 true) ∷ (1, to_state 8 false) ∷ (2, to_state 9 true) ∷ [];
  handlers = (state_changed, 0 ∷ 1 ∷ 2 ∷ []) ∷ [];
  closed = false;
  capacity = 2;
  in_flight = 1;
  next = 3;
  called = [];
}

abbrev change : Event
change = record {
  timestamp = 10;
  source = "state";
  event_type = state_changed;
  severity = info;
  payload = "{}";
  correlation_id = correlation;
}

abbrev content : ℕ → Event → Check
content handler event = ok tt

abbrev steady : ℕ → Context
steady n = live_context
