-- ===== src/Events/Bus.antt =====
-- internal/events/bus.go: the synchronous bus. A subscription is an object, known by its number; the
-- handlers of a type are the numbers of its subscriptions, in the order of registration. A handler
-- may use the bus: it turns the bus into another one and answers. `called` records the subscriptions
-- whose handler was called, newest first; `ctx` is the context as it is read at each turn of a loop.
pub mod Delivery
use mathlib.Core.Bool.{false≢true}
use aqua_os.Common.{
  ℕ, suc, Bool, true, false, not, ◌||◌, Option, none, some, List, [], ◌∷◌, ◌++◌, Result, ok, err,
  Check, Error, bus_closed, backpressure, event_type_and_handler_required, context_cancelled,
  Context, ltb, String, Eq, ◌==◌, string_eq, eq_iff, nat_eq, Bool-cases, inl, inr, if◌then◌else◌,
  ◌↔◌, ◌≡◌, ◌-◌, ◌⊎◌, refl,
}
use aqua_os.Common.Map.{Map, lookup, insert}
use aqua_os.Events.Event.{Event, EventType, other_event, validate_event}

String-discrete : Discrete String
String-discrete s t = by_test (Bool-cases (string_eq.beq s t))
  where
    by_test : (string_eq.beq s t ≡ true) ⊎ (string_eq.beq s t ≡ false) → Dec (s ≡ t)
    by_test (inl same) = yes ((eq_iff s t).0 same)
    by_test (inr other) = no (λ q. cc ((eq_iff s t).1 q))

pub EventType-discrete : Discrete EventType
EventType-discrete = hlevel String-discrete

abbrev pub decided : {A : Type 0} → Dec A → Bool
decided (yes p) = true
decided (no p) = false

pub decided_iff : {A : Type 0} (d : Dec A) → (decided d ≡ true) ↔ A
decided_iff (yes p) = (λ h. p, λ q. refl)
decided_iff (no p) = (λ h. absurd (false≢true h), λ q. absurd (p q))

instance abbrev pub event_type_eq : Eq EventType
event_type_eq = record {
  beq = λ a b. decided (EventType-discrete a b);
  beq_iff = λ a b. decided_iff (EventType-discrete a b);
}

pub record Subscription : Type 0 where
  pub topic : EventType
  pub handler : ℕ
  pub active : Bool

pub record Bus : Type 0 where
  pub subscriptions : Map ℕ Subscription
  pub handlers : Map EventType (List ℕ)
  pub closed : Bool
  pub capacity : ℕ
  pub in_flight : ℕ
  pub next : ℕ
  pub called : List ℕ

abbrev at_least_one : ℕ → ℕ
at_least_one n = if ltb n 1 then 1 else n

abbrev or_default : Option ℕ → ℕ
or_default none = 64
or_default (some n) = n

-- `NewBus`.
unfoldable pub new_bus : Option ℕ → Bus
new_bus capacity = record {
  subscriptions = [];
  handlers = [];
  closed = false;
  capacity = at_least_one (or_default capacity);
  in_flight = 0;
  next = 0;
  called = [];
}

-- `Start` and `Stop`.
unfoldable pub start : Bus → Check
start b = if b.closed then err bus_closed else ok tt

unfoldable pub stop : Bus → Bus
stop b = record b { closed = true; handlers = [] }

abbrev pub or_none : Option (List ℕ) → List ℕ
or_none none = []
or_none (some ids) = ids

abbrev is_untyped : EventType → Bool
is_untyped (other_event s) = s == ""
is_untyped _ = false

-- `Subscribe`: none stands for no handler.
unfoldable pub subscribe : Bus → EventType → Option ℕ → Bus × Result ℕ
subscribe b topic none = (b, err event_type_and_handler_required)
subscribe b topic (some handler) =
    if is_untyped topic
    then (b, err event_type_and_handler_required)
    else if b.closed
    then (b, err bus_closed)
    else (
      record b {
        subscriptions =
            insert b.next (record { topic = topic; handler = handler; active = true })
              b.subscriptions;
        handlers = insert topic (or_none (lookup topic b.handlers) ++ b.next ∷ []) b.handlers;
        next = suc b.next;
      },
      ok b.next,
    )

unfoldable pub deactivate : Bus → ℕ → Option Subscription → Bus
deactivate b id none = b
deactivate b id (some s) = record b {
  subscriptions = insert id (record s { active = false }) b.subscriptions;
}

-- `Unsubscribe`.
unfoldable pub unsubscribe : Bus → ℕ → Bus
unsubscribe b id = deactivate b id (lookup id b.subscriptions)

abbrev pub active_handler : Option Subscription → Option ℕ
active_handler none = none
active_handler (some s) = if s.active then some s.handler else none

module _ (handle : ℕ → Event → Bus → Bus × Check) (ctx : ℕ → Context) where
  abbrev failed : Check → List Error
  failed (ok _) = []
  failed (err x) = x ∷ []

  -- One turn: an inactive subscription is passed over.
  unfoldable pub turn : Event → ℕ → Bus → Option ℕ → Bus × List Error
  turn event id b none = (b, [])
  turn event id b (some handler) =
      let (b', answer) = handle handler event (record b { called = id ∷ b.called }) in
      (b', failed answer)

  -- The loop of `Publish` over the subscriptions that it has copied; `n` counts the turns.
  unfoldable pub deliver_each : Event → ℕ → List ℕ → Bus → Bus × List Error
  deliver_each event n [] b = (b, [])
  deliver_each event n (id ∷ ids) b =
      let (b', errors) = turn event id b (active_handler (lookup id b.subscriptions)) in
      let (last, more) = deliver_each event (suc n) ids b' in
      if (ctx n).cancelled then (b, context_cancelled ∷ []) else (last, errors ++ more)

  abbrev pub release : Bus × List Error → Bus × List Error
  release (b, errors) = (record b { in_flight = b.in_flight - 1 }, errors)

  -- `Publish` of a valid event.
  unfoldable pub publish_valid : Bus → Event → Check → Bus × List Error
  publish_valid b event (err x) = (b, x ∷ [])
  publish_valid b event (ok _) =
      if ltb b.in_flight b.capacity
      then release (
          deliver_each event 0 (or_none (lookup event.event_type b.handlers))
            (record b { in_flight = suc b.in_flight }))
      else (b, backpressure ∷ [])

  -- `Publish`.
  unfoldable pub publish : (String → Bool) → Bus → Event → Bus × List Error
  publish json_valid b event =
      if b.closed
      then (b, bus_closed ∷ [])
      else publish_valid b event (validate_event json_valid event)
