-- ===== src/Events/Bus/Delivery.antt =====
-- internal/events/bus.go: which handlers a publication calls.
use aqua_os.Common.{
  ℕ, suc, ◌≡◌, refl, false, Option, none, some, List, [], ◌∷◌, Check, Context, nat_eq,
}
use aqua_os.Common.Map.{Map, lookup}
use aqua_os.Events.Event.{Event}
use aqua_os.Events.Bus.{Subscription, Bus, active_handler, turn, deliver_each, event_type_eq}

abbrev if_active : Option ℕ → ℕ → List ℕ → List ℕ
if_active none id calls = calls
if_active (some h) id calls = id ∷ calls

-- The active subscriptions of a list, the last one first, before others.
abbrev pub active_onto : Map ℕ Subscription → List ℕ → List ℕ → List ℕ
active_onto m [] calls = calls
active_onto m (id ∷ ids) calls =
    active_onto m ids (if_active (active_handler (lookup id m)) id calls)

module _ (answer : ℕ → Event → Check) (ctx : ℕ → Context)
    (live_context : (n : ℕ) → (ctx n).cancelled ≡ false) where
  -- A handler that does not use the bus.
  abbrev pub apart : ℕ → Event → Bus → Bus × Check
  apart handler event b = (b, answer handler event)

  -- The bus after the handlers of these subscriptions.
  abbrev calling : Bus → List ℕ → Bus
  calling b ids = record b { called = active_onto b.subscriptions ids b.called }

  after_turn :
      (event : Event) (n id : ℕ) (ids : List ℕ) (b : Bus) (o : Option ℕ)
      → ((c : Bus) → (deliver_each apart ctx event (suc n) ids c).0 ≡ calling c ids)
      → (deliver_each apart ctx event (suc n) ids (turn apart ctx event id b o).0).0
        ≡ record b { called = active_onto b.subscriptions ids (if_active o id b.called) }
  unfolding turn
  after_turn event n id ids b none rest = rest b
  after_turn event n id ids b (some h) rest = rest (record b { called = id ∷ b.called })

  -- Under a context that stays live, and if no handler uses the bus, the loop of `Publish` calls the
  -- handlers of the active subscriptions, each once and in the order of the list, and changes
  -- nothing else of the bus.
  pub deliver_each-called :
      (event : Event) (n : ℕ) (ids : List ℕ) (b : Bus)
      → (deliver_each apart ctx event n ids b).0
        ≡ record b { called = active_onto b.subscriptions ids b.called }
  unfolding deliver_each
  deliver_each-called event n [] b = refl
  deliver_each-called event n (id ∷ ids) b = rw (live_context n) (
      after_turn event n id ids b (active_handler (lookup id b.subscriptions))
        (deliver_each-called event (suc n) ids))
