-- ===== src/Registry/Keyed.antt =====
-- What the three registries have in common: internal/devices/registry.go,
-- internal/sensors/registry.go and internal/equipment/registry.go write the same bodies of
-- `Register`, `Get`, `List`, of the sensors' and the equipment's `Update` and `Remove`, and of
-- `emit`. A copy of a value is the value, and the registry's lock makes each access one step.
pub mod Changes
use mathlib.Core.List.{Perm}
use aqua_os.Common.{
  String, Bool, Option, none, some, List, [], ◌∷◌, map, Result, ok, err, ◌>>=◌, ◌>>◌, Check, Error,
  context_cancelled, entry_not_found, entry_exists, Context, live, Time, if◌then◌else◌, ◌==◌,
  string_eq, ◌≡◌, ok-injective, >>-eq-ok,
}
use aqua_os.Common.Map.{Map, lookup, insert, delete}
use aqua_os.Domain.Sorting.{sort_by, sort_by-IsSorted, sort_by-Perm, IsSorted}
use aqua_os.Events.Event.{Event, EventType, info, factory_new}

-- What the publication of one call reads of its surroundings: the publisher, if there is one, the
-- encoder, the clock, the identity generator, and the correlation identity of the context.
pub record Surroundings (A : Type 0) : Type 0 where
  pub publisher : Option (Event → Check)
  pub encode : A → Result String
  pub json_valid : String → Bool
  pub now : Time
  pub fresh_correlation : Result String
  pub correlation_id : String

unfoldable pub publish_to :
    {A : Type 0} → Option (Event → Check) → Surroundings A → String → EventType → A → Check
publish_to none around source event_type payload = ok tt
publish_to (some publish) around source event_type payload = do
  event ←
      factory_new around.json_valid around.now around.fresh_correlation source event_type info
        (around.encode payload) around.correlation_id
  publish event

-- `emit`.
unfoldable pub emit : {A : Type 0} → Surroundings A → String → EventType → A → Check
unfolding publish_to
emit around source event_type payload = publish_to around.publisher around source event_type payload

-- The values of a map, in some order.
unfoldable pub values_of : {A : Type 0} → Map String A → List A
values_of m = map (λ b. b.1) m

-- A kind of registry: its name, and the identity of a value.
pub record Kind (A : Type 0) : Type 0 where
  pub source : String
  pub id_of : A → String
  pub with_id : A → String → A

module _ {A : Type 0} (kind : Kind A) where
  open kind use {source, id_of, with_id}

  -- A `(value, error)` return: `none` is the zero value.
  abbrev pub Answer : Type 0
  Answer = Option A × Check

  abbrev pub refusal : Map String A → Error → Map String A × Answer
  refusal m x = (m, (none, err x))

  unfoldable pub assign_id : A → Result String → Result A
  assign_id v fresh = if id_of v == "" then (do id ← fresh; ok (with_id v id)) else ok v

  unfoldable pub store_new :
      EventType → Map String A → Surroundings A → A → Option A → Map String A × Answer
  store_new event_type m around v (some old) = refusal m entry_exists
  store_new event_type m around v none =
      (insert (id_of v) v m, (some v, emit around source event_type v))

  unfoldable pub register_valid :
      EventType → Map String A → Surroundings A → A → Check → Map String A × Answer
  register_valid event_type m around v (err x) = refusal m x
  register_valid event_type m around v (ok _) = store_new event_type m around v (lookup (id_of v) m)

  unfoldable pub register_named :
      (A → Check) → EventType → Map String A → Surroundings A → Result A → Map String A × Answer
  register_named validate event_type m around (err x) = refusal m x
  register_named validate event_type m around (ok v) =
      register_valid event_type m around v (validate v)

  -- `Register`; `fresh` is what the identity generator would answer.
  unfoldable pub register :
      (A → Check)
      → EventType
      → Map String A
      → Context
      → A
      → Result String
      → Surroundings A
      → Map String A × Answer
  register validate event_type m ctx v fresh around =
      if ctx.cancelled
      then refusal m context_cancelled
      else register_named validate event_type m around (assign_id v fresh)

  unfoldable pub update_found :
      EventType → Map String A → Surroundings A → A → Option A → Map String A × Check
  update_found event_type m around v none = (m, err entry_not_found)
  update_found event_type m around v (some old) =
      (insert (id_of v) v m, emit around source event_type v)

  unfoldable pub update_valid :
      EventType → Map String A → Surroundings A → A → Check → Map String A × Check
  update_valid event_type m around v (err x) = (m, err x)
  update_valid event_type m around v (ok _) =
      update_found event_type m around v (lookup (id_of v) m)

  -- `Update` of a sensor or of a piece of equipment.
  unfoldable pub update :
      (A → Check) → EventType → Map String A → Context → A → Surroundings A → Map String A × Check
  update validate event_type m ctx v around =
      if ctx.cancelled
      then (m, err context_cancelled)
      else update_valid event_type m around v (validate v)

  abbrev found : Option A → Result A
  found none = err entry_not_found
  found (some v) = ok v

  -- `Get`.
  unfoldable pub get : Map String A → Context → String → Result A
  get m ctx id = do live ctx; found (lookup id m)

  -- `List`.
  unfoldable pub list : Map String A → Context → Result (List A)
  list m ctx = do live ctx; ok (sort_by id_of (values_of m))

  unfoldable pub remove_found :
      EventType → Map String A → Surroundings String → String → Option A → Map String A × Check
  remove_found event_type m around id none = (m, err entry_not_found)
  remove_found event_type m around id (some old) = (delete id m, emit around source event_type id)

  -- `Remove` of a sensor or of a piece of equipment.
  unfoldable pub remove :
      EventType → Map String A → Context → String → Surroundings String → Map String A × Check
  remove event_type m ctx id around =
      if ctx.cancelled
      then (m, err context_cancelled)
      else remove_found event_type m around id (lookup id m)

  -- A list is in the order of the identities and holds the registry's values, each as often.
  pub list-IsSorted :
      (m : Map String A) (ctx : Context) (vs : List A)
      → list m ctx ≡ ok vs
      → IsSorted id_of vs × Perm vs (values_of m)
  unfolding list
  list-IsSorted m ctx vs h =
      let e = ok-injective (>>-eq-ok (live ctx) (ok (sort_by id_of (values_of m))) h).1 in
      rw (← e) (sort_by-IsSorted id_of (values_of m), sort_by-Perm id_of (values_of m))
