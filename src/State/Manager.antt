-- ===== src/State/Manager.antt =====
-- internal/state/manager.go: the manager, its subscriptions and its operations. Each operation
-- takes the clock's reading; a channel is the list of the updates it holds, oldest first.
pub mod Delivery
pub mod Reads
pub mod Invariant
use aqua_os.Common.{
  ℕ, ◌+◌, ◌%◌, suc, Bool, true, false, not, ◌||◌, Option, none, some, List, [], ◌∷◌, ◌++◌, Result,
  ok, err, ◌>>=◌, ◌>>◌, guard, Check, Error, context_cancelled, state_not_found,
  subscription_capacity, Context, live, Time, ltb, length, if◌then◌else◌, nat_eq, next_uint64,
}
use aqua_os.Common.Map.{Map, lookup, insert, delete}
use aqua_os.State.Key.{Key, key_eq}
use aqua_os.State.Entry.{Entry}
use aqua_os.State.Snapshot.{Snapshot, read_at, collect, validate_entry}

pub record Update : Type 0 where
  pub snapshot : Snapshot
  pub dropped : ℕ

pub record Subscription : Type 0 where
  pub capacity : ℕ
  pub updates : List Update

pub record Manager : Type 0 where
  pub values : Map Key Entry
  pub revision : ℕ
  pub subscribers : Map ℕ Subscription
  pub next_subscriber : ℕ
  pub started : Bool

unfoldable pub new_manager : Manager
new_manager = record {
  values = [];
  revision = 0;
  subscribers = [];
  next_subscriber = 0;
  started = false;
}

-- A full channel: its oldest update makes place, and the new one counts it.
unfoldable pub supersede : Snapshot → List Update → List Update
supersede s [] = record { snapshot = s; dropped = 0 } ∷ []
supersede s (previous ∷ updates) =
    updates ++ record { snapshot = s; dropped = next_uint64 previous.dropped } ∷ []

-- The loop's body of `deliverLocked`.
unfoldable pub offer : Snapshot → Subscription → Subscription
offer s c =
    if ltb (length c.updates) c.capacity
    then record c { updates = c.updates ++ record { snapshot = s; dropped = 0 } ∷ [] }
    else record c { updates = supersede s c.updates }

unfoldable pub deliver : Snapshot → Map ℕ Subscription → Map ℕ Subscription
deliver s [] = []
deliver s ((id, c) ∷ subscribers) = (id, offer s c) ∷ deliver s subscribers

-- `snapshotLocked`.
unfoldable pub snapshot_of : Manager → Time → Snapshot
snapshot_of m now = record { revision = m.revision; values = collect now m.values }

-- The manager once it has delivered its snapshot.
unfoldable pub announce : Manager → Time → Manager
announce m now = record m { subscribers = deliver (snapshot_of m now) m.subscribers }

abbrev pub after_publish : Entry → Check → Result Entry
after_publish v (ok _) = ok v
after_publish v (err x) = err x

-- The entry as `Set` stores it.
abbrev pub revised : Manager → Entry → Entry
revised m v = record v { revision = next_uint64 m.revision }

-- `Set` of a valid entry; `publish` is what the publisher answers, `ok` where there is none.
unfoldable pub set_valid : Manager → Entry → Time → (Entry → Check) → Check → Manager × Result Entry
set_valid m v now publish (err x) = (m, err x)
set_valid m v now publish (ok _) =
    let w = revised m v in
    (
      announce (record m { revision = next_uint64 m.revision; values = insert v.key w m.values })
          now,
      after_publish w (publish w),
    )

-- `Set`.
unfoldable pub set : Manager → Context → Entry → Time → (Entry → Check) → Manager × Result Entry
set m ctx v now publish =
    if ctx.cancelled
    then (m, err context_cancelled)
    else set_valid m v now publish (validate_entry v)

abbrev found_at : Time → Option Entry → Result Entry
found_at now none = err state_not_found
found_at now (some v) = ok (read_at now v)

-- `Get`.
unfoldable pub get : Manager → Context → Key → Time → Result Entry
get m ctx k now = do live ctx; found_at now (lookup k m.values)

-- `Snapshot`.
unfoldable pub snapshot : Manager → Context → Time → Result Snapshot
snapshot m ctx now = do live ctx; ok (snapshot_of m now)

unfoldable pub delete_found : Manager → Key → Time → Option Entry → Manager × Check
delete_found m k now none = (m, err state_not_found)
delete_found m k now (some v) = (
  announce (record m { values = delete k m.values; revision = next_uint64 m.revision }) now,
  ok tt,
)

-- `Delete`.
unfoldable pub delete_key : Manager → Context → Key → Time → Manager × Check
delete_key m ctx k now =
    if ctx.cancelled then (m, err context_cancelled) else delete_found m k now (lookup k m.values)

-- `Subscribe`: the new stream holds the current snapshot.
unfoldable pub subscribe : Manager → Context → ℕ → Time → Manager × Result ℕ
subscribe m ctx capacity now =
    if ctx.cancelled
    then (m, err context_cancelled)
    else if ltb capacity 1 || ltb 1024 capacity
    then (m, err subscription_capacity)
    else let id = next_uint64 m.next_subscriber in
      (
        record m {
          next_subscriber = id;
          subscribers =
              insert id
                (record {
                  capacity = capacity;
                  updates = record { snapshot = snapshot_of m now; dropped = 0 } ∷ [];
                })
                m.subscribers;
        },
        ok id,
      )

-- A reader takes the oldest update of its stream.
unfoldable pub take_oldest : Manager → ℕ → ℕ → List Update → Manager × Option Update
take_oldest m id capacity [] = (m, none)
take_oldest m id capacity (u ∷ us) = (
  record m { subscribers = insert id (record { capacity = capacity; updates = us }) m.subscribers },
  some u,
)

unfoldable pub take_update : Manager → ℕ → Option Subscription → Manager × Option Update
take_update m id none = (m, none)
take_update m id (some c) = take_oldest m id c.capacity c.updates

unfoldable pub receive : Manager → ℕ → Manager × Option Update
receive m id = take_update m id (lookup id m.subscribers)

-- `removeSubscription`, once for a subscription's `Close`.
unfoldable pub remove_subscription : Manager → ℕ → Manager
remove_subscription m id = record m { subscribers = delete id m.subscribers }

unfoldable pub start : Manager → Manager
start m = record m { started = true }

-- `Stop`: every stream is closed.
unfoldable pub stop : Manager → Manager
stop m = record m { started = false; subscribers = [] }
