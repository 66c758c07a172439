-- ===== src/State/Manager/Invariant.antt =====
-- internal/state/manager.go: the manager under any sequence of its operations.
use aqua_os.Common.{
  ℕ, ◌≤◌, ◌≡◌, refl, sym, Option, none, some, List, [], ◌∷◌, Result, ok, err, Check, arith, All,
  Context, Time, if-elim, length, ltb, ◌||◌, nat_eq, some-inj, next_uint64,
}
use aqua_os.Common.Map.{Map, lookup, insert, delete, All-insert, All-delete, All-lookup}
use aqua_os.State.Key.{Key, key_eq}
use aqua_os.State.Entry.{Entry}
use aqua_os.State.Snapshot.{Snapshot, validate_entry}
use aqua_os.State.Manager.{
  Update, Subscription, Manager, new_manager, offer, deliver, snapshot_of, announce, take_oldest,
  revised, set_valid, set, delete_found, delete_key, subscribe, take_update, receive,
  remove_subscription, start, stop,
}
use aqua_os.State.Manager.Delivery.{newest, offer-Holds}

-- An entry stands under its own key and passes `validate`.
abbrev pub IsStored : Key × Entry → Type 0
IsStored (k, v) = (v.key ≡ k) × (validate_entry v ≡ ok tt)

-- A stream keeps to its capacity, and its newest update shows the revision.
pub record IsStream (revision : ℕ) (c : Subscription) : Type 0 where
  pub open_capacity : 1 ≤ c.capacity
  pub most_capacity : c.capacity ≤ 1024
  pub bounded : length c.updates ≤ c.capacity
  pub current : (u : Update) → newest c.updates ≡ some u → u.snapshot.revision ≡ revision

pub record Inv (m : Manager) : Type 0 where
  pub stored : All IsStored m.values
  pub streams : All (λ (b : ℕ × Subscription). IsStream m.revision b.1) m.subscribers

offer-IsStream :
    (r : ℕ) (s : Snapshot) (c : Subscription) → IsStream r c → IsStream s.revision (offer s c)
offer-IsStream r s c v =
    let (bound, same, u, last, shows) = offer-Holds s c v.open_capacity v.bounded in
    record {
      open_capacity = rw same v.open_capacity;
      most_capacity = rw same v.most_capacity;
      bounded = rw same bound;
      current = λ w h. let e : u ≡ w = some-inj (rw last at h) in rw (sym e, shows);
    }

deliver-IsStream :
    (r : ℕ) (s : Snapshot) (subscribers : Map ℕ Subscription)
    → All (λ (b : ℕ × Subscription). IsStream r b.1) subscribers
    → All (λ (b : ℕ × Subscription). IsStream s.revision b.1) (deliver s subscribers)
unfolding deliver
deliver-IsStream r s [] a = tt
deliver-IsStream r s ((id, c) ∷ subscribers) (v, a) =
    (offer-IsStream r s c v, deliver-IsStream r s subscribers a)

-- Any change of the values and the revision that is then announced.
announce-Inv :
    (m : Manager) (values : Map Key Entry) (revision : ℕ) (now : Time)
    → All IsStored values
    → Inv m
    → Inv (announce (record m { values = values; revision = revision }) now)
unfolding announce snapshot_of
announce-Inv m values revision now h v = record {
  stored = h;
  streams = deliver-IsStream m.revision _ m.subscribers v.streams;
}

revised-valid :
    (m : Manager) (v : Entry) → validate_entry v ≡ ok tt → validate_entry (revised m v) ≡ ok tt
unfolding validate_entry
revised-valid m v h = h

set_valid-Inv :
    (m : Manager) (v : Entry) (now : Time) (publish : Entry → Check) (checked : Check)
    → (checked ≡ ok tt → validate_entry v ≡ ok tt)
    → Inv m
    → Inv (set_valid m v now publish checked).0
unfolding set_valid
set_valid-Inv m v now publish (err x) h i = i
set_valid-Inv m v now publish (ok _) h i =
    announce-Inv m (insert v.key (revised m v) m.values) (next_uint64 m.revision) now
      (All-insert IsStored v.key (revised m v) m.values (refl, revised-valid m v (h refl)) i.stored)
      i

set-Inv :
    (m : Manager) (ctx : Context) (v : Entry) (now : Time) (publish : Entry → Check)
    → Inv m
    → Inv (set m ctx v now publish).0
unfolding set
set-Inv m ctx v now publish i =
    if-elim (λ (out : Manager × Result Entry). Inv out.0) ctx.cancelled _ _ (λ _. i)
      (λ _. set_valid-Inv m v now publish (validate_entry v) (λ h. h) i)

delete_found-Inv :
    (m : Manager) (k : Key) (now : Time) (found : Option Entry)
    → Inv m
    → Inv (delete_found m k now found).0
unfolding delete_found
delete_found-Inv m k now none i = i
delete_found-Inv m k now (some v) i =
    announce-Inv m (delete k m.values) (next_uint64 m.revision) now
      (All-delete IsStored k m.values i.stored) i

delete_key-Inv :
    (m : Manager) (ctx : Context) (k : Key) (now : Time) → Inv m → Inv (delete_key m ctx k now).0
unfolding delete_key
delete_key-Inv m ctx k now i =
    if-elim (λ (out : Manager × Check). Inv out.0) ctx.cancelled _ _ (λ _. i)
      (λ _. delete_found-Inv m k now (lookup k m.values) i)

subscribe-Inv :
    (m : Manager) (ctx : Context) (capacity : ℕ) (now : Time)
    → Inv m
    → Inv (subscribe m ctx capacity now).0
unfolding subscribe snapshot_of
subscribe-Inv m ctx capacity now i =
    if-elim (λ (out : Manager × Result ℕ). Inv out.0) ctx.cancelled _ _ (λ _. i)
      (λ _.
        if-elim (λ (out : Manager × Result ℕ). Inv out.0) (ltb capacity 1 || ltb 1024 capacity) _ _
          (λ _. i)
          (λ fits. record {
            stored = i.stored;
            streams =
                All-insert (λ (b : ℕ × Subscription). IsStream m.revision b.1) _ _ m.subscribers
                  (record {
                    open_capacity = ground arith;
                    most_capacity = ground arith;
                    bounded = ground arith;
                    current = λ u h. ground arith;
                  })
                  i.streams;
          }))

-- What is left of a stream once its oldest update is taken.
rest-IsStream :
    (r n : ℕ) (u : Update) (us : List Update)
    → IsStream r (record { capacity = n; updates = u ∷ us })
    → IsStream r (record { capacity = n; updates = us })
rest-IsStream r n u [] v = record {
  open_capacity = v.open_capacity;
  most_capacity = v.most_capacity;
  bounded = omega (arith, v.bounded);
  current = λ w h. cc;
}
rest-IsStream r n u (x ∷ us) v = record {
  open_capacity = v.open_capacity;
  most_capacity = v.most_capacity;
  bounded = omega (arith, v.bounded);
  current = v.current;
}

take_oldest-Inv :
    (m : Manager) (id n : ℕ) (us : List Update)
    → lookup id m.subscribers ≡ some (record { capacity = n; updates = us })
    → Inv m
    → Inv (take_oldest m id n us).0
unfolding take_oldest
take_oldest-Inv m id n [] h i = i
take_oldest-Inv m id n (u ∷ us) h i =
    let P : ℕ × Subscription → Type 0 = λ b. IsStream m.revision b.1 in
    record {
      stored = i.stored;
      streams =
          All-insert P id _ m.subscribers
            (rest-IsStream m.revision n u us (All-lookup P id _ m.subscribers i.streams h))
            i.streams;
    }

take_update-Inv :
    (m : Manager) (id : ℕ) (found : Option Subscription)
    → lookup id m.subscribers ≡ found
    → Inv m
    → Inv (take_update m id found).0
unfolding take_update
take_update-Inv m id none h i = i
take_update-Inv m id (some c) h i = take_oldest-Inv m id c.capacity c.updates h i

-- One call of an operation that changes the manager, or a reader's receipt of an update.
pub data Step (m : Manager) : Manager → Type 0 where
  sets :
      (ctx : Context) (v : Entry) (now : Time) (publish : Entry → Check)
      → Step m (set m ctx v now publish).0
  deletes : (ctx : Context) (k : Key) (now : Time) → Step m (delete_key m ctx k now).0
  subscribes : (ctx : Context) (capacity : ℕ) (now : Time) → Step m (subscribe m ctx capacity now).0
  receives : (id : ℕ) → Step m (receive m id).0
  removes : (id : ℕ) → Step m (remove_subscription m id)
  starts : Step m (start m)
  stops : Step m (stop m)

pub data Reach (m : Manager) : Manager → Type 0 where
  here : Reach m m
  next : {n o : Manager} → Reach m n → Step n o → Reach m o

Step-Inv : {m n : Manager} → Inv m → Step m n → Inv n
unfolding receive remove_subscription start stop
Step-Inv {m} i (sets ctx v now publish) = set-Inv m ctx v now publish i
Step-Inv {m} i (deletes ctx k now) = delete_key-Inv m ctx k now i
Step-Inv {m} i (subscribes ctx capacity now) = subscribe-Inv m ctx capacity now i
Step-Inv {m} i (receives id) = take_update-Inv m id (lookup id m.subscribers) refl i
Step-Inv {m} i (removes id) = record {
  stored = i.stored;
  streams =
      All-delete (λ (b : ℕ × Subscription). IsStream m.revision b.1) id m.subscribers i.streams;
}
Step-Inv i starts = record { stored = i.stored; streams = i.streams }
Step-Inv i stops = record { stored = i.stored; streams = tt }

Reach-Inv : {m n : Manager} → Inv m → Reach m n → Inv n
Reach-Inv i here = i
Reach-Inv i (next r s) = Step-Inv (Reach-Inv i r) s

-- Whatever calls are made of a new manager, every entry stands valid under its own key, and every
-- subscription keeps to a capacity of 1 to 1024 and shows the manager's revision in its newest
-- update.
pub reachable_manager-Inv : {m : Manager} → Reach new_manager m → Inv m
unfolding new_manager
reachable_manager-Inv r = Reach-Inv (record { stored = tt; streams = tt }) r
