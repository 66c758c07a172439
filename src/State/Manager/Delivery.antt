-- ===== src/State/Manager/Delivery.antt =====
-- internal/state/manager.go: what `deliverLocked` does to one bounded stream.
use aqua_os.Common.{
  ℕ, suc, ◌+◌, ◌≤◌, ◌<◌, ◌≡◌, refl, Option, none, some, List, [], ◌∷◌, ◌++◌, arith, ltb, length,
  length-append, if-elim, next_uint64,
}
use aqua_os.State.Snapshot.{Snapshot}
use aqua_os.State.Manager.{Update, Subscription, supersede, offer}

-- The updates that a stream stands for: those that it holds, and those that they superseded.
abbrev pub accounted : List Update → ℕ
accounted [] = 0
accounted (u ∷ us) = suc u.dropped + accounted us

accounted-append : (us vs : List Update) → accounted (us ++ vs) ≡ accounted us + accounted vs
accounted-append [] vs = omega arith
accounted-append (u ∷ us) vs = omega (arith, accounted-append us vs)

-- The newest update.
abbrev pub newest : List Update → Option Update
newest [] = none
newest (u ∷ []) = some u
newest (u ∷ v ∷ us) = newest (v ∷ us)

newest-append : (us : List Update) (u : Update) → newest (us ++ u ∷ []) ≡ some u
newest-append [] u = refl
newest-append (v ∷ []) u = refl
newest-append (v ∷ w ∷ us) u = newest-append (w ∷ us) u

-- The bound of the stream, and its newest update.
abbrev pub Holds : Snapshot → Subscription → Subscription → Type 0
Holds s c d =
    (length d.updates ≤ c.capacity)
    × (d.capacity ≡ c.capacity)
    × (u : Update) × (newest d.updates ≡ some u)
    × (u.snapshot ≡ s)

supersede-Holds :
    (s : Snapshot) (n : ℕ) (us : List Update)
    → 1 ≤ n
    → length us ≤ n
    → Holds s
        (record { capacity = n; updates = us })
        (record { capacity = n; updates = supersede s us })
unfolding supersede
supersede-Holds s n [] k h =
    (omega (arith, k), refl, record { snapshot = s; dropped = 0 }, refl, refl)
supersede-Holds s n (v ∷ us) k h =
    let u : Update = record { snapshot = s; dropped = next_uint64 v.dropped } in
    (omega (arith, length-append us (u ∷ [])), refl, u, newest-append us u, refl)

pub offer-Holds :
    (s : Snapshot) (c : Subscription)
    → 1 ≤ c.capacity
    → length c.updates ≤ c.capacity
    → Holds s c (offer s c)
unfolding offer
offer-Holds s c k h =
    let u : Update = record { snapshot = s; dropped = 0 } in
    if-elim (Holds s c) (ltb (length c.updates) c.capacity) _ _
      (λ free. (
        ground (arith, length-append c.updates (u ∷ [])),
        refl,
        u,
        newest-append c.updates u,
        refl,
      ))
      (λ full. supersede-Holds s c.capacity c.updates k h)

supersede-accounted :
    (s : Snapshot) (us : List Update)
    → accounted us < 18446744073709551616
    → accounted (supersede s us) ≡ suc (accounted us)
unfolding supersede
supersede-accounted s [] r = omega arith
supersede-accounted s (v ∷ us) r =
    let u : Update = record { snapshot = s; dropped = next_uint64 v.dropped } in
    omega (arith, accounted-append us (u ∷ []))

offer-accounted :
    (s : Snapshot) (c : Subscription)
    → accounted c.updates < 18446744073709551616
    → accounted (offer s c).updates ≡ suc (accounted c.updates)
unfolding offer
offer-accounted s c r =
    if-elim (λ (d : Subscription). accounted d.updates ≡ suc (accounted c.updates))
      (ltb (length c.updates) c.capacity) _ _
      (λ free.
        omega (arith, accounted-append c.updates (record { snapshot = s; dropped = 0 } ∷ [])))
      (λ full. supersede-accounted s c.updates r)

-- A stream of at least one place never holds more than its capacity, its newest update is the
-- snapshot offered, and it accounts for each update: what it holds and what it counts as dropped
-- grow by one, as long as the count fits 64 bits.
pub offer_accounts :
    (s : Snapshot) (c : Subscription)
    → 1 ≤ c.capacity
    → length c.updates ≤ c.capacity
    → accounted c.updates < 18446744073709551616
    → Holds s c (offer s c) × (accounted (offer s c).updates ≡ suc (accounted c.updates))
offer_accounts s c k h r = (offer-Holds s c k h, offer-accounted s c r)
