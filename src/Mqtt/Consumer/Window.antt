-- ===== src/Mqtt/Consumer/Window.antt =====
-- internal/mqtt/envelope.go: `seen` and `order` of the consumer are one bounded window, under any
-- interleaving of the parts of `Consume`.
use aqua_os.Common.{
  ℕ, ◌+◌, ◌≤◌, String, ◌≡◌, refl, sym, ◌∙◌, ap, Bool, true, false, not, ◌||◌, Option, none, some,
  List, [], ◌∷◌, ◌++◌, length, length-append, Bool-cases, inl, inr, if-elim, arith, ltb,
  if◌then◌else◌, ◌==◌, string_eq, eq_iff, ok, some-inj, ok-injective, >>-eq-ok, subst, guard,
  idempotency_capacity_invalid,
}
use aqua_os.Common.Map.{Map, lookup, insert, delete, lookup-insert, lookup-delete}
use aqua_os.Mqtt.Envelope.{Codec}
use aqua_os.Mqtt.Consumer.{
  Consumer, new_consumer, drop_oldest, bounded, reserve_new, reserve, remove_first, release,
}

-- The message is listed.
abbrev pub contains : String → List String → Bool
contains id [] = false
contains id (x ∷ xs) = x == id || contains id xs

-- No message is listed twice.
abbrev pub Distinct : List String → Type 0
Distinct [] = Unit
Distinct (x ∷ xs) = (contains x xs ≡ false) × Distinct xs

abbrev present : Option (Unit {0}) → Bool
present none = false
present (some _) = true

-- The set holds the message.
abbrev pub has : String → Map String (Unit {0}) → Bool
has id seen = present (lookup id seen)

-- `seen` holds what `order` lists, each message is listed once, and no more than the capacity.
pub record IsWindow (c : Consumer) : Type 0 where
  pub agrees : (id : String) → has id c.seen ≡ contains id c.order
  pub distinct : Distinct c.order
  pub bound : length c.order ≤ c.capacity

contains-append :
    (id x : String) (xs : List String) → contains id (xs ++ x ∷ []) ≡ (contains id xs || x == id)
contains-append id x [] = ground arith
contains-append id x (y ∷ ys) = ground (arith, contains-append id x ys)

Distinct-append :
    (x : String) (xs : List String) → contains x xs ≡ false → Distinct xs → Distinct (xs ++ x ∷ [])
Distinct-append x [] h d = (refl, tt)
Distinct-append x (y ∷ ys) h (fresh, d) = (
  rw (contains-append y x ys) (ground (arith, fresh, h, eq_iff x y, eq_iff y x)),
  Distinct-append x ys (ground (arith, h)) d,
)

has-insert :
    (id x : String) (seen : Map String (Unit {0}))
    → has id (insert x tt seen) ≡ (x == id || has id seen)
has-insert id x seen = rw (lookup-insert x id tt seen) (ground arith)

has-delete :
    (id x : String) (seen : Map String (Unit {0}))
    → has id (delete x seen) ≡ (if x == id then false else has id seen)
has-delete id x seen = rw (lookup-delete x id seen) (ground arith)

contains-remove_first :
    (id x : String) (xs : List String)
    → Distinct xs
    → contains id (remove_first x xs) ≡ (if x == id then false else contains id xs)
unfolding remove_first
contains-remove_first id x [] d = ground arith
contains-remove_first id x (y ∷ ys) (fresh, d) =
    ground (arith, contains-remove_first id x ys d, eq_iff y x, eq_iff x id, eq_iff y id)

Distinct-remove_first : (x : String) (xs : List String) → Distinct xs → Distinct (remove_first x xs)
unfolding remove_first
Distinct-remove_first x [] d = tt
Distinct-remove_first x (y ∷ ys) (fresh, d) = elim (Bool-cases (y == x)) [
  | inl same ↦ rw same d
  | inr other ↦
      rw other
        (rw (contains-remove_first y x ys d, fresh) (ground arith), Distinct-remove_first x ys d)
]

pub length-remove_first : (x : String) (xs : List String) → length (remove_first x xs) ≤ length xs
unfolding remove_first
length-remove_first x [] = omega arith
length-remove_first x (y ∷ ys) = ground (arith, length-remove_first x ys)

pub release-IsWindow : (c : Consumer) (id : String) → IsWindow c → IsWindow (release c id)
unfolding release
release-IsWindow c id w = record {
  agrees = λ j.
      rw (has-delete j id c.seen, contains-remove_first j id c.order w.distinct, w.agrees j) refl;
  distinct = Distinct-remove_first id c.order w.distinct;
  bound = omega (arith, length-remove_first id c.order, w.bound);
}

-- The window before its bound is restored.
record IsOverfull (c : Consumer) : Type 0 where
  agrees : (id : String) → has id c.seen ≡ contains id c.order
  distinct : Distinct c.order
  bound : length c.order ≤ c.capacity + 1

drop_oldest-IsWindow :
    (c : Consumer) (order : List String)
    → c.order ≡ order
    → IsOverfull c
    → length order ≡ c.capacity + 1
    → IsWindow (drop_oldest c order)
unfolding drop_oldest
drop_oldest-IsWindow c [] q w full = absurd (omega (arith, full))
drop_oldest-IsWindow c (x ∷ xs) q w full =
    let (fresh, distinct) = rw q at w.distinct in
    record {
      agrees = λ j. rw (has-delete j x c.seen, w.agrees j, q) (ground (arith, fresh, eq_iff x j));
      distinct = distinct;
      bound = omega (arith, full);
    }

bounded-IsWindow : (c : Consumer) → IsOverfull c → IsWindow (bounded c)
unfolding bounded
bounded-IsWindow c w =
    if-elim IsWindow (ltb c.capacity (length c.order)) _ _
      (λ over. drop_oldest-IsWindow c c.order refl w (ground (arith, over, w.bound)))
      (λ within. record {
        agrees = w.agrees;
        distinct = w.distinct;
        bound = ground (arith, within);
      })

reserve_new-IsWindow :
    (c d : Consumer) (id : String) (o : Option (Unit {0}))
    → IsWindow c
    → lookup id c.seen ≡ o
    → reserve_new c id o ≡ some d
    → IsWindow d
unfolding reserve_new
reserve_new-IsWindow c d id (some u) w q h = cc
reserve_new-IsWindow c d id none w q h =
    let fresh : contains id c.order ≡ false = sym (w.agrees id) ∙ ap present q in
    rw (← some-inj h) (
      bounded-IsWindow (record c { seen = insert id tt c.seen; order = c.order ++ id ∷ [] })
        (record {
          agrees = λ j.
              rw (has-insert j id c.seen, contains-append j id c.order, w.agrees j) (ground arith);
          distinct = Distinct-append id c.order fresh w.distinct;
          bound = omega (arith, length-append c.order (id ∷ []), w.bound);
        }))

pub reserve-IsWindow :
    (c d : Consumer) (id : String) → IsWindow c → reserve c id ≡ some d → IsWindow d
unfolding reserve
reserve-IsWindow c d id w h = reserve_new-IsWindow c d id (lookup id c.seen) w refl h

-- The steps of concurrent calls of `Consume`: a reservation, and the end of a handler that failed.
-- What the codec counts in between does not matter here.
pub data Reach (c : Consumer) : Consumer → Type 0 where
  here : Reach c c
  reserves : {d e : Consumer} (id : String) → reserve d id ≡ some e → Reach c d → Reach c e
  releases : {d : Consumer} (id : String) → Reach c d → Reach c (release d id)
  counts : {d : Consumer} (codec : Codec) → Reach c d → Reach c (record d { codec = codec })

Reach-IsWindow : {c d : Consumer} → IsWindow c → Reach c d → IsWindow d
Reach-IsWindow w here = w
Reach-IsWindow w (reserves {d = d} {e = e} id h r) = reserve-IsWindow d e id (Reach-IsWindow w r) h
Reach-IsWindow w (releases {d = d} id r) = release-IsWindow d id (Reach-IsWindow w r)
Reach-IsWindow w (counts codec r) =
    let v = Reach-IsWindow w r in
    record { agrees = v.agrees; distinct = v.distinct; bound = v.bound }

abbrev empty : Codec → ℕ → Consumer
empty codec capacity = record { codec = codec; capacity = capacity; seen = []; order = [] }

new_consumer-IsWindow :
    (codec : Codec) (capacity : ℕ) (c : Consumer) → new_consumer codec capacity ≡ ok c → IsWindow c
unfolding new_consumer lookup
new_consumer-IsWindow codec capacity c h =
    let (fine, q) =
      >>-eq-ok (guard (not (ltb capacity 1 || ltb 1000000 capacity)) idempotency_capacity_invalid)
        (ok (empty codec capacity)) h in
    subst IsWindow (ok-injective q)
      (record { agrees = λ id. refl; distinct = tt; bound = omega arith })

-- However the calls of `Consume` of a new consumer interleave: its set holds exactly the messages
-- that its list has in order, the list has each once, and it has no more than the capacity.
pub reachable-IsWindow :
    (codec : Codec) (capacity : ℕ) (c d : Consumer)
    → new_consumer codec capacity ≡ ok c
    → Reach c d
    → IsWindow d
reachable-IsWindow codec capacity c d h r =
    Reach-IsWindow (new_consumer-IsWindow codec capacity c h) r
