-- ===== src/Mqtt/Consumer/Memory.antt =====
-- internal/mqtt/envelope.go: how long the consumer remembers a message.
use aqua_os.Common.{
  ℕ, suc, ◌≤◌, ◌<◌, String, ◌≡◌, refl, sym, ◌∙◌, ap, true, false, Option, none, some, List, [], ◌∷◌,
  ◌++◌, length, length-append, Bool-cases, inl, inr, ◌⊎◌, if-elim, arith, ltb, ◌==◌, string_eq,
  eq_iff, some-inj, subst,
}
use aqua_os.Common.Map.{lookup, insert}
use aqua_os.Mqtt.Envelope.{Codec}
use aqua_os.Mqtt.Consumer.{
  Consumer, drop_oldest, bounded, reserve_new, reserve, remove_first, release,
}
use aqua_os.Mqtt.Consumer.Window.{
  contains, length-remove_first, IsWindow, reserve-IsWindow, release-IsWindow, has,
}

-- The message is listed with at most `n` messages behind it.
abbrev Behind : String → ℕ → List String → Type 0
Behind id n [] = ⊥
Behind id n (x ∷ xs) = ((x ≡ id) × (length xs ≤ n)) ⊎ Behind id n xs

Behind-append :
    (id : String) (n : ℕ) (x : String) (xs : List String)
    → Behind id n xs
    → Behind id (suc n) (xs ++ x ∷ [])
Behind-append id n x [] b = elim b [ ]
Behind-append id n x (y ∷ ys) (inl (q, short)) =
    inl (q, omega (arith, length-append ys (x ∷ []), short))
Behind-append id n x (y ∷ ys) (inr later) = inr (Behind-append id n x ys later)

Behind-last : (id : String) (xs : List String) → Behind id 0 (xs ++ id ∷ [])
Behind-last id [] = inl (refl, omega arith)
Behind-last id (x ∷ xs) = inr (Behind-last id xs)

Behind-tail :
    (id : String) (n : ℕ) (x : String) (xs : List String)
    → n < length xs
    → Behind id n (x ∷ xs)
    → Behind id n xs
Behind-tail id n x xs long (inl (q, short)) = absurd (omega (arith, long, short))
Behind-tail id n x xs long (inr later) = later

other_same : (y x id : String) → y ≡ id → (y == x) ≡ true → (x == id) ≡ false → ⊥
other_same y x id q same other = ground (arith, eq_iff y x, eq_iff x id)

Behind-remove_first :
    (id x : String) (n : ℕ) (xs : List String)
    → (x == id) ≡ false
    → Behind id n xs
    → Behind id n (remove_first x xs)
unfolding remove_first
Behind-remove_first id x n [] other b = elim b [ ]
Behind-remove_first id x n (y ∷ ys) other (inl (q, short)) = elim (Bool-cases (y == x)) [
  | inl same ↦ absurd (other_same y x id q same other)
  | inr differs ↦ rw differs (inl (q, omega (arith, length-remove_first x ys, short)))
]
Behind-remove_first id x n (y ∷ ys) other (inr later) = elim (Bool-cases (y == x)) [
  | inl same ↦ rw same later
  | inr differs ↦ rw differs (inr (Behind-remove_first id x n ys other later))
]

Behind-contains : (id : String) (n : ℕ) (xs : List String) → Behind id n xs → contains id xs ≡ true
Behind-contains id n [] b = elim b [ ]
Behind-contains id n (x ∷ xs) (inl (q, short)) = ground (arith, eq_iff x id)
Behind-contains id n (x ∷ xs) (inr later) = ground (arith, Behind-contains id n xs later)

drop_oldest-Behind :
    (id : String) (n : ℕ) (c : Consumer) (xs : List String)
    → n < c.capacity
    → c.capacity < length xs
    → Behind id n xs
    → Behind id n (drop_oldest c xs).order
unfolding drop_oldest
drop_oldest-Behind id n c [] room over b = elim b [ ]
drop_oldest-Behind id n c (x ∷ xs) room over b = Behind-tail id n x xs (omega (arith, room, over)) b

bounded-Behind :
    (id : String) (n : ℕ) (c : Consumer)
    → n < c.capacity
    → Behind id n c.order
    → Behind id n (bounded c).order
unfolding bounded
bounded-Behind id n c room b =
    if-elim (λ (d : Consumer). Behind id n d.order) (ltb c.capacity (length c.order)) _ _
      (λ over. drop_oldest-Behind id n c c.order room (ground (arith, over)) b) (λ _. b)

drop_oldest-capacity : (c : Consumer) (xs : List String) → (drop_oldest c xs).capacity ≡ c.capacity
unfolding drop_oldest
drop_oldest-capacity c [] = refl
drop_oldest-capacity c (x ∷ xs) = refl

bounded-capacity : (c : Consumer) → (bounded c).capacity ≡ c.capacity
unfolding bounded
bounded-capacity c =
    if-elim (λ (d : Consumer). d.capacity ≡ c.capacity) (ltb c.capacity (length c.order)) _ _
      (λ _. drop_oldest-capacity c c.order) (λ _. refl)

-- The consumer with one more message, before its bound is restored.
abbrev extended : Consumer → String → Consumer
extended c id = record c { seen = insert id tt c.seen; order = c.order ++ id ∷ [] }

reserve_new-bounded :
    (c d : Consumer) (id : String) (o : Option (Unit {0}))
    → reserve_new c id o ≡ some d
    → bounded (extended c id) ≡ d
unfolding reserve_new
reserve_new-bounded c d id none h = some-inj h
reserve_new-bounded c d id (some u) h = cc

reserve-bounded :
    (c d : Consumer) (id : String) → reserve c id ≡ some d → bounded (extended c id) ≡ d
unfolding reserve
reserve-bounded c d id h = reserve_new-bounded c d id (lookup id c.seen) h

-- Steps after which a message is remembered: `n` reservations, and no end of a failed handler of
-- that message.
pub data Run (id : String) (c : Consumer) : ℕ → Consumer → Type 0 where
  begins : Run id c 0 c
  takes :
      {n : ℕ} {d e : Consumer} (x : String)
      → reserve d x ≡ some e
      → Run id c n d
      → Run id c (suc n) e
  gives_up :
      {n : ℕ} {d : Consumer} (x : String)
      → (x == id) ≡ false
      → Run id c n d
      → Run id c n (release d x)
  recounts :
      {n : ℕ} {d : Consumer} (codec : Codec)
      → Run id c n d
      → Run id c n (record d { codec = codec })

-- What holds along a run.
record Remembers (id : String) (n capacity : ℕ) (d : Consumer) : Type 0 where
  window : IsWindow d
  sized : d.capacity ≡ capacity
  listed : n < capacity → Behind id n d.order

takes-Remembers :
    (id : String) (n capacity : ℕ) (d e : Consumer) (x : String)
    → reserve d x ≡ some e
    → Remembers id n capacity d
    → Remembers id (suc n) capacity e
takes-Remembers id n capacity d e x h r =
    let q = reserve-bounded d e x h in
    record {
      window = reserve-IsWindow d e x r.window h;
      sized = sym (ap (λ (c : Consumer). c.capacity) q) ∙ bounded-capacity (extended d x) ∙ r.sized;
      listed = λ room.
          subst (λ (c : Consumer). Behind id (suc n) c.order) q
            (bounded-Behind id (suc n) (extended d x) (rw r.sized room)
              (Behind-append id n x d.order (r.listed (omega (arith, room)))));
    }

Run-Remembers :
    (id : String) (c : Consumer) {n : ℕ} {d : Consumer}
    → Remembers id 0 c.capacity c
    → Run id c n d
    → Remembers id n c.capacity d
unfolding release
Run-Remembers id c r begins = r
Run-Remembers id c r (takes {n = n} {d = d} {e = e} x h run) =
    takes-Remembers id n c.capacity d e x h (Run-Remembers id c r run)
Run-Remembers id c r (gives_up {n = n} {d = d} x other run) =
    let s = Run-Remembers id c r run in
    record {
      window = release-IsWindow d x s.window;
      sized = s.sized;
      listed = λ room. Behind-remove_first id x n d.order other (s.listed room);
    }
Run-Remembers id c r (recounts {n = n} {d = d} codec run) =
    let s = Run-Remembers id c r run in
    let w = s.window in
    record {
      window = record { agrees = w.agrees; distinct = w.distinct; bound = w.bound };
      sized = s.sized;
      listed = s.listed;
    }

reserved-Remembers :
    (id : String) (c d : Consumer)
    → IsWindow c
    → reserve c id ≡ some d
    → Remembers id 0 d.capacity d
reserved-Remembers id c d w h =
    let q = reserve-bounded c d id h in
    record {
      window = reserve-IsWindow c d id w h;
      sized = refl;
      listed = λ room.
          subst (λ (e : Consumer). Behind id 0 e.order) q
            (bounded-Behind id 0 (extended c id)
              (subst (λ (k : ℕ). 0 < k)
                (sym (ap (λ (e : Consumer). e.capacity) q) ∙ bounded-capacity (extended c id)) room)
              (Behind-last id c.order));
    }

seen_refused :
    (c : Consumer) (id : String) (o : Option (Unit {0}))
    → lookup id c.seen ≡ o
    → has id c.seen ≡ true
    → reserve_new c id o ≡ none
unfolding reserve_new
seen_refused c id none q h = cc
seen_refused c id (some u) q h = refl

-- Once a message is reserved, it is refused as a duplicate after any further steps, as long as its
-- own handler has not failed and fewer other messages than the capacity were reserved.
pub reserve_remembers :
    (id : String) (n : ℕ) (c d e : Consumer)
    → IsWindow c
    → reserve c id ≡ some d
    → Run id d n e
    → n < d.capacity
    → reserve e id ≡ none
unfolding reserve
reserve_remembers id n c d e w h run room =
    let r = Run-Remembers id d (reserved-Remembers id c d w h) run in
    seen_refused e id (lookup id e.seen) refl
      (r.window.agrees id ∙ Behind-contains id n e.order (r.listed room))
