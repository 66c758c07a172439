-- ===== src/Output/Service/Ledger.antt =====
-- internal/output/service.go: the invariant of the service's records, and how success arises.
use aqua_os.Common.{
  ◌≡◌, ◌≢◌, refl, ◌⊎◌, inl, inr, String, Option, none, some, List, [], ◌∷◌, arith, All, string_eq,
  ◌==◌, Bool-cases, Time, ℕ,
}
use aqua_os.Common.Map.{
  lookup, insert, lookup-insert, Has, All-insert, All-map, Has-insert, Has-insert_self,
}
use aqua_os.Events.Event.{EventType}
use aqua_os.Output.Command.{Status, succeeded, CommandReason, Command, CommandResult}
use aqua_os.Output.Service.{Env, Service, record_result, transition}
use aqua_os.Output.Service.Frame.{record-results, transition-results}

-- No two of these commands have the same key.
abbrev pub Distinct : List Command → Type 0
Distinct [] = Unit
Distinct (c ∷ cs) = All (λ (d : Command). d.idempotency_key ≢ c.idempotency_key) cs × Distinct cs

-- Every filed key leads to a result, every command sent to the executor is filed under its key, and
-- no key was sent twice.
pub record Inv {P : Type 0} (s : Service P) : Type 0 where
  pub indexed : All (λ (b : String × String). Has s.results b.1) s.idempotency
  pub filed : All (λ (c : Command). Has s.idempotency c.idempotency_key) s.sent
  pub distinct : Distinct s.sent

-- Whatever is a success later was that success before.
abbrev pub Origin : {P : Type 0} → Service P → Service P → Type 0
Origin s t =
    (id : String) (r : CommandResult)
    → lookup id t.results ≡ some r
    → r.status ≡ succeeded
    → lookup id s.results ≡ some r

module _ {P : Type 0} where
  -- The invariant reads only these three.
  pub Inv-of :
      (s t : Service P)
      → t.results ≡ s.results
      → t.idempotency ≡ s.idempotency
      → t.sent ≡ s.sent
      → Inv s
      → Inv t
  Inv-of s t p q r v = record {
    indexed = rw (p, q) v.indexed;
    filed = rw (q, r) v.filed;
    distinct = rw r v.distinct;
  }

  Origin-insert :
      (s t : Service P) (id : String) (r : CommandResult)
      → t.results ≡ insert id r s.results
      → r.status ≢ succeeded
      → Origin s t
  Origin-insert s t id r p q id' r' h k = elim (Bool-cases (id == id')) [
    | inl hit ↦
        let same : some r ≡ some r' = rw (p, lookup-insert id id' r s.results, hit) at h in
        absurd (q (ground arith))
    | inr miss ↦ rw (p, lookup-insert id id' r s.results, miss) at h
  ]

  pub Origin-then : (s t u : Service P) → Origin s t → Origin t u → Origin s u
  Origin-then s t u a b id r h k = a id r (b id r h k) k

  -- What one call leaves: the invariant, no new success, and either nothing sent or this one
  -- command, for which `G` holds.
  pub record Outcome (G : Type 0) (c : Command) (s t : Service P) : Type 0 where
    pub inv : Inv t
    pub origin : Origin s t
    pub sending : (t.sent ≡ s.sent) ⊎ ((t.sent ≡ c ∷ s.sent) × G)

  pub Outcome-refl : (G : Type 0) (c : Command) (s : Service P) → Inv s → Outcome G c s s
  Outcome-refl G c s v = record { inv = v; origin = λ id r h k. h; sending = inl refl }

  -- Only the clock's count and the policy's state moved.
  pub Outcome-touch :
      (G : Type 0) (c : Command) (s t : Service P) (policy : P) (ticks : ℕ)
      → Outcome G c s t
      → Outcome G c s (record t { policy = policy; ticks = ticks })
  Outcome-touch G c s t policy ticks o = record {
    inv = Inv-of t (record t { policy = policy; ticks = ticks }) refl refl refl o.inv;
    origin = o.origin;
    sending = o.sending;
  }

  -- The command leaves for the executor.
  pub Outcome-send :
      (G : Type 0) (c : Command) (s t : Service P) (ticks : ℕ)
      → G
      → Has t.idempotency c.idempotency_key
      → All (λ (d : Command). d.idempotency_key ≢ c.idempotency_key) s.sent
      → t.sent ≡ s.sent
      → Outcome G c s t
      → Outcome G c s (record t { sent = c ∷ t.sent; ticks = ticks })
  Outcome-send G c s t ticks g h a same o = record {
    inv = record {
      indexed = o.inv.indexed;
      filed = (h, o.inv.filed);
      distinct = (rw same a, o.inv.distinct);
    };
    origin = o.origin;
    sending = inr (rw same refl, g);
  }

  -- A filed key was not sent before unless it was filed before.
  pub unsent :
      (s : Service P) (key : String)
      → Inv s
      → lookup key s.idempotency ≡ none
      → All (λ (d : Command). d.idempotency_key ≢ key) s.sent
  unsent s key v absent =
      All-map (λ (d : Command). Has s.idempotency d.idempotency_key) _ s.sent
        (λ d h same. ground (arith, h)) v.filed

module _ {P : Type 0} (env : Env P) where
  record-Inv :
      (s : Service P) (c : Command) (status : Status) (reason : CommandReason) (t : EventType)
      → Inv s
      → Inv (record_result env s c status reason t).0
  record-Inv s c status reason t v =
      let (p, q, r, _) = record-results env s c status reason t in
      record {
        indexed =
            rw (p, q)
              (All-insert (λ (b : String × String). Has (insert c.id _ s.results) b.1)
                c.idempotency_key c.id s.idempotency (Has-insert_self c.id _ s.results)
                (All-map _ _ s.idempotency (λ b h. Has-insert c.id b.1 _ s.results h) v.indexed));
        filed =
            rw (q, r)
              (All-map _ _ s.sent (λ d h. Has-insert c.idempotency_key d.idempotency_key c.id _ h)
                v.filed);
        distinct = rw r v.distinct;
      }

  pub Outcome-record :
      (G : Type 0) (d : Command) (s u : Service P) (c : Command) (status : Status)
      (reason : CommandReason) (t : EventType)
      → status ≢ succeeded
      → Outcome G d s u
      → Outcome G d s (record_result env u c status reason t).0
  Outcome-record G d s u c status reason t h o =
      let (p, q, r, _) = record-results env u c status reason t in
      let out = (record_result env u c status reason t).0 in
      record {
        inv = record-Inv u c status reason t o.inv;
        origin = Origin-then s u out o.origin (Origin-insert u out c.id _ p h);
        sending = rw r o.sending;
      }

  pub transition-Inv :
      (s : Service P) (id : String) (status : Status) (reason : CommandReason) (t : EventType)
      (at : Option Time)
      → Inv s
      → Inv (transition env s id status reason t at).0
  transition-Inv s id status reason t at v =
      let (p, q, r, _) = transition-results env s id status reason t at in
      elim p [
        | inl same ↦ Inv-of s _ same q r v
        | inr (old, found, now) ↦ record {
          indexed =
              rw (now, q)
                (All-map _ _ s.idempotency (λ b h. Has-insert id b.1 _ s.results h) v.indexed);
          filed = rw (q, r) v.filed;
          distinct = rw r v.distinct;
        }
      ]

  pub Outcome-transition :
      (G : Type 0) (d : Command) (s u : Service P) (id : String) (status : Status)
      (reason : CommandReason) (t : EventType) (at : Option Time)
      → status ≢ succeeded
      → Outcome G d s u
      → Outcome G d s (transition env u id status reason t at).0
  Outcome-transition G d s u id status reason t at h o =
      let (p, q, r, _) = transition-results env u id status reason t at in
      let out = (transition env u id status reason t at).0 in
      record {
        inv = transition-Inv u id status reason t at o.inv;
        origin = Origin-then s u out o.origin (elim p [
          | inl same ↦ λ id' r' found k. rw same at found
          | inr (old, found, now) ↦ Origin-insert u out id _ now h
        ]);
        sending = rw r o.sending;
      }
