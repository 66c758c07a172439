-- ===== src/Output/Service/Frame.antt =====
-- internal/output/service.go: what `emit`, `record` and `transition` change.
use aqua_os.Common.{
  ◌≡◌, refl, ◌⊎◌, inl, inr, String, Option, some, arith, string_eq, Option-cases, Time,
}
use aqua_os.Common.Map.{lookup, insert}
use aqua_os.Events.Event.{EventType}
use aqua_os.Output.Command.{Status, CommandReason, Command, CommandResult}
use aqua_os.Output.Service.{
  Env, Service, emit, record_result, move, transition, moved, fresh_result,
}

-- The parts of the service that events do not touch.
abbrev pub SameRecords : {P : Type 0} → Service P → Service P → Type 0
SameRecords s t =
    (t.results ≡ s.results)
    × (t.idempotency ≡ s.idempotency)
    × (t.sent ≡ s.sent)
    × (t.policy ≡ s.policy)

module _ {P : Type 0} (env : Env P) where
  pub emit-SameRecords :
      (s : Service P) (event_type : EventType) (r : CommandResult)
      → SameRecords s (emit env s event_type r).0
  unfolding emit
  emit-SameRecords s event_type r = ground arith

  pub record-results :
      (s : Service P) (c : Command) (status : Status) (reason : CommandReason) (t : EventType)
      → let out = (record_result env s c status reason t).0 in
        (out.results ≡ insert c.id (fresh_result env c status reason (env.clock s.ticks)) s.results)
        × (out.idempotency ≡ insert c.idempotency_key c.id s.idempotency)
        × (out.sent ≡ s.sent)
        × (out.policy ≡ s.policy)
  unfolding record_result
  record-results s c status reason t = emit-SameRecords _ t _

  pub transition-results :
      (s : Service P) (id : String) (status : Status) (reason : CommandReason) (t : EventType)
      (at : Option Time)
      → let out = (transition env s id status reason t at).0 in
        ((out.results ≡ s.results)
          ⊎ ((r : CommandResult) × (lookup id s.results ≡ some r)
              × (out.results
                  ≡ insert id (moved env r status reason (env.clock s.ticks) at) s.results)))
        × (out.idempotency ≡ s.idempotency)
        × (out.sent ≡ s.sent)
        × (out.policy ≡ s.policy)
  unfolding transition move
  transition-results s id status reason t at = elim (Option-cases (lookup id s.results)) [
    | inl missing ↦ rw missing (inl refl, refl, refl, refl)
    | inr (r, found) ↦
        let (a, b, c, d) =
          emit-SameRecords _ t (moved env r status reason (env.clock s.ticks) at) in
        rw found (inr (r, refl, a), b, c, d)
  ]
