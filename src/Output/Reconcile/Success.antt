-- ===== src/Output/Reconcile/Success.antt =====
-- internal/output/service.go: how a command comes to its end.
use aqua_os.Common.{
  ◌≡◌, refl, sym, ◌∙◌, ◌⊎◌, inl, inr, String, Bool, not, Option, none, some, Result, ok, err, arith,
  string_eq, ◌==◌, ◌||◌, if-elim, Bool-cases, Context, Time, before, is_zero, eq_iff,
}
use aqua_os.Common.Map.{lookup, lookup-insert}
use aqua_os.Output.Command.{
  acknowledged, succeeded, failed, expired, reconciled, reported_mismatch, CommandResult,
}
use aqua_os.Events.Event.{command_reconciled}
use aqua_os.Output.Service.{Env, Service, Call, transition}
use aqua_os.Output.Submit.{zero_command as no_command}
use aqua_os.Output.Service.Frame.{transition-results}
use aqua_os.Output.Service.Ledger.{
  Inv, Inv-of, Outcome, Outcome-refl, Outcome-transition, transition-Inv,
}
use aqua_os.Output.Reconcile.{
  is_acknowledged, agrees, on_reported, reconcile_found, reconcile, expire_found,
  expire_acknowledged,
}

module _ {P : Type 0} (env : Env P) where
  -- The command was acknowledged, and the equipment reported what it asked for.
  abbrev pub Confirmed : Service P → String → Bool → Time → String → CommandResult → Type 0
  Confirmed s id on at id' r' =
      (id' ≡ id)
      × (r : CommandResult) × (lookup id s.results ≡ some r)
      × (r.status ≡ acknowledged)
      × (r.command.turn_on ≡ on)
      × (r'.command ≡ r.command)
      × (r'.reconciled_at ≡ some at)

  -- Each success afterwards was one before or has just been confirmed.
  abbrev pub Confirms : Service P → String → Bool → Time → Service P → Type 0
  Confirms s id on at t =
      (id' : String) (r' : CommandResult)
      → lookup id' t.results ≡ some r'
      → r'.status ≡ succeeded
      → (lookup id' s.results ≡ some r') ⊎ Confirmed s id on at id' r'

  transition-Confirms :
      (s t : Service P) (id : String) (on : Bool) (at : Time) (r : CommandResult)
      → t.results ≡ s.results
      → lookup id s.results ≡ some r
      → r.status ≡ acknowledged
      → r.command.turn_on ≡ on
      → Confirms s id on at
          (transition env t id succeeded reconciled command_reconciled (some at)).0
  transition-Confirms s t id on at r same found ack agree id' r' h k =
      elim ((transition-results env t id succeeded reconciled command_reconciled (some at)).0) [
        | inl kept ↦ inl (rw (kept, same) at h)
        | inr (old, was, now) ↦ elim (Bool-cases (id == id')) [
          | inl hit ↦
              let e : id ≡ id' = (eq_iff id id').0 hit in
              let stored : some _ ≡ some r' =
                rw (now, lookup-insert id id' _ t.results, hit) at h in
              inr (sym e, r, found, ack, agree, ground (arith, same), ground arith)
          | inr miss ↦ inl (rw (now, lookup-insert id id' _ t.results, miss, same) at h)
        ]
      ]

  -- Nothing in the records changed.
  unchanged :
      (s t : Service P) (id : String) (on : Bool) (at : Time)
      → t.results ≡ s.results
      → Confirms s id on at t
  unchanged s t id on at same id' r' h k = inl (rw same at h)

  abbrev Settles : Service P → String → Bool → Time → Service P → Type 0
  Settles s id on at t = Inv t × Confirms s id on at t × (t.sent ≡ s.sent)

  failed-Settles :
      (s t : Service P) (id : String) (on : Bool) (at : Time)
      → t.results ≡ s.results
      → t.sent ≡ s.sent
      → Inv t
      → Settles s id on at (transition env t id failed reported_mismatch command_reconciled none).0
  failed-Settles s t id on at same sent v =
      let out = (transition env t id failed reported_mismatch command_reconciled none).0 in
      let o =
        Outcome-transition env ⊥ no_command t t id failed reported_mismatch command_reconciled none
          (λ e. cc) (Outcome-refl ⊥ no_command t v) in
      (
        o.inv,
        λ id' r' h k. inl (rw same at (o.origin id' r' h k)),
        elim o.sending [ inl kept ↦ kept ∙ sent | inr (_, never) ↦ absurd never ],
      )

  on_reported-Settles :
      (s : Service P) (id : String) (on : Bool) (at : Time) (r : CommandResult) (answer : Result P)
      → Inv s
      → lookup id s.results ≡ some r
      → r.status ≡ acknowledged
      → Settles s id on at (on_reported env s id on at r answer).0
  unfolding on_reported
  on_reported-Settles s id on at r (err x) v found ack = (v, unchanged s s id on at refl, refl)
  on_reported-Settles s id on at r (ok policy) v found ack =
      let t : Service P = record s { policy = policy } in
      let w = Inv-of s t refl refl refl v in
      if-elim (λ (out : Call env). Settles s id on at out.0) (not (agrees on r.command.turn_on)) _ _
        (λ _. failed-Settles s t id on at refl refl w)
        (λ same. (
          transition-Inv env t id succeeded reconciled command_reconciled (some at) w,
          transition-Confirms s t id on at r refl found ack (ground arith),
          (transition-results env t id succeeded reconciled command_reconciled (some at)).2,
        ))

  reconcile_found-Settles :
      (s : Service P) (ctx : Context) (id : String) (on : Bool) (at : Time)
      (filed : Option CommandResult)
      → Inv s
      → lookup id s.results ≡ filed
      → Settles s id on at (reconcile_found env s ctx id on at filed).0
  unfolding reconcile_found
  reconcile_found-Settles s ctx id on at none v found = (v, unchanged s s id on at refl, refl)
  reconcile_found-Settles s ctx id on at (some r) v found =
      if-elim (λ (out : Call env). Settles s id on at out.0) (not (is_acknowledged r.status)) _ _
        (λ _. (v, unchanged s s id on at refl, refl))
        (λ ack.
          on_reported-Settles s id on at r
            (env.record_reported s.policy ctx r.command.equipment_id on at) v found (ground arith))

  -- `Reconcile` keeps consistent records consistent and sends nothing. The only success that it
  -- makes is of the command named, which was acknowledged, and only if the report says what the
  -- command asked for; the success bears the time of the report.
  pub reconcile-Settles :
      (s : Service P) (ctx : Context) (id : String) (on : Bool) (at : Time)
      → Inv s
      → Inv (reconcile env s ctx id on at).0
        × Confirms s id on at (reconcile env s ctx id on at).0
        × ((reconcile env s ctx id on at).0.sent ≡ s.sent)
  unfolding reconcile
  reconcile-Settles s ctx id on at v =
      if-elim (λ (out : Call env). Settles s id on at out.0) ctx.cancelled _ _
        (λ _. (v, unchanged s s id on at refl, refl))
        (λ _.
          if-elim (λ (out : Call env). Settles s id on at out.0) (is_zero at) _ _
            (λ _. (v, unchanged s s id on at refl, refl))
            (λ _. reconcile_found-Settles s ctx id on at (lookup id s.results) v refl))

  expire_found-Outcome :
      (s : Service P) (id reason : String) (at : Time) (filed : Option CommandResult)
      → Inv s
      → Outcome ⊥ no_command s (expire_found env s id reason at filed).0
  unfolding expire_found
  expire_found-Outcome s id reason at none v = Outcome-refl ⊥ no_command s v
  expire_found-Outcome s id reason at (some r) v =
      if-elim (λ (out : Call env). Outcome ⊥ no_command s out.0) (not (is_acknowledged r.status)) _
        _ (λ _. Outcome-refl ⊥ no_command s v)
        (λ _.
          if-elim (λ (out : Call env). Outcome ⊥ no_command s out.0)
            (before at r.command.expires_at) _ _ (λ _. Outcome-refl ⊥ no_command s v)
            (λ _.
              Outcome-transition env ⊥ no_command s s id expired _ _ none (λ e. cc)
                (Outcome-refl ⊥ no_command s v)))

  pub expire_acknowledged-Outcome :
      (s : Service P) (ctx : Context) (id reason : String) (at : Time)
      → Inv s
      → Outcome ⊥ no_command s (expire_acknowledged env s ctx id reason at).0
  unfolding expire_acknowledged
  expire_acknowledged-Outcome s ctx id reason at v =
      if-elim (λ (out : Call env). Outcome ⊥ no_command s out.0) ctx.cancelled _ _
        (λ _. Outcome-refl ⊥ no_command s v)
        (λ _.
          if-elim (λ (out : Call env). Outcome ⊥ no_command s out.0) (reason == "" || is_zero at) _
            _ (λ _. Outcome-refl ⊥ no_command s v)
            (λ _. expire_found-Outcome s id reason at (lookup id s.results) v))
