-- ===== src/Output/Reach.antt =====
-- internal/output/service.go: the service under any sequence of its operations, each of which ends
-- before the next one begins. `Submit` gives the lock up between its look-up of the key and the
-- record (Scenarios/Output has the run of two calls that overlap there).
use aqua_os.Common.{
  ◌≡◌, refl, inl, inr, String, Bool, false, Option, none, some, List, [], ◌∷◌, Result, ok, err,
  Context, Time, Duration, leb_ℤ, pos, if-elim, ℕ, suc, Error, string_eq,
}
use aqua_os.Common.Map.{lookup}
use aqua_os.Safety.Engine.{WatchdogAction}
use aqua_os.Output.Command.{succeeded, Command, CommandResult}
use aqua_os.Output.Service.{Env, Service, tick}
use aqua_os.Output.Service.Ledger.{Inv, Inv-of, Origin, Origin-then}
use aqua_os.Output.Submit.{submit}
use aqua_os.Output.Submit.Outcome.{submit-Submitted}
use aqua_os.Output.Reconcile.{
  reconcile, expire_acknowledged, watchdog_submit, watchdog_command, run_actions, on_actions,
  run_watchdogs, continue_with,
}
use aqua_os.Output.Reconcile.Success.{Confirmed, reconcile-Settles, expire_acknowledged-Outcome}

-- A service that has just been constructed, over any state of the policy.
abbrev pub new_service : {P : Type 0} → P → Service P
new_service policy = record {
  results = [];
  idempotency = [];
  policy = policy;
  sent = [];
  published = [];
  ticks = 0;
  started = false;
}

module _ {P : Type 0} (env : Env P) where
  -- One call of an operation that changes the service, by whoever makes it, from its begin to its
  -- end with no other call in between.
  pub data Step (s : Service P) : Service P → Type 0 where
    submits : (ctx : Context) (c : Command) → Step s (submit env s ctx c).0
    reconciles :
        (ctx : Context) (id : String) (on : Bool) (at : Time)
        → Step s (reconcile env s ctx id on at).0
    expires :
        (ctx : Context) (id reason : String) (at : Time)
        → Step s (expire_acknowledged env s ctx id reason at).0
    watches : (ctx : Context) (ttl : Duration) → Step s (run_watchdogs env s ctx ttl).0

  pub data Reach (s : Service P) : Service P → Type 0 where
    here : Reach s s
    next : {t u : Service P} → Reach s t → Step t u → Reach s u

  -- The invariant, and no new success.
  abbrev Quiet : Service P → Service P → Type 0
  Quiet s t = Inv t × Origin s t

  Quiet-then : (s t u : Service P) → Quiet s t → Quiet t u → Quiet s u
  Quiet-then s t u (v, a) (w, b) = (w, Origin-then s t u a b)

  Quiet-tick :
      (s : Service P) (policy : P) (n : ℕ)
      → Inv s
      → Quiet s (record s { policy = policy; ticks = n })
  Quiet-tick s policy n v = (Inv-of s _ refl refl refl v, λ id r h k. h)

  watchdog_submit-Quiet :
      (s : Service P) (ctx : Context) (ttl : Duration) (a : WatchdogAction)
      (id correlation : Result String)
      → Inv s
      → Quiet s (watchdog_submit env s ctx ttl a id correlation).0
  unfolding watchdog_submit
  watchdog_submit-Quiet s ctx ttl a (err x) other v = Quiet-tick s s.policy _ v
  watchdog_submit-Quiet s ctx ttl a (ok id) (err x) v = Quiet-tick s s.policy _ v
  watchdog_submit-Quiet s ctx ttl a (ok id) (ok correlation) v =
      let t : Service P = record s { ticks = suc (suc s.ticks) } in
      let first = Quiet-tick s s.policy (suc (suc s.ticks)) v in
      let (_, _, o) = submit-Submitted env t ctx (watchdog_command ttl a id correlation) first.0 in
      Quiet-then s t _ first (o.inv, o.origin)

  continue_with-Quiet :
      (s : Service P) (round : Service P × Option (Option CommandResult) × Option Error)
      (rest : Service P × List (Option CommandResult) × Option Error)
      → Quiet s round.0
      → Quiet s rest.0
      → Quiet s (continue_with env round rest).0
  unfolding continue_with
  continue_with-Quiet s (t, r, some x) rest q w = q
  continue_with-Quiet s (t, r, none) rest q w = w

  run_actions-Quiet :
      (s : Service P) (ctx : Context) (ttl : Duration) (actions : List WatchdogAction)
      → Inv s
      → Quiet s (run_actions env s ctx ttl actions).0
  unfolding run_actions
  run_actions-Quiet s ctx ttl [] v = (v, λ id r h k. h)
  run_actions-Quiet s ctx ttl (a ∷ actions) v =
      let round =
        watchdog_submit env s ctx ttl a (env.new_command_id s.ticks)
          (env.new_correlation_id (suc s.ticks)) in
      let first =
        watchdog_submit-Quiet s ctx ttl a (env.new_command_id s.ticks)
          (env.new_correlation_id (suc s.ticks)) v in
      continue_with-Quiet s round (run_actions env round.0 ctx ttl actions) first
        (Quiet-then s round.0 _ first (run_actions-Quiet round.0 ctx ttl actions first.0))

  on_actions-Quiet :
      (s : Service P) (ctx : Context) (ttl : Duration) (answer : P × Result (List WatchdogAction))
      → Inv s
      → Quiet s (on_actions env s ctx ttl answer).0
  unfolding on_actions
  on_actions-Quiet s ctx ttl (policy, err x) v = Quiet-tick s policy s.ticks v
  on_actions-Quiet s ctx ttl (policy, ok actions) v =
      let t : Service P = record s { policy = policy } in
      let first = Quiet-tick s policy s.ticks v in
      Quiet-then s t _ first (run_actions-Quiet t ctx ttl actions first.0)

  run_watchdogs-Quiet :
      (s : Service P) (ctx : Context) (ttl : Duration)
      → Inv s
      → Quiet s (run_watchdogs env s ctx ttl).0
  unfolding run_watchdogs
  run_watchdogs-Quiet s ctx ttl v =
      let first = Quiet-tick s s.policy (suc s.ticks) v in
      let t : Service P = tick env s in
      if-elim (λ (b : Service P × List (Option CommandResult) × Option Error). Quiet s b.0)
        (leb_ℤ ttl (pos 0)) _ _ (λ _. (v, λ id r h k. h))
        (λ _. Quiet-then s t _ first (
          on_actions-Quiet t ctx ttl (env.check_watchdogs s.policy ctx (env.clock s.ticks))
            first.0))

  -- How a success comes about in one call.
  pub data Succeeds (s t : Service P) (id : String) (r : CommandResult) : Type 0 where
    earlier : lookup id s.results ≡ some r → Succeeds s t id r
    confirmed :
        (ctx : Context) (id' : String) (on : Bool) (at : Time)
        → t ≡ (reconcile env s ctx id' on at).0
        → Confirmed env s id' on at id r
        → Succeeds s t id r

  Step-Inv : {s t : Service P} → Inv s → Step s t → Inv t
  Step-Inv {s} v (submits ctx c) = (submit-Submitted env s ctx c v).2.inv
  Step-Inv {s} v (reconciles ctx id on at) = (reconcile-Settles env s ctx id on at v).0
  Step-Inv {s} v (expires ctx id reason at) =
      (expire_acknowledged-Outcome env s ctx id reason at v).inv
  Step-Inv {s} v (watches ctx ttl) = (run_watchdogs-Quiet s ctx ttl v).0

  -- `Reconcile` is the only path to success: in any call from consistent records, a command that is
  -- a success afterwards was that success before, or the call reconciled this acknowledged command
  -- with a report of what it asked for.
  pub Step-Succeeds :
      {s t : Service P} (step : Step s t) (id : String) (r : CommandResult)
      → Inv s
      → lookup id t.results ≡ some r
      → r.status ≡ succeeded
      → Succeeds s t id r
  Step-Succeeds {s} (submits ctx c) id r v h k =
      earlier ((submit-Submitted env s ctx c v).2.origin id r h k)
  Step-Succeeds {s} (reconciles ctx id' on at) id r v h k =
      elim ((reconcile-Settles env s ctx id' on at v).1 id r h k) [
        | inl old ↦ earlier old
        | inr now ↦ confirmed ctx id' on at refl now
      ]
  Step-Succeeds {s} (expires ctx id' reason at) id r v h k =
      earlier ((expire_acknowledged-Outcome env s ctx id' reason at v).origin id r h k)
  Step-Succeeds {s} (watches ctx ttl) id r v h k =
      earlier ((run_watchdogs-Quiet s ctx ttl v).1 id r h k)

  Reach-Inv : {s t : Service P} → Inv s → Reach s t → Inv t
  Reach-Inv v here = v
  Reach-Inv v (next r step) = Step-Inv (Reach-Inv v r) step

  -- Whatever calls are made of a new service, if none begins before the one before it has ended,
  -- then every filed key leads to a result, every command sent to the executor is filed under its
  -- idempotency key, and no key is sent twice.
  pub reachable_service-Inv : (policy : P) {s : Service P} → Reach (new_service policy) s → Inv s
  reachable_service-Inv policy r = Reach-Inv (record { indexed = tt; filed = tt; distinct = tt }) r
