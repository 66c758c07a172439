-- ===== src/Output/Reconcile.antt =====
-- internal/output/service.go: `Reconcile`, `ExpireAcknowledged`, `Get` and `RunWatchdogs`.
pub mod Success
use Prim.Native.String.{◌++◌ as text_append}
use aqua_os.Common.{
  ℕ, suc, String, Bool, true, false, not, Option, none, some, List, [], ◌∷◌, ◌++◌, Result, ok, err,
  Error, context_cancelled, command_not_found, invalid_command_transition,
  reconciliation_timestamp_required, expiry_fields_required, expiry_too_early,
  watchdog_ttl_not_positive, Context, Time, Duration, is_zero, before, add_time, leb_ℤ, pos,
  if◌then◌else◌, ◌==◌, ◌||◌, string_eq,
}
use aqua_os.Common.Map.{lookup}
use aqua_os.Events.Event.{command_reconciled, command_expired}
use aqua_os.Safety.Engine.{WatchdogAction}
use aqua_os.Output.Command.{
  Status, acknowledged, succeeded, failed, expired, reconciled, reported_mismatch, adapter_reason,
  Command, CommandResult,
}
use aqua_os.Output.Service.{Env, Service, Answer, failure, Call, tick, transition}
use aqua_os.Output.Submit.{submit}

abbrev pub is_acknowledged : Status → Bool
is_acknowledged acknowledged = true
is_acknowledged _ = false

abbrev pub agrees : Bool → Bool → Bool
agrees true b = b
agrees false b = not b

-- The command that a watchdog's action becomes.
abbrev pub watchdog_command : Duration → WatchdogAction → String → String → Command
watchdog_command ttl a id correlation = record {
  id = id;
  idempotency_key = text_append "watchdog/" id;
  correlation_id = correlation;
  equipment_id = a.equipment_id;
  requester = "safety-watchdog";
  issued_at = a.observed_at;
  expires_at = add_time a.observed_at ttl;
  expected_revision = none;
  turn_on = a.turn_on;
}

module _ {P : Type 0} (env : Env P) where
  unfoldable pub on_reported :
      Service P → String → Bool → Time → CommandResult → Result P → Call env
  on_reported s id on at r (err x) = (s, failure x)
  on_reported s id on at r (ok policy) =
      let s' = record s { policy = policy } in
      if not (agrees on r.command.turn_on)
      then transition env s' id failed reported_mismatch command_reconciled none
      else transition env s' id succeeded reconciled command_reconciled (some at)

  unfoldable pub reconcile_found :
      Service P → Context → String → Bool → Time → Option CommandResult → Call env
  reconcile_found s ctx id on at none = (s, failure command_not_found)
  reconcile_found s ctx id on at (some r) =
      if not (is_acknowledged r.status)
      then (s, failure invalid_command_transition)
      else on_reported s id on at r (env.record_reported s.policy ctx r.command.equipment_id on at)

  -- `Reconcile`.
  unfoldable pub reconcile : Service P → Context → String → Bool → Time → Call env
  reconcile s ctx id on at =
      if ctx.cancelled
      then (s, failure context_cancelled)
      else if is_zero at
      then (s, failure reconciliation_timestamp_required)
      else reconcile_found s ctx id on at (lookup id s.results)

  unfoldable pub expire_found : Service P → String → String → Time → Option CommandResult → Call env
  expire_found s id reason at none = (s, failure command_not_found)
  expire_found s id reason at (some r) =
      if not (is_acknowledged r.status)
      then (s, failure invalid_command_transition)
      else if before at r.command.expires_at
      then (s, failure expiry_too_early)
      else transition env s id expired (adapter_reason reason) command_expired none

  -- `ExpireAcknowledged`.
  unfoldable pub expire_acknowledged : Service P → Context → String → String → Time → Call env
  expire_acknowledged s ctx id reason at =
      if ctx.cancelled
      then (s, failure context_cancelled)
      else if reason == "" || is_zero at
      then (s, failure expiry_fields_required)
      else expire_found s id reason at (lookup id s.results)

  -- `Get`.
  unfoldable pub get : Service P → Context → String → Answer
  get s ctx id = if ctx.cancelled then failure context_cancelled else found (lookup id s.results)
    where
      found : Option CommandResult → Answer
      found none = failure command_not_found
      found (some r) = (some r, none)

  -- The results collected so far, and the error that ends the loop.
  abbrev pub Batch : Type 0
  Batch = Service P × List (Option CommandResult) × Option Error

  -- One round of the loop of `RunWatchdogs`, up to the submission.
  unfoldable pub watchdog_submit :
      Service P
      → Context
      → Duration
      → WatchdogAction
      → Result String
      → Result String
      → Service P × Option (Option CommandResult) × Option Error
  watchdog_submit s ctx ttl a (err x) other = (tick env s, none, some x)
  watchdog_submit s ctx ttl a (ok id) (err x) = (tick env (tick env s), none, some x)
  watchdog_submit s ctx ttl a (ok id) (ok correlation) =
      let (s', (r, e)) =
        submit env (tick env (tick env s)) ctx (watchdog_command ttl a id correlation) in
      (s', some r, e)

  abbrev collected : Option (Option CommandResult) → List (Option CommandResult)
  collected none = []
  collected (some r) = r ∷ []

  -- An error ends the loop; the round's result is collected in either case.
  unfoldable pub continue_with :
      Service P × Option (Option CommandResult) × Option Error → Batch → Batch
  continue_with (s, r, some x) rest = (s, collected r, some x)
  continue_with (s, r, none) rest = (rest.0, collected r ++ rest.1, rest.2)

  unfoldable pub run_actions : Service P → Context → Duration → List WatchdogAction → Batch
  run_actions s ctx ttl [] = (s, [], none)
  run_actions s ctx ttl (a ∷ actions) =
      let round =
        watchdog_submit s ctx ttl a (env.new_command_id s.ticks)
          (env.new_correlation_id (suc s.ticks)) in
      continue_with round (run_actions round.0 ctx ttl actions)

  unfoldable pub on_actions :
      Service P → Context → Duration → P × Result (List WatchdogAction) → Batch
  on_actions s ctx ttl (policy, err x) = (record s { policy = policy }, [], some x)
  on_actions s ctx ttl (policy, ok actions) =
      run_actions (record s { policy = policy }) ctx ttl actions

  -- `RunWatchdogs`.
  unfoldable pub run_watchdogs : Service P → Context → Duration → Batch
  run_watchdogs s ctx ttl =
      if leb_ℤ ttl (pos 0)
      then (s, [], some watchdog_ttl_not_positive)
      else on_actions (tick env s) ctx ttl (env.check_watchdogs s.policy ctx (env.clock s.ticks))
