-- ===== src/Output/Service.antt =====
-- internal/output/service.go: the command service. Each operation runs to its end before the next
-- one starts. What the service asks of others is a field of `Env`; an answer may differ at every
-- call, so each takes the count of the readings made so far, which `ticks` keeps.
pub mod Frame
pub mod Ledger
use aqua_os.Common.{
  ℕ, suc, String, Bool, true, false, not, Option, none, some, List, [], ◌∷◌, ◌++◌, Result, ok, err,
  ◌>>=◌, Check, Error, context_cancelled, command_not_found, idempotency_conflict,
  invalid_command_transition, reconciliation_timestamp_required, expiry_fields_required,
  expiry_too_early, watchdog_ttl_not_positive, Context, Time, Duration, is_zero, before, add_time,
  ltb_ℤ, leb_ℤ, pos, eqb, if◌then◌else◌, ◌==◌, ◌||◌, string_eq,
}
use aqua_os.Common.Map.{Map, lookup, insert}
use aqua_os.Events.Event.{
  Event, EventType, Severity, info, warning, command_validated, command_rejected,
  command_dispatched, command_acknowledged, command_reconciled, command_expired, factory_new,
}
use aqua_os.Safety.Engine.{Intent, Decision, WatchdogAction}
use aqua_os.Output.Command.{
  Status, validated, rejected, dispatched, acknowledged, succeeded, failed, expired, CommandReason,
  validated_reason, dispatched_reason, expired_reason, revision_conflict, dispatch_failed,
  adapter_rejected, acknowledged_reason, reconciled, reported_mismatch, policy_reason,
  adapter_reason, Command, CommandResult, Acknowledgement, validate_command, equivalent,
}

-- `Policy` over a policy state, `RevisionReader`, `Executor`, the publisher, the clock and the
-- generators of identities, and the encoder of events.
pub record Env (P : Type 0) : Type 0 where
  pub evaluate : P → Context → Time → Intent → P × Result Decision
  pub record_reported : P → Context → String → Bool → Time → Result P
  pub check_watchdogs : P → Context → Time → P × Result (List WatchdogAction)
  pub revision : ℕ → Result ℕ
  pub dispatch : ℕ → Command → Result Acknowledgement
  pub publish : Option (ℕ → Event → Check)
  pub clock : ℕ → Time
  pub new_command_id : ℕ → Result String
  pub new_correlation_id : ℕ → Result String
  pub encode : CommandResult → Result String
  pub json_valid : String → Bool

-- The service, with the commands handed to the executor and the events handed to the publisher so
-- far, newest first.
pub record Service (P : Type 0) : Type 0 where
  pub results : Map String CommandResult
  pub idempotency : Map String String
  pub policy : P
  pub sent : List Command
  pub published : List Event
  pub ticks : ℕ
  pub started : Bool

-- A `(Result, error)` return: `none` is the zero `Result{}`.
abbrev pub Answer : Type 0
Answer = Option CommandResult × Option Error

abbrev pub failure : Error → Answer
failure x = (none, some x)

abbrev is_warning : Status → Severity
is_warning rejected = warning
is_warning failed = warning
is_warning expired = warning
is_warning _ = info

abbrev pub error_of : Check → Option Error
error_of (ok _) = none
error_of (err x) = some x

module _ {P : Type 0} (env : Env P) where
  abbrev pub Call : Type 0
  Call = Service P × Answer

  abbrev pub tick : Service P → Service P
  tick s = record s { ticks = suc s.ticks }

  -- Hands an event to the publisher.
  unfoldable pub deliver : (ℕ → Event → Check) → Service P → Result Event → Service P × Option Error
  deliver publish s (err x) = (s, some x)
  deliver publish s (ok event) =
      (record (tick s) { published = event ∷ s.published }, error_of (publish s.ticks event))

  unfoldable pub publish_with :
      Option (ℕ → Event → Check) → Service P → EventType → CommandResult → Service P × Option Error
  publish_with none s event_type r = (s, none)
  publish_with (some publish) s event_type r = deliver publish (tick s) (
      factory_new env.json_valid (env.clock s.ticks) (env.new_correlation_id s.ticks) "output"
        event_type (is_warning r.status) (env.encode r) r.command.correlation_id)

  -- `emit`.
  unfoldable pub emit : Service P → EventType → CommandResult → Service P × Option Error
  unfolding publish_with deliver
  emit s event_type r = publish_with env.publish s event_type r

  -- The result that `record` stores.
  abbrev pub fresh_result : Command → Status → CommandReason → Time → CommandResult
  fresh_result c status reason at = record {
    command = c;
    status = status;
    reason = reason;
    updated_at = at;
    acknowledged_at = none;
    reconciled_at = none;
  }

  -- `record`: files the result under the command and the command under its key.
  unfoldable pub record_result : Service P → Command → Status → CommandReason → EventType → Call
  record_result s c status reason event_type =
      let r = fresh_result c status reason (env.clock s.ticks) in
      let stored = record (tick s) {
        results = insert c.id r s.results;
        idempotency = insert c.idempotency_key c.id s.idempotency;
      } in
      let (s', e) = emit stored event_type r in (s', (some r, e))

  abbrev note_acknowledged : Status → Option Time → Option Time → Option Time
  note_acknowledged acknowledged at old = at
  note_acknowledged _ at old = old

  abbrev note_reconciled : Status → Option Time → Option Time → Option Time
  note_reconciled succeeded at old = at
  note_reconciled _ at old = old

  abbrev pub moved : CommandResult → Status → CommandReason → Time → Option Time → CommandResult
  moved r status reason now at = record r {
    status = status;
    reason = reason;
    updated_at = now;
    acknowledged_at = note_acknowledged status at r.acknowledged_at;
    reconciled_at = note_reconciled status at r.reconciled_at;
  }

  unfoldable pub move :
      Service P
      → String
      → Status
      → CommandReason
      → EventType
      → Option Time
      → Option CommandResult
      → Call
  move s id status reason event_type at none = (s, failure command_not_found)
  move s id status reason event_type at (some r) =
      let r' = moved r status reason (env.clock s.ticks) at in
      let (s', e) = emit (record (tick s) { results = insert id r' s.results }) event_type r' in
      (s', (some r', e))

  -- `transition`.
  unfoldable pub transition :
      Service P → String → Status → CommandReason → EventType → Option Time → Call
  transition s id status reason event_type at =
      move s id status reason event_type at (lookup id s.results)
