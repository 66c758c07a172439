-- ===== src/Output/Submit.antt =====
-- internal/output/service.go: `Submit`, in the stages of the method. Each stage takes the service as
-- it finds it, and the method takes the lock stage by stage: it looks the key up under the lock, and
-- records the command under the lock again. `submit` runs the stages one after the other, as a call
-- does that no other call overlaps; where calls overlap, `submit_new` begins from what the others
-- have left since the look-up.
pub mod Checks
pub mod Outcome
pub mod Delivery
use aqua_os.Common.{
  ℕ, suc, String, Bool, true, false, not, Option, none, some, List, [], ◌∷◌, Result, ok, err, Check,
  context_cancelled, idempotency_conflict, Context, Time, is_zero, before, eqb, if◌then◌else◌, ◌==◌,
  string_eq,
}
use aqua_os.Common.Map.{lookup}
use aqua_os.Events.Event.{
  command_validated, command_rejected, command_dispatched, command_acknowledged, command_expired,
}
use aqua_os.Safety.Engine.{Intent, Decision}
use aqua_os.Output.Command.{
  validated, rejected, dispatched, acknowledged, failed, expired, validated_reason,
  dispatched_reason, expired_reason, revision_conflict, dispatch_failed, adapter_rejected,
  acknowledged_reason, policy_reason, Command, CommandResult, Acknowledgement, validate_command,
  equivalent,
}
use aqua_os.Output.Service.{Env, Service, failure, Call, tick, record_result, transition}

abbrev pub intent_of : Command → Intent
intent_of c = record { equipment_id = c.equipment_id; turn_on = c.turn_on; issued_at = c.issued_at }

-- `existing := s.results[id]`: a missing entry is the zero result.
abbrev pub zero_command : Command
zero_command = record {
  id = "";
  idempotency_key = "";
  correlation_id = "";
  equipment_id = "";
  requester = "";
  issued_at = 0;
  expires_at = 0;
  expected_revision = none;
  turn_on = false;
}

abbrev pub command_of : Option CommandResult → Command
command_of none = zero_command
command_of (some r) = r.command

module _ {P : Type 0} (env : Env P) where
  -- `if err != nil { return result, err }`, or go on.
  abbrev pub on_success : Call {P = P} env → (Service P → Call env) → Call env
  on_success (s, (r, none)) next = next s
  on_success (s, (r, some x)) next = (s, (r, some x))

  -- After the executor's answer.
  unfoldable pub settle : Service P → Command → Result Acknowledgement → Call env
  settle s c (err x) = transition env s c.id failed dispatch_failed command_rejected none
  settle s c (ok a) =
      if not a.accepted
      then transition env s c.id failed adapter_rejected command_rejected none
      else if is_zero a.acknowledged_at
      then transition env (tick env s) c.id acknowledged acknowledged_reason command_acknowledged
          (some (env.clock s.ticks))
      else transition env s c.id acknowledged acknowledged_reason command_acknowledged
          (some a.acknowledged_at)

  -- The call of the executor.
  unfoldable pub hand_over : Service P → Command → Call env
  hand_over s c = settle (record (tick env s) { sent = c ∷ s.sent }) c (env.dispatch s.ticks c)

  -- What follows an allowed command.
  unfoldable pub execute : Service P → Command → Call env
  execute s c =
      on_success (record_result env s c validated validated_reason command_validated) λ s1.
        on_success (transition env s1 c.id dispatched dispatched_reason command_dispatched none)
          λ s2. hand_over s2 c

  unfoldable pub on_decision : Service P → Command → Result Decision → Call env
  on_decision s c (err x) = (s, failure x)
  on_decision s c (ok d) =
      if not d.allowed
      then record_result env s c rejected (policy_reason d.reason) command_rejected
      else execute s c

  -- The safety policy; it reads the clock itself where the intent has no time.
  unfoldable pub authorise : Service P → Context → Command → Call env
  authorise s ctx c =
      let (policy, decision) = env.evaluate s.policy ctx (env.clock s.ticks) (intent_of c) in
      on_decision (record (tick env s) { policy = policy }) c decision

  unfoldable pub on_revision : Service P → Context → Command → ℕ → Result ℕ → Call env
  on_revision s ctx c expected (err x) = (s, failure x)
  on_revision s ctx c expected (ok current) =
      if not (eqb current expected)
      then record_result env s c rejected revision_conflict command_rejected
      else authorise s ctx c

  unfoldable pub check_revision : Service P → Context → Command → Option ℕ → Call env
  check_revision s ctx c none = authorise s ctx c
  check_revision s ctx c (some expected) =
      on_revision (tick env s) ctx c expected (env.revision s.ticks)

  -- A command whose key is new.
  unfoldable pub submit_new : Service P → Context → Command → Call env
  submit_new s ctx c =
      if not (before (env.clock s.ticks) c.expires_at)
      then record_result env (tick env s) c expired expired_reason command_expired
      else check_revision (tick env s) ctx c c.expected_revision

  unfoldable pub replay : Service P → Command → Option CommandResult → Call env
  replay s c existing =
      if equivalent (command_of existing) c
      then (s, (existing, none))
      else (s, failure idempotency_conflict)

  unfoldable pub by_key : Service P → Context → Command → Option String → Call env
  by_key s ctx c none = submit_new s ctx c
  by_key s ctx c (some id) = replay s c (lookup id s.results)

  unfoldable pub on_valid : Service P → Context → Command → Check → Call env
  on_valid s ctx c (err x) = (s, failure x)
  on_valid s ctx c (ok _) = by_key s ctx c (lookup c.idempotency_key s.idempotency)

  unfoldable pub submit_valid : Service P → Context → Command → Call env
  submit_valid s ctx c = on_valid s ctx c (validate_command c)

  -- The identities that the caller left out.
  unfoldable pub with_correlation : Service P → Context → Command → Result String → Call env
  with_correlation s ctx c (err x) = (s, failure x)
  with_correlation s ctx c (ok id) = submit_valid s ctx (record c { correlation_id = id })

  unfoldable pub add_correlation : Service P → Context → Command → Call env
  add_correlation s ctx c =
      if c.correlation_id == ""
      then with_correlation (tick env s) ctx c (env.new_correlation_id s.ticks)
      else submit_valid s ctx c

  unfoldable pub with_id : Service P → Context → Command → Result String → Call env
  with_id s ctx c (err x) = (s, failure x)
  with_id s ctx c (ok id) = add_correlation s ctx (record c { id = id })

  unfoldable pub add_id : Service P → Context → Command → Call env
  add_id s ctx c =
      if c.id == ""
      then with_id (tick env s) ctx c (env.new_command_id s.ticks)
      else add_correlation s ctx c

  -- `Submit`, as long as no other call overlaps it.
  unfoldable pub submit : Service P → Context → Command → Call env
  submit s ctx c = if ctx.cancelled then (s, failure context_cancelled) else add_id s ctx c
