-- ===== src/Output/Submit/Delivery.antt =====
-- internal/output/service.go: what `Submit` does for a request that nothing stands against, and for
-- one that it has seen before.
use aqua_os.Common.{
  ◌≡◌, ◌≢◌, refl, String, true, false, Option, none, some, ◌∷◌, ok, arith, string_eq, ◌==◌, Context,
  Time, before, is_zero, ℕ, suc, eq_iff, Bool-cases, inl, inr, idempotency_conflict,
}
use aqua_os.Common.Map.{Map, lookup, insert, lookup-insert}
use aqua_os.Events.Event.{EventType, command_validated, command_dispatched, command_acknowledged}
use aqua_os.Safety.Engine.{Decision}
use aqua_os.Output.Command.{
  Status, validated, dispatched, acknowledged, CommandReason, validated_reason, dispatched_reason,
  acknowledged_reason, Command, CommandResult, Acknowledgement, validate_command, equivalent,
}
use aqua_os.Output.Service.{
  Env, Service, Call, failure, tick, fresh_result, moved, publish_with, emit, record_result, move,
  transition,
}
use aqua_os.Output.Submit.{
  settle, hand_over, execute, on_decision, intent_of, authorise, check_revision, submit_new, replay,
  by_key, submit_valid, add_correlation, add_id, submit, on_valid,
}

module _ {P : Type 0} (env : Env P) where
  -- A request with its identities reaches `validateCommand` at once.
  named_submit :
      (s : Service P) (ctx : Context) (c : Command)
      → ctx.cancelled ≡ false
      → c.id ≢ ""
      → c.correlation_id ≢ ""
      → submit env s ctx c ≡ submit_valid env s ctx c
  unfolding submit add_id add_correlation
  named_submit s ctx c live' i k =
      let named : (c.id == "") ≡ false = ground (arith, eq_iff c.id "") in
      let traced : (c.correlation_id == "") ≡ false = ground (arith, eq_iff c.correlation_id "") in
      rw (live', named, traced) refl

  valid_submit :
      (s : Service P) (ctx : Context) (c : Command)
      → validate_command c ≡ ok tt
      → submit_valid env s ctx c ≡ by_key env s ctx c (lookup c.idempotency_key s.idempotency)
  unfolding submit_valid on_valid
  valid_submit s ctx c v = rw v refl

  -- Who asks for what, and under which key.
  pub record AsksSame (a b : Command) : Type 0 where
    pub key : a.idempotency_key ≡ b.idempotency_key
    pub equipment : a.equipment_id ≡ b.equipment_id
    pub requester : a.requester ≡ b.requester
    pub on : a.turn_on ≡ b.turn_on

  same_of : (a b : Command) → equivalent a b ≡ true → AsksSame a b
  unfolding equivalent
  same_of a b h = record {
    key = ground (arith, eq_iff a.idempotency_key b.idempotency_key);
    equipment = ground (arith, eq_iff a.equipment_id b.equipment_id);
    requester = ground (arith, eq_iff a.requester b.requester);
    on = ground arith;
  }

  equivalent_of : (a b : Command) → AsksSame a b → equivalent a b ≡ true
  unfolding equivalent
  equivalent_of a b same =
      let k = (eq_iff a.idempotency_key b.idempotency_key).1 same.key in
      let e = (eq_iff a.equipment_id b.equipment_id).1 same.equipment in
      let r = (eq_iff a.requester b.requester).1 same.requester in let o = same.on in ground arith

  -- The answer to a request whose key is filed with another one.
  abbrev pub Replays : Service P → Command → CommandResult → Call env → Type 0
  Replays s c r out =
      (AsksSame r.command c → out ≡ (s, (some r, none)))
      × (¬ AsksSame r.command c → out ≡ (s, failure idempotency_conflict))

  replay-Replays :
      (s : Service P) (c : Command) (id : String) (r : CommandResult)
      → lookup id s.results ≡ some r
      → Replays s c r (replay env s c (lookup id s.results))
  unfolding replay
  replay-Replays s c id r found = (
    λ same. rw (found, equivalent_of r.command c same) refl,
    λ other. elim (Bool-cases (equivalent r.command c)) [
      | inl equal ↦ absurd (other (same_of r.command c equal))
      | inr differ ↦ rw (found, differ) refl
    ],
  )

  -- Under a live context, a valid request with its identities whose key is filed is never sent
  -- again, and changes nothing. If the command filed under the key has the same key and requester
  -- and asks for the same state of the same equipment, then the answer is its result as it stands
  -- now; if any of these differs, the answer is a conflict.
  pub submit_again :
      (s : Service P) (ctx : Context) (c : Command) (id : String) (r : CommandResult)
      → ctx.cancelled ≡ false
      → c.id ≢ ""
      → c.correlation_id ≢ ""
      → validate_command c ≡ ok tt
      → lookup c.idempotency_key s.idempotency ≡ some id
      → lookup id s.results ≡ some r
      → Replays s c r (submit env s ctx c)
  unfolding by_key
  submit_again s ctx c id r live' i k v filed found =
      rw (named_submit s ctx c live' i k, valid_submit s ctx c v, filed)
        (replay-Replays s c id r found)

  lookup-insert_self :
      (id : String) (r : CommandResult) (m : Map String CommandResult)
      → lookup id (insert id r m) ≡ some r
  lookup-insert_self id r m = rw (lookup-insert id id r m, (string_eq.beq_iff id id).1 refl) refl

  emit_quiet :
      (s : Service P) (t : EventType) (r : CommandResult)
      → env.publish ≡ none
      → emit env s t r ≡ (s, none)
  unfolding emit publish_with
  emit_quiet s t r quiet = rw quiet refl

  record_quiet :
      (s : Service P) (c : Command) (status : Status) (reason : CommandReason) (t : EventType)
      → env.publish ≡ none
      → record_result env s c status reason t ≡ (
        record (tick env s) {
          results = insert c.id (fresh_result env c status reason (env.clock s.ticks)) s.results;
          idempotency = insert c.idempotency_key c.id s.idempotency;
        },
        (some (fresh_result env c status reason (env.clock s.ticks)), none),
      )
  unfolding record_result emit publish_with
  record_quiet s c status reason t quiet = rw quiet refl

  transition_quiet :
      (s : Service P) (id : String) (status : Status) (reason : CommandReason) (t : EventType)
      (at : Option Time) (r : CommandResult)
      → env.publish ≡ none
      → lookup id s.results ≡ some r
      → transition env s id status reason t at ≡ (
        record (tick env s) {
          results = insert id (moved env r status reason (env.clock s.ticks) at) s.results;
        },
        (some (moved env r status reason (env.clock s.ticks) at), none),
      )
  unfolding transition move emit publish_with
  transition_quiet s id status reason t at r quiet found = rw (found, quiet) refl

  -- The command was handed over once and its result is acknowledged.
  abbrev pub Delivered : Service P → Command → Time → Call env → Type 0
  Delivered s c at (t, answer) =
      (r : CommandResult) × (lookup c.id t.results ≡ some r)
      × (answer ≡ (some r, none))
      × (r.command ≡ c)
      × (r.status ≡ acknowledged)
      × (r.acknowledged_at ≡ some at)
      × (t.sent ≡ c ∷ s.sent)
      × (lookup c.idempotency_key t.idempotency ≡ some c.id)

  abbrev pub Accepts : Command → Acknowledgement → Type 0
  Accepts c a = ((n : ℕ) → env.dispatch n c ≡ ok a) × (a.accepted ≡ true) × (a.acknowledged_at ≢ 0)

  settle-Delivered :
      (s t : Service P) (c : Command) (a : Acknowledgement) (r : CommandResult)
      → env.publish ≡ none
      → a.accepted ≡ true
      → a.acknowledged_at ≢ 0
      → lookup c.id t.results ≡ some r
      → r.command ≡ c
      → t.sent ≡ c ∷ s.sent
      → lookup c.idempotency_key t.idempotency ≡ some c.id
      → Delivered s c a.acknowledged_at (settle env t c (ok a))
  unfolding settle
  settle-Delivered s t c a r quiet taken timed found of_c sent filed =
      let known : is_zero a.acknowledged_at ≡ false = ground arith in
      rw
        (
          taken,
          known,
          transition_quiet t c.id acknowledged acknowledged_reason command_acknowledged
              (some a.acknowledged_at) r quiet found,
        )
        (_, lookup-insert_self c.id _ t.results, refl, of_c, refl, refl, sent, filed)

  execute-Delivered :
      (s : Service P) (c : Command) (a : Acknowledgement)
      → env.publish ≡ none
      → Accepts c a
      → Delivered s c a.acknowledged_at (execute env s c)
  unfolding execute hand_over
  execute-Delivered s c a quiet (takes, taken, timed) =
      let r = fresh_result env c validated validated_reason (env.clock s.ticks) in
      let t : Service P = record (tick env s) {
        results = insert c.id r s.results;
        idempotency = insert c.idempotency_key c.id s.idempotency;
      } in
      let r' = moved env r dispatched dispatched_reason (env.clock t.ticks) none in
      let u : Service P = record (tick env t) { results = insert c.id r' t.results } in
      rw
        (
          record_quiet s c validated validated_reason command_validated quiet,
          transition_quiet t c.id dispatched dispatched_reason command_dispatched none r quiet
              (lookup-insert_self c.id r s.results),
          takes (suc (suc s.ticks)),
        )
        (settle-Delivered s (record (tick env u) { sent = c ∷ u.sent }) c a r' quiet taken timed
          (lookup-insert_self c.id r' t.results) refl refl
          (rw
            (
              lookup-insert c.idempotency_key c.idempotency_key c.id s.idempotency,
              (string_eq.beq_iff c.idempotency_key c.idempotency_key).1 refl,
            )
            refl))

  -- Nothing stands against the request.
  pub record IsClear (s : Service P) (ctx : Context) (c : Command) : Type 0 where
    pub live_context : ctx.cancelled ≡ false
    pub named : c.id ≢ ""
    pub traced : c.correlation_id ≢ ""
    pub valid : validate_command c ≡ ok tt
    pub unseen : lookup c.idempotency_key s.idempotency ≡ none
    pub in_time : (n : ℕ) → before (env.clock n) c.expires_at ≡ true
    pub unconditional : c.expected_revision ≡ none
    pub permitted :
        (n : ℕ)
        → (d : Decision) × ((env.evaluate s.policy ctx (env.clock n) (intent_of c)).1 ≡ ok d)
          × (d.allowed ≡ true)

  authorise-Delivered :
      (s : Service P) (ctx : Context) (c : Command) (a : Acknowledgement)
      → IsClear s ctx c
      → env.publish ≡ none
      → Accepts c a
      → (n : ℕ) → Delivered s c a.acknowledged_at (authorise env (record s { ticks = n }) ctx c)
  unfolding authorise on_decision
  authorise-Delivered s ctx c a clear quiet takes n =
      let (d, answer, allowed) = clear.permitted n in
      rw (answer, allowed) (execute-Delivered _ c a quiet takes)

  no_revision :
      (s : Service P) (ctx : Context) (c : Command) (expected : Option ℕ)
      → expected ≡ none
      → check_revision env s ctx c expected ≡ authorise env s ctx c
  unfolding check_revision
  no_revision s ctx c none h = refl
  no_revision s ctx c (some n) h = cc

  -- Under a live context, a request with its identities that is valid and new, in time by every
  -- reading of the clock, and allowed by the policy at every reading, is handed over once, filed
  -- under its key, and answered acknowledged at the executor's time, if it asks for no revision,
  -- the executor accepts it with a time, there is no publisher, and no other call is at work on the
  -- service.
  pub submit_delivers :
      (s : Service P) (ctx : Context) (c : Command) (a : Acknowledgement)
      → IsClear s ctx c
      → env.publish ≡ none
      → Accepts c a
      → Delivered s c a.acknowledged_at (submit env s ctx c)
  unfolding by_key submit_new
  submit_delivers s ctx c a clear quiet takes =
      rw
        (
          named_submit s ctx c clear.live_context clear.named clear.traced,
          valid_submit s ctx c clear.valid,
          clear.unseen,
          clear.in_time s.ticks,
          no_revision (tick env s) ctx c c.expected_revision clear.unconditional,
        )
        (authorise-Delivered s ctx c a clear quiet takes (suc s.ticks))
