-- ===== src/Output/Submit/Checks.antt =====
-- internal/output/service.go: the checks of `Submit`, and what a call
-- does to the service that gets as far as each of them.
use aqua_os.Common.{
  ◌≡◌, ◌≢◌, refl, ◌∙◌, String, true, not, Option, none, some, ◌∷◌, Result, Check, ok, err, arith,
  All, string_eq, if-elim, Context, before, is_zero, eqb, ℕ,
}
use aqua_os.Common.Map.{lookup, Has, Has-insert_self}
use aqua_os.Events.Event.{command_validated, command_dispatched}
use aqua_os.Safety.Engine.{Decision}
use aqua_os.Output.Command.{
  validated, validated_reason, dispatched_reason, rejected, dispatched, acknowledged, failed,
  expired, Command, Acknowledgement, validate_command, equivalent,
}
use aqua_os.Output.Service.{Env, Service, Call, tick, record_result, transition}
use aqua_os.Output.Service.Frame.{record-results, transition-results}
use aqua_os.Output.Service.Ledger.{
  Inv, Outcome, Outcome-refl, Outcome-touch, Outcome-send, Outcome-record, Outcome-transition,
  unsent,
}
use aqua_os.Output.Submit.{
  on_success, settle, hand_over, execute, on_decision, intent_of, authorise, on_revision,
  check_revision, submit_new, replay, by_key, on_valid, command_of,
}

module _ {P : Type 0} (env : Env P) where
  on_success-elim {ℓ} :
      (Q : Service P → Type ℓ) (out : Call env) (next : Service P → Call env)
      → Q out.0
      → (out.1.1 ≡ none → Q (next out.0).0)
      → Q (on_success env out next).0
  on_success-elim Q (s, (r, none)) next h k = k refl
  on_success-elim Q (s, (r, some x)) next h k = h

  -- The order of the checks: the command is valid and in time, its revision is the current one, and
  -- the safety policy allows it.
  abbrev pub Cleared : Service P → Context → Command → Type 0
  Cleared s ctx c =
      (validate_command c ≡ ok tt)
      × (lookup c.idempotency_key s.idempotency ≡ none)
      × (n : ℕ) × (before (env.clock n) c.expires_at ≡ true)
      × ((r : ℕ) → c.expected_revision ≡ some r → (k : ℕ) × (env.revision k ≡ ok r))
      × (d : Decision) × (m : ℕ) × ((env.evaluate s.policy ctx (env.clock m) (intent_of c)).1
          ≡ ok d)
      × (d.allowed ≡ true)

  settle-Outcome :
      (G : Type 0) (s t : Service P) (c : Command) (a : Result Acknowledgement)
      → Outcome G c s t
      → Outcome G c s (settle env t c a).0
  unfolding settle
  settle-Outcome G s t c (err x) o = Outcome-transition env G c s t c.id failed _ _ none (λ e. cc) o
  settle-Outcome G s t c (ok a) o =
      if-elim (λ (out : Call env). Outcome G c s out.0) (not a.accepted) _ _
        (λ _. Outcome-transition env G c s t c.id failed _ _ none (λ e. cc) o)
        (λ _.
          if-elim (λ (out : Call env). Outcome G c s out.0) (is_zero a.acknowledged_at) _ _
            (λ _.
              Outcome-transition env G c s (tick env t) c.id acknowledged _ _ _ (λ e. cc)
                (Outcome-touch G c s t t.policy _ o))
            (λ _. Outcome-transition env G c s t c.id acknowledged _ _ _ (λ e. cc) o))

  -- The command's key was new, and `G` is what let the command pass.
  hand_over-Outcome :
      (G : Type 0) (s t : Service P) (c : Command)
      → G
      → Has t.idempotency c.idempotency_key
      → All (λ (d : Command). d.idempotency_key ≢ c.idempotency_key) s.sent
      → t.sent ≡ s.sent
      → Outcome G c s t
      → Outcome G c s (hand_over env t c).0
  unfolding hand_over
  hand_over-Outcome G s t c g h a same o =
      settle-Outcome G s (record (tick env t) { sent = c ∷ t.sent }) c _
        (Outcome-send G c s t _ g h a same o)

  execute-Outcome :
      (G : Type 0) (s t : Service P) (c : Command)
      → G
      → All (λ (d : Command). d.idempotency_key ≢ c.idempotency_key) s.sent
      → t.sent ≡ s.sent
      → Outcome G c s t
      → Outcome G c s (execute env t c).0
  unfolding execute
  execute-Outcome G s t c g a same o =
      let out1 = record_result env t c validated validated_reason command_validated in
      let (_, filed, sent1, _) =
        record-results env t c validated validated_reason command_validated in
      let first =
        Outcome-record env G c s t c validated validated_reason command_validated (λ e. cc) o in
      on_success-elim (Outcome G c s) out1 _ first λ _.
        let out2 =
          transition env out1.0 c.id dispatched dispatched_reason command_dispatched none in
        let (_, kept, sent2, _) =
          transition-results env out1.0 c.id dispatched dispatched_reason command_dispatched none in
        let second =
          Outcome-transition env G c s out1.0 c.id dispatched dispatched_reason command_dispatched
            none (λ e. cc) first in
        on_success-elim (Outcome G c s) out2 _ second λ _.
          hand_over-Outcome G s out2.0 c g
            (rw (kept, filed) (Has-insert_self c.idempotency_key c.id t.idempotency)) a
            (sent2 ∙ sent1 ∙ same) second

  on_decision-Outcome :
      (G : Type 0) (s t : Service P) (c : Command) (answer : Result Decision)
      → ((d : Decision) → answer ≡ ok d → d.allowed ≡ true → G)
      → All (λ (d : Command). d.idempotency_key ≢ c.idempotency_key) s.sent
      → t.sent ≡ s.sent
      → Outcome G c s t
      → Outcome G c s (on_decision env t c answer).0
  unfolding on_decision
  on_decision-Outcome G s t c (err x) g a same o = o
  on_decision-Outcome G s t c (ok d) g a same o =
      if-elim (λ (out : Call env). Outcome G c s out.0) (not d.allowed) _ (execute env t c)
        (λ _. Outcome-record env G c s t c rejected _ _ (λ e. cc) o)
        (λ permitted. execute-Outcome G s t c (g d refl (ground arith)) a same o)

  -- What is known of a valid command with a new key, on the way to the policy.
  record Pending (s : Service P) (ctx : Context) (c : Command) (t : Service P) : Type 0 where
    valid : validate_command c ≡ ok tt
    fresh : lookup c.idempotency_key s.idempotency ≡ none
    base : Inv s
    same_sent : t.sent ≡ s.sent
    same_policy : t.policy ≡ s.policy
    outcome : Outcome (Cleared s ctx c) c s t

  Pending-tick :
      (s t : Service P) (ctx : Context) (c : Command)
      → Pending s ctx c t
      → Pending s ctx c (tick env t)
  Pending-tick s t ctx c p = record {
    valid = p.valid;
    fresh = p.fresh;
    base = p.base;
    same_sent = p.same_sent;
    same_policy = p.same_policy;
    outcome = Outcome-touch (Cleared s ctx c) c s t t.policy _ p.outcome;
  }

  -- The revision that was asked for is the current one.
  abbrev Revised : Command → Type 0
  Revised c = (r : ℕ) → c.expected_revision ≡ some r → (k : ℕ) × (env.revision k ≡ ok r)

  authorise-Outcome :
      (s t : Service P) (ctx : Context) (c : Command) (n : ℕ)
      → before (env.clock n) c.expires_at ≡ true
      → Revised c
      → Pending s ctx c t
      → Outcome (Cleared s ctx c) c s (authorise env t ctx c).0
  unfolding authorise
  authorise-Outcome s t ctx c n time revised p =
      on_decision-Outcome (Cleared s ctx c) s _ c _
        (λ d answer allowed.
          (p.valid, p.fresh, n, time, revised, d, t.ticks, (rw p.same_policy at answer), allowed))
        (unsent s c.idempotency_key p.base p.fresh) p.same_sent
        (Outcome-touch (Cleared s ctx c) c s t _ _ p.outcome)

  on_revision-Outcome :
      (s t : Service P) (ctx : Context) (c : Command) (n expected : ℕ) (current : Result ℕ)
      → before (env.clock n) c.expires_at ≡ true
      → (current ≡ ok expected → Revised c)
      → Pending s ctx c t
      → Outcome (Cleared s ctx c) c s (on_revision env t ctx c expected current).0
  unfolding on_revision
  on_revision-Outcome s t ctx c n expected (err x) time revised p = p.outcome
  on_revision-Outcome s t ctx c n expected (ok r) time revised p =
      if-elim (λ (out : Call env). Outcome (Cleared s ctx c) c s out.0) (not (eqb r expected)) _
        (authorise env t ctx c)
        (λ _. Outcome-record env (Cleared s ctx c) c s t c rejected _ _ (λ e. cc) p.outcome)
        (λ same. authorise-Outcome s t ctx c n time (revised (ground arith)) p)

  check_revision-Outcome :
      (s t : Service P) (ctx : Context) (c : Command) (n : ℕ) (expected : Option ℕ)
      → c.expected_revision ≡ expected
      → before (env.clock n) c.expires_at ≡ true
      → Pending s ctx c t
      → Outcome (Cleared s ctx c) c s (check_revision env t ctx c expected).0
  unfolding check_revision
  check_revision-Outcome s t ctx c n none e time p =
      authorise-Outcome s t ctx c n time (λ r h. ground arith) p
  check_revision-Outcome s t ctx c n (some expected) e time p =
      on_revision-Outcome s (tick env t) ctx c n expected (env.revision t.ticks) time
        (λ current r h. (t.ticks, ground arith)) (Pending-tick s t ctx c p)

  submit_new-Outcome :
      (s t : Service P) (ctx : Context) (c : Command)
      → Pending s ctx c t
      → Outcome (Cleared s ctx c) c s (submit_new env t ctx c).0
  unfolding submit_new
  submit_new-Outcome s t ctx c p =
      let q = Pending-tick s t ctx c p in
      if-elim (λ (out : Call env). Outcome (Cleared s ctx c) c s out.0)
        (not (before (env.clock t.ticks) c.expires_at)) _
        (check_revision env (tick env t) ctx c c.expected_revision)
        (λ _.
          Outcome-record env (Cleared s ctx c) c s (tick env t) c expired _ _ (λ e. cc) q.outcome)
        (λ early.
          check_revision-Outcome s (tick env t) ctx c t.ticks c.expected_revision refl
            (ground arith) q)

  unfoldable pub at_tick : Service P → ℕ → Service P
  at_tick s n = record s { ticks = n }

  by_key-Outcome :
      (s : Service P) (n : ℕ) (ctx : Context) (c : Command) (filed : Option String)
      → validate_command c ≡ ok tt
      → lookup c.idempotency_key s.idempotency ≡ filed
      → Inv s
      → Outcome (Cleared s ctx c) c s (by_key env (at_tick s n) ctx c filed).0
  unfolding by_key replay at_tick
  by_key-Outcome s n ctx c none valid fresh v =
      submit_new-Outcome s (record s { ticks = n }) ctx c
        (record {
          valid = valid;
          fresh = fresh;
          base = v;
          same_sent = refl;
          same_policy = refl;
          outcome =
              Outcome-touch (Cleared s ctx c) c s s s.policy n
                (Outcome-refl (Cleared s ctx c) c s v);
        })
  by_key-Outcome s n ctx c (some id) valid fresh v =
      if-elim (λ (out : Call env). Outcome (Cleared s ctx c) c s out.0)
        (equivalent (command_of (lookup id s.results)) c) _ _ (λ _. same) (λ _. same)
    where
      same : Outcome (Cleared s ctx c) c s (record s { ticks = n })
      same = Outcome-touch (Cleared s ctx c) c s s s.policy n (Outcome-refl (Cleared s ctx c) c s v)

  pub on_valid-Outcome :
      (s : Service P) (n : ℕ) (ctx : Context) (c : Command) (check : Check)
      → validate_command c ≡ check
      → Inv s
      → Outcome (Cleared s ctx c) c s (on_valid env (at_tick s n) ctx c check).0
  unfolding on_valid at_tick
  on_valid-Outcome s n ctx c (err x) valid v =
      Outcome-touch (Cleared s ctx c) c s s s.policy n (Outcome-refl (Cleared s ctx c) c s v)
  on_valid-Outcome s n ctx c (ok _) valid v = by_key-Outcome s n ctx c _ (ground arith) refl v
