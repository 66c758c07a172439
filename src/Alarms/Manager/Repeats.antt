-- ===== src/Alarms/Manager/Repeats.antt =====
-- internal/alarms/manager.go: an observation that is delivered twice.
use aqua_os.Common.{
  ℕ, ◌≡◌, ◌≢◌, refl, String, true, false, not, ◌&&◌, ◌||◌, Option, none, some, Result, ok, err,
  arith, Context, Time, Check, string_eq, eq_iff, is_zero, after, if-elim, ltb, ltb_ℤ, sub_time,
  ◌==◌, Bool-cases, inl, inr,
}
use aqua_os.Common.Map.{lookup, lookup-insert}
use aqua_os.Events.Event.{rank}
use aqua_os.Alarms.Alarm.{Observation, Alarm, Transition, RuleState}
use aqua_os.Alarms.Observe.{
  is_cleared, or_at, Applied, raise, begin, repeat_alarm, settle, apply_active, apply_inactive,
  apply_observation,
}
use aqua_os.Alarms.Manager.{
  Manager, Observed, alarm_of, file, observe_rule, observe_correlated, observe,
}

-- The state is that of a rule with this last observation.
LastAt : Time → Applied → Type 0
LastAt t r = r.rule_state.last_observation ≡ t

raise-LastAt :
    (limit : ℕ) (st : RuleState) (since : Time) (o : Observation) (fresh : Result String)
    → LastAt st.last_observation (raise limit st since o fresh)
unfolding raise LastAt
raise-LastAt limit st since o (err x) = refl
raise-LastAt limit st since o (ok id) = refl

begin-LastAt :
    (limit : ℕ) (st : RuleState) (o : Observation) (fresh : Result String)
    → LastAt st.last_observation (begin limit st o fresh)
unfolding begin LastAt
begin-LastAt limit st o fresh =
    let since = or_at st.pending_active o.observed_at in
    if-elim (LastAt st.last_observation) (ltb_ℤ (sub_time o.observed_at since) st.rule.debounce) _ _
      (λ _. refl)
      (λ _. raise-LastAt limit (record st { pending_active = some since }) since o fresh)

repeat_alarm-LastAt :
    (limit : ℕ) (st : RuleState) (a : Alarm) (o : Observation)
    → LastAt st.last_observation (repeat_alarm limit st a o)
unfolding repeat_alarm LastAt
repeat_alarm-LastAt limit st a o =
    if-elim (LastAt st.last_observation) (ltb (rank a.severity) (rank o.severity)) _ _ (λ _. refl)
      (λ _. refl)

settle-LastAt :
    (limit : ℕ) (st : RuleState) (a : Alarm) (o : Observation)
    → LastAt st.last_observation (settle limit st a o)
unfolding settle LastAt
settle-LastAt limit st a o =
    let since = or_at st.pending_clear o.observed_at in
    if-elim (LastAt st.last_observation)
      (ltb_ℤ (sub_time o.observed_at since) st.rule.hysteresis || st.rule.latching) _ _ (λ _. refl)
      (λ _. refl)

apply_active-LastAt :
    (limit : ℕ) (st : RuleState) (a : Alarm) (o : Observation) (fresh : Result String)
    → LastAt st.last_observation (apply_active limit st a o fresh)
unfolding apply_active
apply_active-LastAt limit st a o fresh =
    let healthy = record st { pending_clear = none } in
    if-elim (LastAt st.last_observation) (st.current == "" || is_cleared a.status) _ _
      (λ _. begin-LastAt limit healthy o fresh) (λ _. repeat_alarm-LastAt limit healthy a o)

apply_inactive-LastAt :
    (limit : ℕ) (st : RuleState) (a : Alarm) (o : Observation)
    → LastAt st.last_observation (apply_inactive limit st a o)
unfolding apply_inactive LastAt
apply_inactive-LastAt limit st a o =
    let calm = record st { pending_active = none } in
    if-elim (LastAt st.last_observation) (st.current == "") _ _ (λ _. refl)
      (λ _.
        if-elim (LastAt st.last_observation) (is_cleared a.status) _ _ (λ _. refl)
          (λ _. settle-LastAt limit calm a o))

apply_observation-LastAt :
    (limit : ℕ) (st : RuleState) (a : Alarm) (o : Observation) (fresh : Result String)
    → LastAt st.last_observation (apply_observation limit st a o fresh)
unfolding apply_observation
apply_observation-LastAt limit st a o fresh =
    if-elim (LastAt st.last_observation) o.active _ _ (λ _. apply_active-LastAt limit st a o fresh)
      (λ _. apply_inactive-LastAt limit st a o)

-- A rule that has seen an observation of this time passes over it.
observe_rule-late :
    (m : Manager) (o : Observation) (fresh : Result String) (publish : Transition → Alarm → Check)
    (st : RuleState)
    → o.observed_at ≢ 0
    → st.last_observation ≡ o.observed_at
    → (observe_rule m o fresh publish (some st)).0 ≡ m
unfolding observe_rule
observe_rule-late m o fresh publish st dated same =
    let late : (not (is_zero st.last_observation) && not (after o.observed_at st.last_observation))
        ≡ true =
      ground arith in
    rw late refl

module _ (fresh fresh' : Result String) (publish publish' : Transition → Alarm → Check)
    (o : Observation) (dated : o.observed_at ≢ 0) where
  -- The second delivery finds what the first one has left.
  Settled : Observed → Type 0
  Settled out = (observe_rule out.0 o fresh' publish' (lookup o.rule_id out.0.rules)).0 ≡ out.0

  observe_rule-Settled :
      (m : Manager) (found : Option RuleState)
      → lookup o.rule_id m.rules ≡ found
      → Settled (observe_rule m o fresh publish found)
  unfolding observe_rule Settled file
  observe_rule-Settled m none h = rw h refl
  observe_rule-Settled m (some st) h =
      let seen = record st { last_observation = o.observed_at } in
      let r = apply_observation m.evidence_limit seen (alarm_of m st.current) o fresh in
      let last = apply_observation-LastAt m.evidence_limit seen (alarm_of m st.current) o fresh in
      if-elim Settled
        (not (is_zero st.last_observation) && not (after o.observed_at st.last_observation)) _ _
        (λ late. rw (h, late) refl)
        (λ _.
          rw
            (
              lookup-insert o.rule_id o.rule_id r.rule_state m.rules,
              (string_eq.beq_iff o.rule_id o.rule_id).1 refl,
            )
            (observe_rule-late (file m o.rule_id r) o fresh' publish' r.rule_state dated
              (unfold LastAt in last)))

-- An observation with a time and a correlation is taken as it is.
observe_complete :
    (m : Manager) (ctx : Context) (o : Observation) (clock : Time)
    (fresh correlation : Result String) (publish : Transition → Alarm → Check)
    → ctx.cancelled ≡ false
    → o.correlation_id ≢ ""
    → o.observed_at ≢ 0
    → observe m ctx o clock fresh correlation publish
      ≡ observe_rule m o fresh publish (lookup o.rule_id m.rules)
unfolding observe observe_correlated
observe_complete m ctx o clock fresh correlation publish live' traced timed =
    let named : (o.correlation_id == "") ≡ false = ground (arith, eq_iff o.correlation_id "") in
    let dated : is_zero o.observed_at ≡ false = ground arith in rw (live', named, dated) refl

observe_cancelled :
    (m : Manager) (ctx : Context) (o : Observation) (clock : Time)
    (fresh correlation : Result String) (publish : Transition → Alarm → Check)
    → ctx.cancelled ≡ true
    → (observe m ctx o clock fresh correlation publish).0 ≡ m
unfolding observe
observe_cancelled m ctx o clock fresh correlation publish gone = rw gone refl

-- An observation that is delivered twice counts once: if it has a time and a correlation, and the
-- first call has a live context, then the second call leaves the manager as the first one left it,
-- whatever the first one did and answered, whatever the second one's context and clock are, and
-- whatever the identity generator and the publisher answer.
pub observe_twice :
    (m : Manager) (ctx ctx' : Context) (o : Observation) (clock clock' : Time)
    (fresh fresh' correlation correlation' : Result String)
    (publish publish' : Transition → Alarm → Check)
    → ctx.cancelled ≡ false
    → o.correlation_id ≢ ""
    → o.observed_at ≢ 0
    → let n = (observe m ctx o clock fresh correlation publish).0 in
      (observe n ctx' o clock' fresh' correlation' publish').0 ≡ n
unfolding Settled
observe_twice m ctx ctx' o clock clock' fresh fresh' correlation correlation' publish publish' live'
      traced timed =
    elim (Bool-cases ctx'.cancelled) [
      | inl gone ↦ observe_cancelled _ ctx' o clock' fresh' correlation' publish' gone
      | inr live'' ↦
          rw
            (
              observe_complete m ctx o clock fresh correlation publish live' traced timed,
              observe_complete (observe_rule m o fresh publish (lookup o.rule_id m.rules)).0 ctx' o
                  clock' fresh' correlation' publish' live'' traced timed,
            )
            (observe_rule-Settled fresh fresh' publish publish' o timed m (lookup o.rule_id m.rules)
              refl)
    ]
