-- ===== src/Alarms/Observe/Lifecycle.antt =====
-- internal/alarms/manager.go: when `applyObservation` raises, clears and escalates an alarm.
use aqua_os.Common.{
  ℕ, ◌-◌, ◌≤◌, ◌≡◌, ◌≢◌, refl, ◌⊎◌, inl, inr, ◌↔◌, String, true, false, none, List, [], ◌∷◌, ◌++◌,
  Result, ok, err, arith, sub_time, ◌≤ℤ◌, eq_iff, ltb, ltb_ℤ, ◌||◌, ◌==◌, string_eq, sym, if-elim,
  Bool-cases, length, length-drop,
}
use aqua_os.Events.Event.{rank}
use aqua_os.Alarms.Alarm.{
  cleared, Evidence, Observation, Alarm, raised, escalated, cleared_now, RuleState, append_evidence,
}
use aqua_os.Alarms.Observe.{
  Applied, is_cleared, or_at, raise, begin, repeat_alarm, apply_active, settle, apply_inactive,
  apply_observation,
}

-- The rule has no alarm, or the one it had is cleared.
abbrev pub IsClosed : RuleState → Alarm → Type 0
IsClosed st a = (st.current ≡ "") ⊎ (a.status ≡ cleared)

abbrev pub IsOpen : RuleState → Alarm → Type 0
IsOpen st a = (st.current ≢ "") × (a.status ≢ cleared)

-- An observation raises an alarm exactly when the condition holds, no alarm of the rule is open,
-- the condition has held for the rule's debounce time since it was first seen, and an identity
-- could be made.
pub raised_iff :
    (limit : ℕ) (st : RuleState) (a : Alarm) (o : Observation) (fresh : Result String)
    → ((apply_observation limit st a o fresh).transition ≡ raised) ↔ (
        (o.active ≡ true)
        × IsClosed st a
        × (st.rule.debounce ≤ℤ sub_time o.observed_at (or_at st.pending_active o.observed_at))
        × (id : String) × (fresh ≡ ok id))
unfolding apply_observation apply_active apply_inactive settle repeat_alarm begin raise
raised_iff limit st a o (ok id) = (
  λ h. (
    ground (arith, eq_iff st.current ""),
    ground (arith, eq_iff st.current ""),
    ground (arith, eq_iff st.current ""),
    id,
    refl,
  ),
  λ h. ground (arith, eq_iff st.current ""),
)
raised_iff limit st a o (err x) = (
  λ h. absurd (ground (arith, eq_iff st.current "")),
  λ (on, closed, waited, id, made). absurd (ground arith),
)

-- An observation clears the alarm exactly when the condition is gone, the rule's alarm is open and
-- does not latch, and the condition has stayed away for the rule's hysteresis.
pub cleared_iff :
    (limit : ℕ) (st : RuleState) (a : Alarm) (o : Observation) (fresh : Result String)
    → ((apply_observation limit st a o fresh).transition ≡ cleared_now) ↔ (
        (o.active ≡ false)
        × IsOpen st a
        × (st.rule.latching ≡ false)
        × (st.rule.hysteresis ≤ℤ sub_time o.observed_at (or_at st.pending_clear o.observed_at)))
unfolding apply_observation apply_active apply_inactive settle repeat_alarm begin raise
cleared_iff limit st a o fresh =
    (λ h. ground (arith, eq_iff st.current ""), λ h. ground (arith, eq_iff st.current ""))

-- What an observation leaves of an open alarm.
abbrev pub Keeps : Alarm → Observation → Applied → Type 0
Keeps a o r =
    (rank a.severity ≤ rank r.alarm.severity)
    × (r.alarm.id ≡ a.id)
    × (r.alarm.first_observed ≡ a.first_observed)
    × (r.alarm.acknowledged_at ≡ a.acknowledged_at)
    × (r.alarm.condition_active ≡ o.active)
    × ((r.transition ≡ cleared_now) ⊎ (r.alarm.status ≡ a.status))
    × (r.transition ≡ escalated → r.alarm.severity ≡ o.severity)

repeat_alarm-Keeps :
    (limit : ℕ) (st : RuleState) (a : Alarm) (o : Observation)
    → o.active ≡ true
    → Keeps a o (repeat_alarm limit st a o)
unfolding repeat_alarm
repeat_alarm-Keeps limit st a o on =
    if-elim (Keeps a o) (ltb (rank a.severity) (rank o.severity)) _ _
      (λ worse. (ground arith, refl, refl, refl, sym on, inr refl, λ e. refl))
      (λ mild. (omega arith, refl, refl, refl, sym on, inr refl, λ e. cc))

settle-Keeps :
    (limit : ℕ) (st : RuleState) (a : Alarm) (o : Observation)
    → o.active ≡ false
    → Keeps a o (settle limit st a o)
unfolding settle
settle-Keeps limit st a o gone =
    if-elim (Keeps a o)
      (ltb_ℤ (sub_time o.observed_at (or_at st.pending_clear o.observed_at)) st.rule.hysteresis
        || st.rule.latching)
      _ _ (λ _. (omega arith, refl, refl, refl, sym gone, inr refl, λ e. cc))
      (λ _. (omega arith, refl, refl, refl, sym gone, inl refl, λ e. cc))

-- While an alarm is open no observation lowers its severity, changes its identity, its first
-- observation or its acknowledgement; its status stays unless the observation clears it; and it
-- records whether the condition held. An escalation gives it the observation's severity.
pub open_alarm :
    (limit : ℕ) (st : RuleState) (a : Alarm) (o : Observation) (fresh : Result String)
    → IsOpen st a
    → Keeps a o (apply_observation limit st a o fresh)
unfolding apply_observation apply_active apply_inactive
open_alarm limit st a o fresh (named, open') =
    let other : (st.current == "") ≡ false = ground (arith, eq_iff st.current "") in
    let still : is_cleared a.status ≡ false = ground arith in
    elim (Bool-cases o.active) [
      | inl on ↦
          rw (on, other, still)
            (repeat_alarm-Keeps limit (record st { pending_clear = none }) a
              (record o { active = true }) refl)
      | inr gone ↦
          rw (gone, other, still)
            (settle-Keeps limit (record st { pending_active = none }) a
              (record o { active = false }) refl)
    ]

append_evidence-bound :
    (values : List Evidence) (value : Evidence) (limit : ℕ)
    → length values ≤ limit
    → length (append_evidence values value limit) ≤ limit
unfolding append_evidence
append_evidence-bound values value limit h =
    ground (arith, length-drop (length (values ++ value ∷ []) - limit) (values ++ value ∷ []))

-- No observation makes an alarm within the limit keep more evidence than the limit.
pub evidence_bound :
    (limit : ℕ) (st : RuleState) (a : Alarm) (o : Observation) (fresh : Result String)
    → length a.evidence ≤ limit
    → length (apply_observation limit st a o fresh).alarm.evidence ≤ limit
unfolding apply_observation apply_active apply_inactive settle repeat_alarm begin raise
evidence_bound limit st a o (ok id) h = ground (
  arith,
  append_evidence-bound a.evidence o.evidence limit h,
  append_evidence-bound [] o.evidence limit,
)
evidence_bound limit st a o (err x) h =
    ground (arith, append_evidence-bound a.evidence o.evidence limit h)
