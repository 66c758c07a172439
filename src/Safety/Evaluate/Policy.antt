-- ===== src/Safety/Evaluate/Policy.antt =====
-- internal/safety/engine.go: the policy of `Evaluate` over the whole engine.
use mathlib.Core.Bool.{false≢true}
use aqua_os.Common.{
  All, ◌<◌, String, ◌≡◌, ◌≢◌, refl, sym, subst, some-inj, ◌↔◌, Bool, true, false, Option, none,
  some, ok, arith, Time, Context, string_eq,
}
use aqua_os.Common.Map.{lookup}
use aqua_os.Equipment.Profile.{Profile}
use aqua_os.State.Entry.{StateReader}
use aqua_os.Safety.Engine.{Mode, Intent, Decision, Override, RuntimeState, Engine}
use aqua_os.Safety.Accounting.{account, get_runtime, account_runtime}
use aqua_os.Safety.Evaluate.{in_force, judged_at, decide, evaluate, evaluate_known, hazard_check}
use aqua_os.Safety.Evaluate.Limits.{
  WithinLimits, InputHolds, IsRestricted, MayRun, Permits, decide_iff,
}

-- The runtime state that an intent is judged by: the time on is accounted up to that instant.
abbrev pub judged_runtime : Engine → Time → Intent → RuntimeState
judged_runtime e at i = account_runtime (get_runtime e i.equipment_id) at

switch_iff :
    (read : StateReader) (mode : Mode) (p : Profile) (r : RuntimeState) (o : Option Override)
    (now : Time) (on : Bool)
    → Permits (decide read mode p r o now on) ↔ (on ≡ true → MayRun read mode p r o now)
unfolding decide
switch_iff read mode p r o now true =
    (λ h _. (decide_iff read mode p r o now).0 h, λ h. (decide_iff read mode p r o now).1 (h refl))
switch_iff read mode p r o now false = (λ h e. absurd (false≢true e), λ h. refl)

evaluate_known_iff :
    (read : StateReader) (e : Engine) (at : Time) (i : Intent) (found : Option Profile)
    → Permits (evaluate_known read e at i found).1 ↔ (
        (p : Profile) × (found ≡ some p)
        × (i.turn_on ≡ true
            → MayRun read e.mode p
                (judged_runtime e at i)
                (in_force (lookup i.equipment_id e.overrides) at)
                at))
unfolding evaluate_known account
evaluate_known_iff read e at i none = (λ h. ground arith, λ (p, q, h). cc)
evaluate_known_iff read e at i (some p) = (
  λ h. (p, refl, (switch_iff read e.mode p (judged_runtime e at i) _ at i.turn_on).0 h),
  λ (q, same, h). (switch_iff read e.mode p (judged_runtime e at i) _ at i.turn_on).1 (
      subst
        (λ (z : Profile).
          i.turn_on ≡ true
          → MayRun read e.mode z (judged_runtime e at i)
              (in_force (lookup i.equipment_id e.overrides) at) at)
        (sym (some-inj same)) h),
)

-- The equipment has an override that runs out after the instant.
abbrev pub IsAuthorised : Engine → String → Time → Type 0
IsAuthorised e id at = (o : Override) × (lookup id e.overrides ≡ some o) × (at < o.expires_at)

-- Everything that an activation needs at an instant.
pub record MayActivate (read : StateReader) (e : Engine) (p : Profile) (i : Intent) (at : Time)
    : Type 0 where
  pub within : WithinLimits e.mode p (judged_runtime e at i) at
  pub inputs : p.hazardous ≡ true → All (InputHolds read) p.required_inputs
  pub authorised : IsRestricted e.mode → IsAuthorised e i.equipment_id at

in_force-some :
    (found : Option Override) (at : Time)
    → in_force found at ≢ none
    → (o : Override) × (found ≡ some o) × (at < o.expires_at)
in_force-some none at h = absurd (h refl)
in_force-some (some o) at h = (o, refl, ground arith)

some-in_force :
    (found : Option Override) (at : Time) (o : Override)
    → found ≡ some o
    → at < o.expires_at
    → in_force found at ≢ none
some-in_force found at o h k = rw h (ground arith)

may_iff :
    (read : StateReader) (e : Engine) (p : Profile) (i : Intent) (at : Time)
    → MayRun read e.mode p
        (judged_runtime e at i)
        (in_force (lookup i.equipment_id e.overrides) at)
        at
      ↔ MayActivate read e p i at
may_iff read e p i at = (
  λ m. record {
    within = m.within;
    inputs = m.inputs;
    authorised = λ r. in_force-some (lookup i.equipment_id e.overrides) at (m.authorised r);
  },
  λ m. record {
    within = m.within;
    inputs = m.inputs;
    authorised = λ r.
        let (o, found, later) = m.authorised r in
        some-in_force (lookup i.equipment_id e.overrides) at o found later;
  },
)

-- Under a live context, `Evaluate` allows an intent exactly when the equipment has a profile and,
-- to switch it on, at the instant at which the intent is judged: the system is not stopped, no
-- limit of the profile is reached with the time on accounted up to then, every input of hazardous
-- equipment is good and as required, and in maintenance or manual mode the equipment has an
-- override that runs out later. Switching off asks for nothing more than the profile.
pub evaluate_iff :
    (read : StateReader) (e : Engine) (ctx : Context) (clock : Time) (i : Intent)
    → ctx.cancelled ≡ false
    → Permits (evaluate read e ctx clock i).1 ↔ (
        (p : Profile) × (lookup i.equipment_id e.profiles ≡ some p)
        × (i.turn_on ≡ true → MayActivate read e p i (judged_at clock i)))
unfolding evaluate
evaluate_iff read e ctx clock i live' =
    let at = judged_at clock i in
    let known = evaluate_known_iff read e at i (lookup i.equipment_id e.profiles) in
    rw live' (
      λ h. let (p, found, may) = known.0 h in (p, found, λ on. (may_iff read e p i at).0 (may on)),
      λ (p, found, may). known.1 (p, found, λ on. (may_iff read e p i at).1 (may on)),
    )

-- A refusal by a hard limit stands whatever override is granted.
pub decide-hard_limit :
    (read : StateReader) (mode : Mode) (p : Profile) (r : RuntimeState) (o o' : Option Override)
    (now : Time) {d : Decision}
    → decide read mode p r o now true ≡ ok d
    → d.hard_limit ≡ true
    → decide read mode p r o' now true ≡ ok d
unfolding decide hazard_check
decide-hard_limit read mode p r o o' now h k = ground arith
