-- ===== src/Safety/Evaluate/Limits.antt =====
-- internal/safety/engine.go: what must hold for `Evaluate` to allow an activation.
use mathlib.Core.Bool.{false≢true}
use aqua_os.Common.{
  ◌≡◌, ◌≢◌, refl, ◌⊎◌, inl, inr, ◌↔◌, ◌∙◌, sym, Bool, true, false, Option, none, some, List, [],
  ◌∷◌, Result, ok, err, arith, pos, ◌≤ℤ◌, ◌<ℤ◌, All, Time, sub_time, Option-cases, Bool-cases,
}
use aqua_os.Domain.Measurement.{good}
use aqua_os.Equipment.Profile.{Profile, InputRequirement}
use aqua_os.State.Entry.{Entry, StateReader}
use aqua_os.Safety.Engine.{
  Mode, emergency_stop, maintenance, manual, Decision, Override, RuntimeState,
}
use aqua_os.Safety.Evaluate.{
  mismatches, judge_input, validate_inputs, hard_limit_hit, hazard_check, after_inputs, decide,
}

-- A required input is known, good, and has the Boolean value asked for.
abbrev pub InputHolds : StateReader → InputRequirement → Type 0
InputHolds read r =
    (v : Entry) × (read r.key ≡ ok v)
    × (v.quality ≡ good)
    × ((w : Bool) → r.require_boolean ≡ some w → v.value.boolean ≡ some w)

-- No hard limit stands against switching on.
pub record WithinLimits (mode : Mode) (p : Profile) (r : RuntimeState) (now : Time) : Type 0 where
  pub running : mode ≢ emergency_stop
  pub within_on : r.on ≡ true → pos 0 <ℤ p.maximum_on → sub_time now r.on_since <ℤ p.maximum_on
  pub within_daily : pos 0 <ℤ p.maximum_daily_on → r.daily_on <ℤ p.maximum_daily_on
  pub rested : r.off_since ≢ 0 → pos 0 <ℤ p.minimum_off → p.minimum_off ≤ℤ sub_time now r.off_since

hard_limit_hit_iff :
    (mode : Mode) (p : Profile) (r : RuntimeState) (now : Time)
    → (hard_limit_hit mode p r now ≡ none) ↔ WithinLimits mode p r now
unfolding hard_limit_hit
hard_limit_hit_iff mode p r now = (λ h. ground arith, λ w. ground arith)

-- An answer that lets `validateInputs` go on.
abbrev Holds : InputRequirement → Result Entry → Type 0
Holds q answer =
    (v : Entry) × (answer ≡ ok v)
    × (v.quality ≡ good)
    × ((w : Bool) → q.require_boolean ≡ some w → v.value.boolean ≡ some w)

matches_of :
    (want got : Option Bool)
    → mismatches want got ≡ false
    → (w : Bool) → want ≡ some w
    → got ≡ some w
matches_of none got h w e = cc
matches_of (some true) got h w e = ground arith
matches_of (some false) got h w e = ground arith

of_matches :
    (want got : Option Bool)
    → ((w : Bool) → want ≡ some w → got ≡ some w)
    → mismatches want got ≡ false
of_matches none got h = refl
of_matches (some w) got h = rw (h w refl) (ground arith)

judge_input_iff :
    (q : InputRequirement) (answer : Result Entry) → (judge_input q answer ≡ none) ↔ Holds q answer
unfolding judge_input
judge_input_iff q (err x) = (λ h. ground arith, λ (v, e, _, _). cc)
judge_input_iff q (ok v) = (
  λ h. (v, refl, ground arith, matches_of q.require_boolean v.value.boolean (ground arith)),
  λ (u, e, g, m). ground (arith, of_matches q.require_boolean u.value.boolean m),
)

-- What `validateInputs` answers when it does not allow is no permission.
judge_input-some :
    (q : InputRequirement) (answer : Result Entry) {d : Decision}
    → judge_input q answer ≡ some (ok d)
    → d.allowed ≡ false
unfolding judge_input
judge_input-some q answer h = ground arith

some-ne-none : {A : Type 0} {a : A} → ¬ (some a ≡ none)
some-ne-none h = cc

abbrev pub Permits : Result Decision → Type 0
Permits (ok d) = d.allowed ≡ true
Permits (err x) = ⊥

no_permission :
    (q : InputRequirement) (answer : Result Entry) (d : Result Decision)
    → judge_input q answer ≡ some d
    → ¬ Permits d
no_permission q answer (ok d) h k = false≢true (sym (judge_input-some q answer h) ∙ k)
no_permission q answer (err x) h k = k

validate_inputs_iff :
    (read : StateReader) (qs : List InputRequirement)
    → Permits (validate_inputs read qs) ↔ All (InputHolds read) qs
unfolding validate_inputs
validate_inputs_iff read [] = (λ h. tt, λ h. refl)
validate_inputs_iff read (q ∷ qs) = elim (Option-cases (judge_input q (read q.key))) [
  | inl pass ↦ rw pass (
    λ h. ((judge_input_iff q (read q.key)).0 pass, (validate_inputs_iff read qs).0 h),
    λ (_, h). (validate_inputs_iff read qs).1 h,
  )
  | inr (answer, stop) ↦ rw stop (
    λ h. absurd (no_permission q (read q.key) answer stop h),
    λ (h, _). absurd (some-ne-none (sym stop ∙ (judge_input_iff q (read q.key)).1 h)),
  )
]

hazard_check_iff :
    (read : StateReader) (p : Profile)
    → Permits (hazard_check read p) ↔ (p.hazardous ≡ true → All (InputHolds read) p.required_inputs)
unfolding hazard_check
hazard_check_iff read p = elim (Bool-cases p.hazardous) [
  | inl risky ↦ simp risky (
    λ h _. (validate_inputs_iff read p.required_inputs).0 h,
    λ h. (validate_inputs_iff read p.required_inputs).1 (h refl),
  )
  | inr harmless ↦ simp harmless (λ h e. absurd (false≢true e), λ h. refl)
]

-- The modes in which an activation needs an override.
abbrev pub IsRestricted : Mode → Type 0
IsRestricted mode = (mode ≡ maintenance) ⊎ (mode ≡ manual)

-- Everything that an activation needs.
pub record MayRun (read : StateReader) (mode : Mode) (p : Profile) (r : RuntimeState)
    (o : Option Override) (now : Time) : Type 0 where
  pub within : WithinLimits mode p r now
  pub inputs : p.hazardous ≡ true → All (InputHolds read) p.required_inputs
  pub authorised : IsRestricted mode → o ≢ none

after_inputs_iff :
    (mode : Mode) (o : Option Override) (checked : Result Decision)
    → Permits (after_inputs mode o checked) ↔ (Permits checked × (IsRestricted mode → o ≢ none))
after_inputs_iff mode none (ok d) = (λ h. ground arith, λ h. ground arith)
after_inputs_iff mode (some o) (ok d) = (λ h. ground arith, λ h. ground arith)
after_inputs_iff mode o (err x) = (λ h. absurd h, λ h. h.0)

-- The decision on an activation allows it exactly when the system is not stopped, no limit of the
-- profile is reached, every input of hazardous equipment is good and as required, and in a
-- restricted mode an override is in force.
pub decide_iff :
    (read : StateReader) (mode : Mode) (p : Profile) (r : RuntimeState) (o : Option Override)
    (now : Time)
    → Permits (decide read mode p r o now true) ↔ MayRun read mode p r o now
unfolding decide
decide_iff read mode p r o now = elim (Option-cases (hard_limit_hit mode p r now)) [
  | inl free ↦ rw free (
    λ h.
        let (checked, named) = (after_inputs_iff mode o (hazard_check read p)).0 h in
        record {
          within = (hard_limit_hit_iff mode p r now).0 free;
          inputs = (hazard_check_iff read p).0 checked;
          authorised = named;
        },
    λ m.
        (after_inputs_iff mode o (hazard_check read p)).1
          ((hazard_check_iff read p).1 m.inputs, m.authorised),
  )
  | inr (reason, hit) ↦ rw hit (
    λ h. absurd (false≢true h),
    λ m. absurd (some-ne-none (sym hit ∙ (hard_limit_hit_iff mode p r now).1 m.within)),
  )
]
