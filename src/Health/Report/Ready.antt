-- ===== src/Health/Report/Ready.antt =====
-- internal/health/health.go: what the report says of the components.
use mathlib.Core.Bool.{false≢true}
use aqua_os.Common.{
  ◌≡◌, refl, ◌↔◌, Bool, true, List, [], ◌∷◌, All, arith, Time, Bool-cases, inl, inr,
}
use aqua_os.Health.Report.{
  State, healthy_state, Registration, Manager, is_healthy, normalize, assess, assess_all, report,
}

abbrev pub IsWell : Registration → Type 0
IsWell r = is_healthy (normalize r.health).state ≡ true

-- The component is well or not required.
abbrev pub IsServing : Registration → Type 0
IsServing r = r.required ≡ true → IsWell r

assess_iff :
    (r : Registration) (seen : Bool × State)
    → ((assess r seen).0 ≡ true) ↔ ((seen.0 ≡ true) × IsServing r)
unfolding assess
assess_iff r (ready, state) = (λ h. ground arith, λ h. ground arith)

ready_iff :
    (rs : List Registration) (seen : Bool × State)
    → ((assess_all rs seen).0 ≡ true) ↔ ((seen.0 ≡ true) × All IsServing rs)
unfolding assess_all
ready_iff [] seen = (λ h. (h, tt), λ h. h.0)
ready_iff (r ∷ rs) seen = (
  λ h.
      let (now, rest) = (ready_iff rs (assess r seen)).0 h in
      let (before, serving) = (assess_iff r seen).0 now in (before, (serving, rest)),
  λ (before, all). (ready_iff rs (assess r seen)).1 ((assess_iff r seen).1 (before, all.0), all.1),
)

-- The report is ready exactly when the manager is started and every required component is healthy:
-- a component that is not required never makes it unready.
pub report-ready_iff :
    (m : Manager) (now : Time)
    → ((report m now).ready ≡ true) ↔ ((m.started ≡ true) × All IsServing m.components)
unfolding report
report-ready_iff m now = ready_iff m.components (m.started, healthy_state)

assess-healthy_iff :
    (r : Registration) (seen : Bool × State)
    → ((assess r seen).1 ≡ healthy_state) ↔ ((seen.1 ≡ healthy_state) × IsWell r)
unfolding assess
assess-healthy_iff r (ready, state) = (λ h. ground arith, λ h. ground arith)

assess_all-healthy_iff :
    (rs : List Registration) (seen : Bool × State)
    → ((assess_all rs seen).1 ≡ healthy_state) ↔ ((seen.1 ≡ healthy_state) × All IsWell rs)
unfolding assess_all
assess_all-healthy_iff [] seen = (λ h. (h, tt), λ h. h.0)
assess_all-healthy_iff (r ∷ rs) seen = (
  λ h.
      let (now, rest) = (assess_all-healthy_iff rs (assess r seen)).0 h in
      let (before, well) = (assess-healthy_iff r seen).0 now in (before, (well, rest)),
  λ (before, all).
      (assess_all-healthy_iff rs (assess r seen)).1
        ((assess-healthy_iff r seen).1 (before, all.0), all.1),
)

-- The report's state is healthy exactly when the manager is started and every component is healthy,
-- required or not.
pub report-healthy_iff :
    (m : Manager) (now : Time)
    → ((report m now).state ≡ healthy_state) ↔ ((m.started ≡ true) × All IsWell m.components)
unfolding report
report-healthy_iff m now = elim (Bool-cases m.started) [
  | inl up ↦ rw up (
    λ h. (refl, ((assess_all-healthy_iff m.components (true, healthy_state)).0 h).1),
    λ (_, all). (assess_all-healthy_iff m.components (true, healthy_state)).1 (refl, all),
  )
  | inr down ↦ rw down (λ h. cc, λ (up, _). absurd (false≢true up))
]
