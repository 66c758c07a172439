-- ===== src/Scenarios/Lifecycle.antt =====
-- Three components of which the third does not start, and a start of two.
use aqua_os.Common.{ℕ, ◌≡◌, refl, [], ◌∷◌, ok, Check, deadline_exceeded, if◌then◌else◌, eqb}
use aqua_os.Lifecycle.Manager.{
  Startup, began, failed_with, overdue_with, roll_back, started_call, refused_call, stopped_call,
  Manager, new_configured, stop_each, stop, on_start, start_each, by_started, start,
}
use aqua_os.Lifecycle.Manager.Order.{
  Running, none_yet, AllOrNone, here, starts_up, start-AllOrNone, reachable-Running,
}

abbrev third_fails : ℕ → Startup
third_fails c = if eqb c 3 then failed_with deadline_exceeded else began

-- The second component begins, but after its deadline.
abbrev second_late : ℕ → Startup
second_late c = if eqb c 2 then overdue_with deadline_exceeded else began

abbrev obliges : ℕ → Check
obliges c = ok tt

abbrev rolled_back : Manager
rolled_back = (start third_fails obliges (new_configured (1 ∷ 2 ∷ 3 ∷ []))).0

rolled_back_calls :
    rolled_back.calls
    ≡ stopped_call 1 ∷ stopped_call 2 ∷ refused_call 3 ∷ started_call 2 ∷ started_call 1 ∷ []
unfolding start by_started start_each on_start roll_back stop stop_each new_configured
rolled_back_calls = refl

abbrev idle : Manager
idle = new_configured (1 ∷ 2 ∷ [])

idle-Running : Running idle.calls []
unfolding new_configured
idle-Running = none_yet

start-AllOrNone_example : AllOrNone second_late obliges idle (start second_late obliges idle)
start-AllOrNone_example =
    start-AllOrNone second_late obliges idle (unfold new_configured in refl) idle-Running

reachable-Running_example : Running rolled_back.calls rolled_back.started
reachable-Running_example = reachable-Running (1 ∷ 2 ∷ 3 ∷ []) (starts_up third_fails obliges here)
