-- ===== src/Lifecycle/Manager/Order.antt =====
-- internal/lifecycle/manager.go: the order of the calls.
use aqua_os.Common.{ℕ, ◌≡◌, ◌≢◌, refl, ◌⊎◌, inl, inr, List, [], ◌∷◌, Check, Error, subst, sym}
use aqua_os.Lifecycle.Manager.{
  Startup, began, failed_with, overdue_with, Call, started_call, refused_call, overdue_call,
  stopped_call, Manager, new_configured, stop_each, stop, roll_back, on_start, start_each,
  by_started, start,
}

-- The components that were started in time and run once these calls, newest first, were made. A stop
-- is of the component that was started last of those that run.
pub data Running : List Call → List ℕ → Type 0 where
  none_yet : Running [] []
  begun :
      {calls : List Call} {cs : List ℕ} (c : ℕ)
      → Running calls cs
      → Running (started_call c ∷ calls) (c ∷ cs)
  refused :
      {calls : List Call} {cs : List ℕ} (c : ℕ)
      → Running calls cs
      → Running (refused_call c ∷ calls) cs
  overdue :
      {calls : List Call} {cs : List ℕ} (c : ℕ)
      → Running calls cs
      → Running (overdue_call c ∷ calls) cs
  ended :
      {calls : List Call} {cs : List ℕ} (c : ℕ)
      → Running calls (c ∷ cs)
      → Running (stopped_call c ∷ calls) cs

-- The components that began too late to count.
abbrev pub overdues : List Call → List ℕ
overdues [] = []
overdues (overdue_call c ∷ calls) = c ∷ overdues calls
overdues (started_call c ∷ calls) = overdues calls
overdues (refused_call c ∷ calls) = overdues calls
overdues (stopped_call c ∷ calls) = overdues calls

-- The components, pushed in order onto those that run.
abbrev pub onto : List ℕ → List ℕ → List ℕ
onto [] running = running
onto (c ∷ cs) running = onto cs (c ∷ running)

module _ (starts : ℕ → Startup) (stops : ℕ → Check) where
  stop_each-Running :
      (cs : List ℕ) (calls : List Call)
      → Running calls cs
      → Running (stop_each starts stops cs calls).0 []
  unfolding stop_each
  stop_each-Running [] calls r = r
  stop_each-Running (c ∷ cs) calls r = stop_each-Running cs (stopped_call c ∷ calls) (ended c r)

  stop-Running :
      (m : Manager)
      → Running m.calls m.started
      → Running (stop starts stops m).0.calls (stop starts stops m).0.started
  unfolding stop
  stop-Running m r = stop_each-Running m.started m.calls r

  stop_each-overdues :
      (cs : List ℕ) (calls : List Call)
      → overdues (stop_each starts stops cs calls).0 ≡ overdues calls
  unfolding stop_each
  stop_each-overdues [] calls = refl
  stop_each-overdues (c ∷ cs) calls = stop_each-overdues cs (stopped_call c ∷ calls)

  -- What a start that fails leaves of the components that began too late.
  abbrev pub LeavesOver : List Call → List Call → Type 0
  LeavesOver before after =
      (overdues after ≡ overdues before)
      ⊎ ((c : ℕ) × (x : Error) × (starts c ≡ overdue_with x)
          × (overdues after ≡ c ∷ overdues before))

  -- A start that does not fail leaves the components on top of those that ran, and one that fails
  -- leaves none.
  abbrev Finishes : List ℕ → Manager → Manager × List Error → Type 0
  Finishes cs m (n, errors) =
      ((errors ≡ []) × (n.started ≡ onto cs m.started) × (overdues n.calls ≡ overdues m.calls))
      ⊎ ((errors ≢ []) × (n.started ≡ []) × LeavesOver m.calls n.calls)

  on_start-Running :
      (answer : Startup) (c : ℕ) (m : Manager) (rest : Manager × List Error)
      → Running m.calls m.started
      → Running rest.0.calls rest.0.started
      → Running
          (on_start starts stops answer c m rest).0.calls
          (on_start starts stops answer c m rest).0.started
  unfolding on_start roll_back
  on_start-Running began c m rest r k = k
  on_start-Running (failed_with x) c m rest r k =
      stop-Running (record m { calls = refused_call c ∷ m.calls }) (refused c r)
  on_start-Running (overdue_with x) c m rest r k =
      stop-Running (record m { calls = overdue_call c ∷ m.calls }) (overdue c r)

  start_each-Running :
      (cs : List ℕ) (m : Manager)
      → Running m.calls m.started
      → Running (start_each starts stops cs m).0.calls (start_each starts stops cs m).0.started
  unfolding start_each
  start_each-Running [] m r = r
  start_each-Running (c ∷ cs) m r =
      on_start-Running (starts c) c m _ r (start_each-Running cs _ (begun c r))

  on_start-Finishes :
      (answer : Startup) (c : ℕ) (cs : List ℕ) (m : Manager) (rest : Manager × List Error)
      → starts c ≡ answer
      → Finishes cs (record m { calls = started_call c ∷ m.calls; started = c ∷ m.started }) rest
      → Finishes (c ∷ cs) m (on_start starts stops answer c m rest)
  unfolding on_start roll_back stop
  on_start-Finishes began c cs m rest q f = f
  on_start-Finishes (failed_with x) c cs m rest q f =
      inr (λ e. cc, refl, inl (stop_each-overdues m.started (refused_call c ∷ m.calls)))
  on_start-Finishes (overdue_with x) c cs m rest q f =
      inr (λ e. cc, refl, inr (c, x, q, stop_each-overdues m.started (overdue_call c ∷ m.calls)))

  start_each-Finishes : (cs : List ℕ) (m : Manager) → Finishes cs m (start_each starts stops cs m)
  unfolding start_each
  start_each-Finishes [] m = inl (refl, refl, refl)
  start_each-Finishes (c ∷ cs) m = on_start-Finishes (starts c) c cs m _ refl (
      start_each-Finishes cs
        (record m { calls = started_call c ∷ m.calls; started = c ∷ m.started }))

  -- What a start of a manager that runs nothing comes to.
  pub data AllOrNone (m : Manager) (out : Manager × List Error) : Type 0 where
    all_run :
        out.1 ≡ []
        → out.0.started ≡ onto m.components []
        → Running out.0.calls (onto m.components [])
        → overdues out.0.calls ≡ overdues m.calls
        → AllOrNone m out
    none_runs :
        out.1 ≢ []
        → out.0.started ≡ []
        → Running out.0.calls []
        → LeavesOver m.calls out.0.calls
        → AllOrNone m out

  all_or_none :
      (m : Manager) (out : Manager × List Error)
      → m.started ≡ []
      → Running out.0.calls out.0.started
      → Finishes m.components m out
      → AllOrNone m out
  all_or_none m (n, errors) idle r (inl (fine, all, late)) =
      let all' = rw idle at all in all_run fine all' (subst (Running n.calls) all' r) late
  all_or_none m (n, errors) idle r (inr (wrong, nothing, late)) =
      none_runs wrong nothing (subst (Running n.calls) nothing r) late

  started_none : (m : Manager) → m.started ≡ [] → Finishes m.components m (start starts stops m)
  unfolding start by_started
  started_none m idle =
      subst (λ (cs : List ℕ). Finishes m.components m (by_started starts stops cs m)) (sym idle)
        (start_each-Finishes m.components m)

  by_started-Running :
      (running : List ℕ) (m : Manager)
      → Running m.calls m.started
      → Running
          (by_started starts stops running m).0.calls
          (by_started starts stops running m).0.started
  unfolding by_started
  by_started-Running [] m r = start_each-Running m.components m r
  by_started-Running (c ∷ cs) m r = r

  start-Running :
      (m : Manager)
      → Running m.calls m.started
      → Running (start starts stops m).0.calls (start starts stops m).0.started
  unfolding start
  start-Running m r = by_started-Running m.started m r

  -- `Start` of a manager that has nothing started, by its list and by the calls that it has made,
  -- ends without an error with every component running, the last one on top; or it ends with an
  -- error, and every component that it had started is stopped again, the last one first. In the
  -- second case at most one component is left that was not stopped: one whose own start came to a
  -- success only after a deadline or a cancellation.
  pub start-AllOrNone :
      (m : Manager) → m.started ≡ [] → Running m.calls [] → AllOrNone m (start starts stops m)
  start-AllOrNone m idle r =
      all_or_none m (start starts stops m) idle
        (start-Running m (subst (Running m.calls) (sym idle) r)) (started_none m idle)

-- Calls of `Start` and `Stop` in any order; the components may answer each call differently.
pub data Reach (m : Manager) : Manager → Type 0 where
  here : Reach m m
  starts_up :
      {n : Manager} (starts : ℕ → Startup) (stops : ℕ → Check)
      → Reach m n
      → Reach m (start starts stops n).0
  shuts_down :
      {n : Manager} (starts : ℕ → Startup) (stops : ℕ → Check)
      → Reach m n
      → Reach m (stop starts stops n).0

Reach-Running : {m n : Manager} → Running m.calls m.started → Reach m n → Running n.calls n.started
Reach-Running r here = r
Reach-Running r (starts_up {n = n} starts stops before) =
    start-Running starts stops n (Reach-Running r before)
Reach-Running r (shuts_down {n = n} starts stops before) =
    stop-Running starts stops n (Reach-Running r before)

-- Whatever calls are made of a new manager, and whatever the components answer, each stop is of the
-- component that was started last of those that run, and the manager's list is of those that run;
-- a component whose start succeeded only after a deadline or a cancellation is not counted.
pub reachable-Running :
    (components : List ℕ) {m : Manager}
    → Reach (new_configured components) m
    → Running m.calls m.started
unfolding new_configured
reachable-Running components r = Reach-Running none_yet r
