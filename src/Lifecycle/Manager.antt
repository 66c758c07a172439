-- ===== src/Lifecycle/Manager.antt =====
-- internal/lifecycle/manager.go: `Start` and `Stop`. A component is known by its number. What its
-- `Start` comes to, under the deadlines and the context of the call, is an argument, and so is what
-- its `Stop` answers; the calls made of the components are recorded, newest first, with what the
-- starts came to.
pub mod Order
use aqua_os.Common.{
  ℕ, Bool, true, false, Option, none, some, List, [], ◌∷◌, ◌++◌, ok, err, Check, Error,
  lifecycle_already_started,
}

-- What a component's `Start` comes to: it answers without an error in time; or with an error; or
-- without an error, but only after a deadline or a cancellation, so that the manager joins that
-- error to its answer.
pub data Startup : Type 0 where
  began : Startup
  failed_with overdue_with : Error → Startup

pub data Call : Type 0 where
  started_call refused_call overdue_call stopped_call : ℕ → Call

-- `started` holds the components that count as started, the last one first.
pub record Manager : Type 0 where
  pub components : List ℕ
  pub started : List ℕ
  pub calls : List Call

unfoldable pub new_configured : List ℕ → Manager
new_configured components = record { components = components; started = []; calls = [] }

module _ (starts : ℕ → Startup) (stops : ℕ → Check) where
  abbrev failed : Check → List Error
  failed (ok _) = []
  failed (err x) = x ∷ []

  -- The loop of `stopLocked` over the components that run.
  unfoldable pub stop_each : List ℕ → List Call → List Call × List Error
  stop_each [] calls = (calls, [])
  stop_each (c ∷ cs) calls =
      let (after, errors) = stop_each cs (stopped_call c ∷ calls) in
      (after, failed (stops c) ++ errors)

  -- `stopLocked`, which `Stop` calls under the lock.
  unfoldable pub stop : Manager → Manager × List Error
  stop m =
      let (calls, errors) = stop_each m.started m.calls in
      (record m { started = []; calls = calls }, errors)

  -- The rollback after a start that has failed.
  unfoldable pub roll_back : Call → Error → Manager → Manager × List Error
  roll_back call x m =
      let (stopped, errors) = stop (record m { calls = call ∷ m.calls }) in (stopped, x ∷ errors)

  -- What follows the start of one component: the rest of the loop, or the rollback, to which a
  -- component that began too late does not belong.
  unfoldable pub on_start : Startup → ℕ → Manager → Manager × List Error → Manager × List Error
  on_start began c m rest = rest
  on_start (failed_with x) c m rest = roll_back (refused_call c) x m
  on_start (overdue_with x) c m rest = roll_back (overdue_call c) x m

  -- The loop of `Start`.
  unfoldable pub start_each : List ℕ → Manager → Manager × List Error
  start_each [] m = (m, [])
  start_each (c ∷ cs) m =
      let rest =
        start_each cs (record m { calls = started_call c ∷ m.calls; started = c ∷ m.started }) in
      on_start (starts c) c m rest

  unfoldable pub by_started : List ℕ → Manager → Manager × List Error
  by_started [] m = start_each m.components m
  by_started (c ∷ cs) m = (m, lifecycle_already_started ∷ [])

  -- `Start`.
  unfoldable pub start : Manager → Manager × List Error
  start m = by_started m.started m
