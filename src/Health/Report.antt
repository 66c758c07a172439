-- ===== src/Health/Report.antt =====
-- internal/health/health.go: the manager and `Report`. What a component answers to `Health` is part
-- of its registration; the manager's own name, message and the time of a check are arguments.
pub mod Ready
use aqua_os.Common.{
  ℕ, String, Bool, true, false, not, ◌&&◌, List, [], ◌∷◌, ◌++◌, Time, if◌then◌else◌, ◌==◌,
  string_eq,
}

-- `unset` is Go's empty text.
pub data State : Type 0 where
  unset healthy_state degraded unhealthy : State
  other_state : String → State

pub record Status : Type 0 where
  pub name : String
  pub state : State
  pub healthy : Bool
  pub message : String
  pub checked_at : Time

abbrev pub is_healthy : State → Bool
is_healthy healthy_state = true
is_healthy _ = false

-- `NewStatus`.
unfoldable pub new_status : String → State → String → Time → Status
new_status name state message at = record {
  name = name;
  state = state;
  healthy = is_healthy state;
  message = message;
  checked_at = at;
}

-- A registered component, by what its `Health` answers.
pub record Registration : Type 0 where
  pub health : Status
  pub required : Bool

pub record Manager : Type 0 where
  pub components : List Registration
  pub started : Bool

pub record Report : Type 0 where
  pub live : Bool
  pub ready : Bool
  pub state : State
  pub components : List Status

-- `RegisterComponent`.
unfoldable pub register_component : Manager → Status → Bool → Manager
register_component m health required = record m {
  components = m.components ++ record { health = health; required = required } ∷ [];
}

unfoldable pub start : Manager → Manager
start m = record m { started = true }

unfoldable pub stop : Manager → Manager
stop m = record m { started = false }

abbrev state_of : State → Bool → State
state_of unset true = healthy_state
state_of unset false = unhealthy
state_of s healthy = s

-- `normalize`.
unfoldable pub normalize : Status → Status
normalize s =
    let state = state_of s.state s.healthy in record s { state = state; healthy = is_healthy state }

-- The readiness and the state after one component.
unfoldable pub assess : Registration → Bool × State → Bool × State
assess r (ready, state) =
    if is_healthy (normalize r.health).state
    then (ready, state)
    else if r.required
    then (false, unhealthy)
    else (ready, if is_healthy state then degraded else state)

-- The loop of `Report`.
unfoldable pub assess_all : List Registration → Bool × State → Bool × State
assess_all [] seen = seen
assess_all (r ∷ rs) seen = assess_all rs (assess r seen)

abbrev normalized : List Registration → List Status
normalized [] = []
normalized (r ∷ rs) = normalize r.health ∷ normalized rs

-- `Health` of the manager.
unfoldable pub own_health : Manager → Time → Status
own_health m now = new_status "health" (if m.started then healthy_state else unhealthy) "" now

-- `Report`.
unfoldable pub report : Manager → Time → Report
report m now =
    let (ready, state) = assess_all m.components (m.started, healthy_state) in
    record {
      live = true;
      ready = ready;
      state = if not m.started then unhealthy else state;
      components = own_health m now ∷ normalized m.components;
    }
