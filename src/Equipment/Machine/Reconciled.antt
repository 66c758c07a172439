-- ===== src/Equipment/Machine/Reconciled.antt =====
-- internal/equipment/machine.go: what `Apply` and its histories guarantee.
use aqua_os.Common.{◌≡◌, ◌≢◌, ◌⊎◌, Bool, true, false, List, [], ◌∷◌, some, Error, arith}
use aqua_os.Equipment.Machine.{
  OperatingState, Transition, Machine, off, starting, on, stopping, reported_on, reported_off,
  new_machine, apply, run,
}

-- A rejected transition leaves the machine as it was.
pub apply_error_unchanged :
    (m : Machine) (t : Transition) {x : Error} → (apply m t).1 ≡ some x → (apply m t).0 ≡ m
unfolding apply
apply_error_unchanged m t h = ground arith

-- The state that a report confirms, the report, and the state that waits for it.
abbrev pub settled : Bool → OperatingState
settled true = on
settled false = off

abbrev pub report_of : Bool → Transition
report_of true = reported_on
report_of false = reported_off

abbrev pub pending_for : Bool → OperatingState
pending_for true = starting
pending_for false = stopping

-- A machine comes to `on` only by a report that the equipment is on, and to `off` only by a report
-- that it is off: neither a command nor an acknowledgement does it. If it was starting or stopping,
-- the command had been acknowledged.
pub apply-reported :
    (m : Machine) (t : Transition) (is_on : Bool)
    → (apply m t).0.state ≡ settled is_on
    → m.state ≢ settled is_on
    → (t ≡ report_of is_on) × ((m.state ≢ pending_for is_on) ⊎ (m.acknowledged ≡ true))
unfolding apply
apply-reported m t true h k = ground arith
apply-reported m t false h k = ground arith

-- Only a pending command holds an acknowledgement.
pub record Inv (m : Machine) : Type 0 where
  pub pending : m.acknowledged ≡ true → (m.state ≡ starting) ⊎ (m.state ≡ stopping)

apply-Inv : (m : Machine) (t : Transition) → Inv m → Inv (apply m t).0
unfolding apply
apply-Inv m t v = ground arith

run-Inv : (m : Machine) (ts : List Transition) → Inv m → Inv (run m ts)
unfolding run
run-Inv m [] v = v
run-Inv m (t ∷ ts) v = run-Inv (apply m t).0 ts (apply-Inv m t v)

-- After any history of a new machine, an acknowledgement is held only while a command is pending.
pub run-new-Inv : (ts : List Transition) → Inv (run new_machine ts)
unfolding new_machine
run-new-Inv ts = run-Inv _ ts (record { pending = λ h. cc })
