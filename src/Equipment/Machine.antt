-- ===== src/Equipment/Machine.antt =====
-- internal/equipment/machine.go: the lifecycle of one piece of equipment. `Apply` returns the new
-- machine; on an error the machine is what the method leaves behind.
pub mod Diagram
pub mod Reconciled
use aqua_os.Common.{
  Bool, true, false, not, List, [], ◌∷◌, Option, none, some, if◌then◌else◌, Error,
  invalid_state_transition,
}

pub data OperatingState : Type 0 where
  unknown off starting on stopping fault : OperatingState

pub data Transition : Type 0 where
  command_on command_off acknowledged_on acknowledged_off reported_on reported_off : Transition
  faulted reset : Transition

pub record Machine : Type 0 where
  pub state : OperatingState
  pub acknowledged : Bool

unfoldable pub new_machine : Machine
new_machine = record { state = unknown; acknowledged = false }

abbrev pub Outcome : Type 0
Outcome = Machine × Option Error

abbrev reject : Machine → Outcome
reject m = (m, some invalid_state_transition)

abbrev goto : OperatingState → Machine → Outcome
goto s m = (record m { state = s }, none)

-- Enters a state with the acknowledgement forgotten.
abbrev enter : OperatingState → Outcome
enter s = (record { state = s; acknowledged = false }, none)

abbrev note_acknowledgement : Machine → Outcome
note_acknowledgement m = (record m { acknowledged = true }, none)

-- A report while a command is pending counts only after the acknowledgement.
abbrev confirm : OperatingState → Machine → Outcome
confirm s m = if not m.acknowledged then reject m else enter s

-- The `switch` on the state, for every transition but `fault`.
unfoldable pub dispatch : OperatingState → Transition → Machine → Outcome
dispatch unknown reported_on m = goto on m
dispatch unknown reported_off m = goto off m
dispatch off command_on m = enter starting
dispatch off reported_on m = goto on m
dispatch starting acknowledged_on m = note_acknowledgement m
dispatch starting reported_on m = confirm on m
dispatch starting command_off m = enter stopping
dispatch on command_off m = enter stopping
dispatch on reported_off m = goto off m
dispatch stopping acknowledged_off m = note_acknowledgement m
dispatch stopping reported_off m = confirm off m
dispatch fault reset m = enter unknown
dispatch _ _ m = reject m

-- `Machine.Apply`: the new state is the machine's.
unfoldable pub apply : Machine → Transition → Outcome
unfolding dispatch
apply m faulted = enter fault
apply m t = dispatch m.state t m

-- The transitions of a history, errors ignored by the caller.
unfoldable pub run : Machine → List Transition → Machine
run m [] = m
run m (t ∷ ts) = run (apply m t).0 ts
