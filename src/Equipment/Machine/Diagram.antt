-- ===== src/Equipment/Machine/Diagram.antt =====
-- internal/equipment/machine.go: the transition diagram of `Apply`.
use aqua_os.Common.{◌≡◌, none, arith, Bool, true}
use aqua_os.Equipment.Machine.{
  OperatingState, Transition, Machine, unknown, off, starting, on, stopping, fault, command_on,
  command_off, acknowledged_on, acknowledged_off, reported_on, reported_off, faulted, reset, apply,
}
use aqua_os.Common.{◌↔◌}

-- What may follow what, with the transition that causes it and the acknowledgement before it.
pub data Edge : OperatingState → Bool → Transition → OperatingState → Type 0 where
  fail : {s : OperatingState} {a : Bool} → Edge s a faulted fault
  seen_on : {a : Bool} → Edge unknown a reported_on on
  seen_off : {a : Bool} → Edge unknown a reported_off off
  start : {a : Bool} → Edge off a command_on starting
  manual_on : {a : Bool} → Edge off a reported_on on
  ack_on : {a : Bool} → Edge starting a acknowledged_on starting
  confirm_on : Edge starting true reported_on on
  abort : {a : Bool} → Edge starting a command_off stopping
  stop : {a : Bool} → Edge on a command_off stopping
  manual_off : {a : Bool} → Edge on a reported_off off
  ack_off : {a : Bool} → Edge stopping a acknowledged_off stopping
  confirm_off : Edge stopping true reported_off off
  recover : {a : Bool} → Edge fault a reset unknown

abbrev at : OperatingState → Bool → Machine
at s a = record { state = s; acknowledged = a }

ruleset edges = (
  fail, seen_on, seen_off, start, manual_on, ack_on, confirm_on, abort, stop, manual_off, ack_off,
  confirm_off, recover,
)

accepted-Edge :
    (s : OperatingState) (a : Bool) (t : Transition)
    → (apply (at s a) t).1 ≡ none
    → Edge s a t (apply (at s a) t).0.state
unfolding apply
accepted-Edge s a t h = grind (arith, edges)

Edge-accepted :
    {s u : OperatingState} {a : Bool} {t : Transition}
    → Edge s a t u
    → ((apply (at s a) t).1 ≡ none) × ((apply (at s a) t).0.state ≡ u)
unfolding apply
Edge-accepted (fail {s = s}) = ground arith
Edge-accepted seen_on = ground arith
Edge-accepted seen_off = ground arith
Edge-accepted start = ground arith
Edge-accepted manual_on = ground arith
Edge-accepted ack_on = ground arith
Edge-accepted confirm_on = ground arith
Edge-accepted abort = ground arith
Edge-accepted stop = ground arith
Edge-accepted manual_off = ground arith
Edge-accepted ack_off = ground arith
Edge-accepted confirm_off = ground arith
Edge-accepted recover = ground arith

-- `Apply` accepts a transition and ends in a state exactly when the diagram has that edge, at the
-- acknowledgement that the machine holds.
pub apply_iff_Edge :
    (m : Machine) (t : Transition) (u : OperatingState)
    → (((apply m t).1 ≡ none) × ((apply m t).0.state ≡ u)) ↔ Edge m.state m.acknowledged t u
apply_iff_Edge m t u = (λ (h, e). rw e at (accepted-Edge m.state m.acknowledged t h), Edge-accepted)
