-- ===== src/Alarms/Manager/Operator.antt =====
-- internal/alarms/manager.go: what operators can do to an alarm.
use aqua_os.Common.{
  ◌≡◌, ◌≢◌, refl, ◌⊎◌, inl, inr, String, false, Option, none, some, arith, Context, Time, Check,
  string_eq, if◌then◌else◌, if-elim,
}
use aqua_os.Common.Map.{lookup, insert}
use aqua_os.Alarms.Alarm.{acknowledged, cleared, Alarm, Transition}
use aqua_os.Alarms.Observe.{is_cleared}
use aqua_os.Alarms.Manager.{
  Manager, Changed, is_active, acknowledge_found, acknowledge, clear_found, clear,
}

-- Under a live context, `Acknowledge` of a filed alarm changes the alarms only if it is active:
-- then it becomes acknowledged at the clock's time, and whether its condition holds stays as it
-- was.
pub acknowledge_alarms :
    (m : Manager) (ctx : Context) (id : String) (now : Time) (publish : Transition → Alarm → Check)
    (a : Alarm)
    → ctx.cancelled ≡ false
    → lookup id m.alarms ≡ some a
    → (acknowledge m ctx id now publish).0.alarms ≡ (
        if is_active a.status
        then insert id (record a { status = acknowledged; acknowledged_at = some now }) m.alarms
        else m.alarms)
unfolding acknowledge acknowledge_found
acknowledge_alarms m ctx id now publish a live' found = rw (live', found) (ground arith)

-- What `Clear` leaves.
abbrev pub Clears : Manager → String → Time → Manager → Type 0
Clears m id now n =
    (n ≡ m)
    ⊎ ((a : Alarm) × (lookup id m.alarms ≡ some a)
        × (a.condition_active ≡ false)
        × (a.status ≢ cleared)
        × (n.rules ≡ m.rules)
        × (n.alarms ≡ insert id (record a { status = cleared; cleared_at = some now }) m.alarms))

clear_found-Clears :
    (m : Manager) (id : String) (now : Time) (publish : Transition → Alarm → Check)
    (found : Option Alarm)
    → lookup id m.alarms ≡ found
    → Clears m id now (clear_found m id now publish found).0
unfolding clear_found
clear_found-Clears m id now publish none h = inl refl
clear_found-Clears m id now publish (some a) h =
    if-elim (λ (out : Changed). Clears m id now out.0) a.condition_active _ _ (λ _. inl refl)
      (λ gone.
        if-elim (λ (out : Changed). Clears m id now out.0) (is_cleared a.status) _ _ (λ _. inl refl)
          (λ open'. inr (a, h, gone, λ e. ground arith, refl, refl)))

-- `Clear` makes an alarm cleared only if its condition has gone and it was not cleared before; in
-- every other case the manager stays as it is.
pub clear-Clears :
    (m : Manager) (ctx : Context) (id : String) (now : Time) (publish : Transition → Alarm → Check)
    → Clears m id now (clear m ctx id now publish).0
unfolding clear
clear-Clears m ctx id now publish =
    if-elim (λ (out : Changed). Clears m id now out.0) ctx.cancelled _ _ (λ _. inl refl)
      (λ _. clear_found-Clears m id now publish (lookup id m.alarms) refl)
