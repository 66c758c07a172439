-- ===== src/Safety/Watchdog.antt =====
-- internal/safety/engine.go: `CheckWatchdogs`. Go ranges over its maps in no fixed order; the model
-- ranges in the order of the bindings.
use aqua_os.Common.{
  String, Bool, true, false, not, ◌&&◌, Option, none, some, List, [], ◌∷◌, ◌++◌, Result, ok, err,
  Context, context_cancelled, Time, before, sub_time, ltb_ℤ, leb_ℤ, pos, if◌then◌else◌, string_eq,
}
use aqua_os.Common.Map.{Map, lookup, delete}
use aqua_os.Equipment.Profile.{Profile}
use aqua_os.Safety.Engine.{
  Reason, override_expired_reason, maximum_on_reason, maximum_daily_on_reason, Override,
  WatchdogAction, RuntimeState, Engine,
}
use aqua_os.Safety.Accounting.{account, put_runtime}

-- `e.profiles[id].FailSafeOn`; a missing profile is Go's zero value.
abbrev pub fail_safe : Option Profile → Bool
fail_safe none = false
fail_safe (some p) = p.fail_safe_on

abbrev pub action : Engine → String → Reason → Time → WatchdogAction
action e id reason now = record {
  equipment_id = id;
  turn_on = fail_safe (lookup id e.profiles);
  reason = reason;
  observed_at = now;
}

abbrev pub untripped : RuntimeState → Bool
untripped r = by_reason r.watchdog_reason
  where
    by_reason : Option Reason → Bool
    by_reason none = true
    by_reason (some x) = false

-- Marks the equipment and asks for its safe state.
abbrev pub trip : Engine → String → RuntimeState → Reason → Time → Engine × List WatchdogAction
trip e id r reason now =
    (put_runtime e id (record r { watchdog_reason = some reason }), action e id reason now ∷ [])

-- The first loop's body: an override that has run out.
unfoldable pub expire_one : Time → Engine → String → Override → Engine × List WatchdogAction
expire_one now e id o =
    let (accounted, r) = account (record e { overrides = delete id e.overrides }) id now in
    if before now o.expires_at
    then (e, [])
    else if r.on && untripped r
    then trip accounted id r override_expired_reason now
    else (accounted, [])

unfoldable pub expire_overrides : Time → Engine → Map String Override → Engine × List WatchdogAction
expire_overrides now e [] = (e, [])
expire_overrides now e ((id, o) ∷ os) =
    let (next, actions) = expire_one now e id o in
    let (last, more) = expire_overrides now next os in (last, actions ++ more)

-- The limit that a running equipment has reached.
unfoldable pub limit_reached : Profile → RuntimeState → Time → Option Reason
limit_reached p r now =
    if r.on && ltb_ℤ (pos 0) p.maximum_on && leb_ℤ p.maximum_on (sub_time now r.on_since)
    then some maximum_on_reason
    else if r.on && ltb_ℤ (pos 0) p.maximum_daily_on && leb_ℤ p.maximum_daily_on r.daily_on
    then some maximum_daily_on_reason
    else none

-- What follows from the limit that was reached, if any.
unfoldable pub settle :
    Time → Engine → String → Profile → RuntimeState → Option Reason → Engine × List WatchdogAction
settle now e id p r none = (e, [])
settle now e id p r (some reason) = (
  put_runtime e id (record r { watchdog_reason = some reason }),
  record { equipment_id = id; turn_on = p.fail_safe_on; reason = reason; observed_at = now } ∷ [],
)

-- The second loop's body: the limits of one profile.
unfoldable pub check_one : Time → Engine → String → Profile → Engine × List WatchdogAction
check_one now e id p =
    let (accounted, r) = account e id now in
    if not (untripped r)
    then (accounted, [])
    else settle now accounted id p r (limit_reached p r now)

unfoldable pub check_profiles : Time → Engine → Map String Profile → Engine × List WatchdogAction
check_profiles now e [] = (e, [])
check_profiles now e ((id, p) ∷ ps) =
    let (next, actions) = check_one now e id p in
    let (last, more) = check_profiles now next ps in (last, actions ++ more)

-- Both loops, under the lock.
unfoldable pub sweep : Time → Engine → Engine × List WatchdogAction
sweep now e =
    let (expired, first) = expire_overrides now e e.overrides in
    let (checked, second) = check_profiles now expired expired.profiles in
    (checked, first ++ second)

-- `CheckWatchdogs`, at the clock's reading.
unfoldable pub check_watchdogs : Engine → Context → Time → Engine × Result (List WatchdogAction)
check_watchdogs e ctx now =
    let (checked, actions) = sweep now e in
    if ctx.cancelled then (e, err context_cancelled) else (checked, ok actions)
