-- ===== src/Safety/Accounting.antt =====
-- internal/safety/engine.go: `accountLocked` and `RecordReported`, which keep each equipment's
-- reported state and its time on.
use aqua_os.Common.{
  String, ℕ, Bool, true, false, not, ◌&&◌, Option, none, some, Result, ok, ◌>>◌, guard,
  unknown_equipment, reported_timestamp_required, Context, live, Time, is_zero, after, sub_time,
  add_duration, utc_date, pos, eqb, if◌then◌else◌, string_eq,
}
use aqua_os.Common.Map.{lookup, insert}
use aqua_os.Equipment.Profile.{Profile}
use aqua_os.Safety.Engine.{Engine, RuntimeState, zero_runtime}

abbrev is_date : ℕ → Option ℕ → Bool
is_date d none = false
is_date d (some c) = eqb c d

-- A new day starts its own sum; equipment that is on is counted from now.
unfoldable pub roll_date : RuntimeState → Time → RuntimeState
roll_date r at = if is_date (utc_date at) r.daily_date then r else record r {
  daily_date = some (utc_date at);
  daily_on = pos 0;
  last_accounted = if r.on then at else r.last_accounted;
}

-- Adds the time since the last accounting.
unfoldable pub add_elapsed : RuntimeState → Time → RuntimeState
add_elapsed r at =
    if r.on && not (is_zero r.last_accounted) && after at r.last_accounted
    then record r {
      daily_on = add_duration r.daily_on (sub_time at r.last_accounted);
      last_accounted = at;
    }
    else r

unfoldable pub account_runtime : RuntimeState → Time → RuntimeState
account_runtime r at = add_elapsed (roll_date r at) at

-- `e.runtime[id]`.
abbrev or_zero : Option RuntimeState → RuntimeState
or_zero none = zero_runtime
or_zero (some r) = r

unfoldable pub get_runtime : Engine → String → RuntimeState
get_runtime e id = or_zero (lookup id e.runtime)

unfoldable pub put_runtime : Engine → String → RuntimeState → Engine
put_runtime e id r = record e { runtime = insert id r e.runtime }

-- `accountLocked`.
unfoldable pub account : Engine → String → Time → Engine × RuntimeState
account e id at = let r = account_runtime (get_runtime e id) at in (put_runtime e id r, r)

-- The reported state itself, on a change.
unfoldable pub report : RuntimeState → Bool → Time → RuntimeState
report r true at =
    if r.on
    then r
    else record r { on = true; on_since = at; last_accounted = at; watchdog_reason = none }
report r false at =
    if r.on
    then record r {
      on = false;
      off_since = at;
      on_since = 0;
      last_accounted = 0;
      watchdog_reason = none;
    }
    else r

abbrev known : Option Profile → Bool
known none = false
known (some p) = true

-- `RecordReported`.
unfoldable pub record_reported : Engine → Context → String → Bool → Time → Result Engine
record_reported e ctx id on observed_at = do
  live ctx
  guard (not (is_zero observed_at)) reported_timestamp_required
  guard (known (lookup id e.profiles)) unknown_equipment
  let (accounted, r) = account e id observed_at
  ok (put_runtime accounted id (report r on observed_at))
