-- ===== src/Safety/Engine.antt =====
-- internal/safety/engine.go: the engine's state, its construction, and the operations that change
-- the mode and the overrides. The clock's reading is an argument of the operations that take one.
use aqua_os.Common.{
  String, ℕ, Bool, true, false, not, ◌||◌, Option, none, some, List, [], ◌∷◌, Result, ok, err, ◌>>◌,
  guard, duplicate_profile, unsupported_mode, override_fields_required, override_expiry,
  unknown_equipment, Context, live, Time, Duration, is_zero, after, pos, if◌then◌else◌, ◌==◌,
  string_eq,
}
use aqua_os.Common.Map.{Map, lookup, insert, delete}
use aqua_os.Domain.Ids.{validate_uuid}
use aqua_os.Equipment.Profile.{Profile, validate_profile}

pub data Mode : Type 0 where
  normal maintenance manual emergency_stop : Mode
  other_mode : String → Mode

-- The stable decision reasons, "safety.allowed" and so on.
pub data Reason : Type 0 where
  allowed_reason unknown_reason stop_reason override_required_reason override_expired_reason :
      Reason
  input_missing input_invalid input_stale input_mismatch : Reason
  maximum_on_reason maximum_daily_on_reason minimum_off_reason : Reason

pub record Intent : Type 0 where
  pub equipment_id : String
  pub turn_on : Bool
  pub issued_at : Time

pub record Decision : Type 0 where
  pub allowed : Bool
  pub reason : Reason
  pub hard_limit : Bool
  pub override_id : String

pub record Override : Type 0 where
  pub id : String
  pub equipment_id : String
  pub requester : String
  pub reason : String
  pub created_at : Time
  pub expires_at : Time

pub record WatchdogAction : Type 0 where
  pub equipment_id : String
  pub turn_on : Bool
  pub reason : Reason
  pub observed_at : Time

-- `daily_date` is the day counted by its number; `none` stands for the empty text.
pub record RuntimeState : Type 0 where
  pub on : Bool
  pub on_since : Time
  pub off_since : Time
  pub daily_on : Duration
  pub daily_date : Option ℕ
  pub last_accounted : Time
  pub watchdog_reason : Option Reason

-- Go's zero value, which a missing map entry yields.
abbrev pub zero_runtime : RuntimeState
zero_runtime = record {
  on = false;
  on_since = 0;
  off_since = 0;
  daily_on = pos 0;
  daily_date = none;
  last_accounted = 0;
  watchdog_reason = none;
}

pub record Engine : Type 0 where
  pub mode : Mode
  pub profiles : Map String Profile
  pub overrides : Map String Override
  pub runtime : Map String RuntimeState
  pub started : Bool

unfoldable pub empty : Engine
empty = record { mode = normal; profiles = []; overrides = []; runtime = []; started = false }

-- The loop of `NewEngine` over the profiles given.
unfoldable pub add_profiles : Engine → List Profile → Result Engine
add_profiles e [] = ok e
add_profiles e (p ∷ ps) =
    let rest = add_profiles (record e { profiles = insert p.equipment_id p e.profiles }) ps in
    do
      validate_profile p
      guard (is_absent (lookup p.equipment_id e.profiles)) duplicate_profile
      rest
  where
    is_absent : Option Profile → Bool
    is_absent none = true
    is_absent (some q) = false

unfoldable pub new_engine : List Profile → Result Engine
new_engine ps = add_profiles empty ps

unfoldable pub start : Engine → Engine
start e = record e { started = true }

unfoldable pub stop : Engine → Engine
stop e = record e { started = false }

abbrev pub is_supported_mode : Mode → Bool
is_supported_mode (other_mode s) = false
is_supported_mode _ = true

-- `SetMode`.
unfoldable pub set_mode : Engine → Context → Mode → Result Engine
set_mode e ctx mode = do
  live ctx
  guard (is_supported_mode mode) unsupported_mode
  ok (record e { mode = mode })

unfoldable pub store_override : Engine → Override → Option Profile → Result Engine
store_override e o none = err unknown_equipment
store_override e o (some p) = ok (record e { overrides = insert o.equipment_id o e.overrides })

-- `GrantOverride`, at the clock's reading.
unfoldable pub grant_override : Engine → Context → Time → Override → Result Engine
grant_override e ctx clock given = do
  live ctx
  validate_uuid given.id
  guard (not (given.reason == "" || given.requester == "")) override_fields_required
  let o = if is_zero given.created_at then record given { created_at = clock } else given
  guard (after o.expires_at o.created_at) override_expiry
  store_override e o (lookup o.equipment_id e.profiles)

-- `RevokeOverride`.
unfoldable pub revoke_override : Engine → Context → String → Result Engine
revoke_override e ctx id = do live ctx; ok (record e { overrides = delete id e.overrides })
