-- ===== src/Safety/Invariant.antt =====
-- internal/safety/engine.go: what holds of the engine between two calls.
pub mod Loops
pub mod Reach
use aqua_os.Common.{
  ◌≡◌, ◌≢◌, ◌<◌, refl, ap, subst, not, before, is_zero, if◌then◌else◌, ok-injective, String, Bool,
  true, false, Option, none, some, List, [], ◌∷◌, ◌++◌, Result, ok, err, arith, Time, Context, All,
  string_eq, Bool-cases, Option-cases, inl, inr, after,
}
use aqua_os.Common.Map.{
  Map, lookup, insert, delete, lookup-insert, All-insert, All-delete, All-lookup, All-map, Has,
  All-Has,
}
use aqua_os.Equipment.Profile.{Profile, validate_profile}
use aqua_os.State.Entry.{StateReader}
use aqua_os.Safety.Engine.{
  Mode, Intent, Override, RuntimeState, WatchdogAction, Engine, empty, add_profiles, new_engine,
  start, stop, set_mode, grant_override, revoke_override, store_override,
}
use aqua_os.Safety.Accounting.{account, put_runtime, record_reported, report}
use aqua_os.Safety.Evaluate.{evaluate, evaluate_known, drop_expired, judged_at}
use aqua_os.Safety.Watchdog.{
  expire_one, expire_overrides, check_one, check_profiles, check_watchdogs,
}

abbrev pub Known : Map String Profile → String → Type 0
Known ps id = Has ps id

abbrev pub IsProfiled : String × Profile → Type 0
IsProfiled b = (b.1.equipment_id ≡ b.0) × (validate_profile b.1 ≡ ok tt)

abbrev pub IsGranted : Map String Profile → String × Override → Type 0
IsGranted ps b = (b.1.equipment_id ≡ b.0) × (b.1.created_at < b.1.expires_at) × Known ps b.0

-- Profiles are valid and filed under their own identity; overrides and runtime states belong to
-- equipment with a profile, and an override runs out after it was made.
pub record Inv (e : Engine) : Type 0 where
  pub profiled : All IsProfiled e.profiles
  pub granted : All (IsGranted e.profiles) e.overrides
  pub tracked : All (λ b. Known e.profiles b.0) e.runtime

account-Inv :
    (e : Engine) (id : String) (at : Time) → Known e.profiles id → Inv e → Inv (account e id at).0
unfolding account put_runtime
account-Inv e id at k v = record {
  profiled = v.profiled;
  granted = v.granted;
  tracked = All-insert (λ b. Known e.profiles b.0) id _ e.runtime k v.tracked;
}

put_runtime-Inv :
    (e : Engine) (id : String) (r : RuntimeState)
    → Known e.profiles id
    → Inv e
    → Inv (put_runtime e id r)
unfolding put_runtime
put_runtime-Inv e id r k v = record {
  profiled = v.profiled;
  granted = v.granted;
  tracked = All-insert (λ b. Known e.profiles b.0) id r e.runtime k v.tracked;
}

delete-Inv :
    (e : Engine) (id : String) → Inv e → Inv (record e { overrides = delete id e.overrides })
delete-Inv e id v = record {
  profiled = v.profiled;
  granted = All-delete (IsGranted e.profiles) id e.overrides v.granted;
  tracked = v.tracked;
}

remode-Inv : (e : Engine) (m : Mode) → Inv e → Inv (record e { mode = m })
remode-Inv e m v = record { profiled = v.profiled; granted = v.granted; tracked = v.tracked }

set_mode-Inv :
    (e : Engine) (ctx : Context) (m : Mode) {q : Engine} → Inv e → set_mode e ctx m ≡ ok q → Inv q
unfolding set_mode
set_mode-Inv e ctx m {q} v h =
    subst Inv (let same : record e { mode = m } ≡ q = ground arith in same) (remode-Inv e m v)

insert_override-Inv :
    (e : Engine) (o : Override)
    → o.created_at < o.expires_at
    → Known e.profiles o.equipment_id
    → Inv e
    → Inv (record e { overrides = insert o.equipment_id o e.overrides })
insert_override-Inv e o later k v = record {
  profiled = v.profiled;
  granted =
      All-insert (IsGranted e.profiles) o.equipment_id o e.overrides (refl, later, k) v.granted;
  tracked = v.tracked;
}

store_override-Inv :
    (e : Engine) (o : Override) (found : Option Profile) {q : Engine}
    → o.created_at < o.expires_at
    → lookup o.equipment_id e.profiles ≡ found
    → Inv e
    → store_override e o found ≡ ok q
    → Inv q
unfolding store_override
store_override-Inv e o none later same v h = cc
store_override-Inv e o (some p) {q} later same v h =
    subst Inv (ok-injective h) (insert_override-Inv e o later (p, same) v)

-- The override that is stored: stamped with the clock where its maker gave no time.
stamped : Time → Override → Override
stamped clock o = if is_zero o.created_at then record o { created_at = clock } else o

granted :
    (e : Engine) (ctx : Context) (clock : Time) (o : Override) {q : Engine}
    → grant_override e ctx clock o ≡ ok q
    → let s = stamped clock o in
      (s.created_at < s.expires_at) × (store_override e s (lookup s.equipment_id e.profiles) ≡ ok q)
unfolding grant_override stamped
granted e ctx clock o h = ground arith

grant_override-Inv :
    (e : Engine) (ctx : Context) (clock : Time) (o : Override) {q : Engine}
    → Inv e
    → grant_override e ctx clock o ≡ ok q
    → Inv q
grant_override-Inv e ctx clock o v h =
    let (later, stored) = granted e ctx clock o h in
    store_override-Inv e (stamped clock o) _ later refl v stored

revoke_override-Inv :
    (e : Engine) (ctx : Context) (id : String) {q : Engine}
    → Inv e
    → revoke_override e ctx id ≡ ok q
    → Inv q
unfolding revoke_override
revoke_override-Inv e ctx id {q} v h =
    subst Inv (let same : record e { overrides = delete id e.overrides } ≡ q = ground arith in same)
      (delete-Inv e id v)

recorded-Known :
    (e : Engine) (ctx : Context) (id : String) (on : Bool) (at : Time) {q : Engine}
    → record_reported e ctx id on at ≡ ok q
    → Known e.profiles id
unfolding record_reported
recorded-Known e ctx id on at h = elim (Option-cases (lookup id e.profiles)) [
  | inl missing ↦ absurd (ground (arith, missing))
  | inr found ↦ found
]

recorded_as :
    (e : Engine) (ctx : Context) (id : String) (on : Bool) (at : Time) {q : Engine}
    → record_reported e ctx id on at ≡ ok q
    → put_runtime (account e id at).0 id (report (account e id at).1 on at) ≡ q
unfolding record_reported
recorded_as e ctx id on at h = ground arith

recorded :
    (e : Engine) (ctx : Context) (id : String) (on : Bool) (at : Time) {q : Engine}
    → record_reported e ctx id on at ≡ ok q
    → Known e.profiles id
      × (put_runtime (account e id at).0 id (report (account e id at).1 on at) ≡ q)
recorded e ctx id on at h = (recorded-Known e ctx id on at h, recorded_as e ctx id on at h)

record_reported-Inv :
    (e : Engine) (ctx : Context) (id : String) (on : Bool) (at : Time) {q : Engine}
    → Inv e
    → record_reported e ctx id on at ≡ ok q
    → Inv q
unfolding account put_runtime
record_reported-Inv e ctx id on at v h =
    let (k, same) = recorded e ctx id on at h in
    subst Inv same (put_runtime-Inv _ id _ k (account-Inv e id at k v))

drop_expired-Inv :
    (e : Engine) (id : String) (o : Option Override) (now : Time)
    → Inv e
    → Inv (drop_expired e id o now)
drop_expired-Inv e id none now v = v
drop_expired-Inv e id (some o) now v = elim (Bool-cases (not (before now o.expires_at))) [
  | inl over ↦ rw over (delete-Inv e id v)
  | inr still ↦ rw still v
]

evaluate_known-Inv :
    (read : StateReader) (e : Engine) (now : Time) (i : Intent) (found : Option Profile)
    → lookup i.equipment_id e.profiles ≡ found
    → Inv e
    → Inv (evaluate_known read e now i found).0
unfolding evaluate_known
evaluate_known-Inv read e now i none same v = v
evaluate_known-Inv read e now i (some p) same v =
    drop_expired-Inv _ i.equipment_id _ now (account-Inv e i.equipment_id now (p, same) v)

evaluate-Inv :
    (read : StateReader) (e : Engine) (ctx : Context) (clock : Time) (i : Intent)
    → Inv e
    → Inv (evaluate read e ctx clock i).0
unfolding evaluate
evaluate-Inv read e ctx clock i v = elim (Bool-cases ctx.cancelled) [
  | inl gone ↦ rw gone v
  | inr live' ↦ rw live' (evaluate_known-Inv read e (judged_at clock i) i _ refl v)
]
