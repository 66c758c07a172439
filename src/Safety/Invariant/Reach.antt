-- ===== src/Safety/Invariant/Reach.antt =====
-- internal/safety/engine.go: the engine under any sequence of its operations.
use aqua_os.Common.{
  ◌≡◌, refl, subst, String, Bool, List, [], ◌∷◌, ok, arith, Time, Context, All, string_eq,
  ok-injective,
}
use aqua_os.Common.Map.{insert, All-insert}
use aqua_os.Equipment.Profile.{Profile, validate_profile}
use aqua_os.State.Entry.{StateReader}
use aqua_os.Safety.Engine.{
  Mode, Intent, Override, Engine, empty, add_profiles, new_engine, start, stop, set_mode,
  grant_override, revoke_override,
}
use aqua_os.Safety.Accounting.{record_reported}
use aqua_os.Safety.Evaluate.{evaluate}
use aqua_os.Safety.Watchdog.{check_watchdogs}
use aqua_os.Safety.Invariant.{
  IsProfiled, Inv, set_mode-Inv, grant_override-Inv, revoke_override-Inv, record_reported-Inv,
  evaluate-Inv,
}
use aqua_os.Safety.Invariant.Loops.{check_watchdogs-Inv}

-- One call of an operation of the engine, by whoever makes it. A call that returns an error leaves
-- the engine as it was.
pub data Step (e : Engine) : Engine → Type 0 where
  starts : Step e (start e)
  stops : Step e (stop e)
  sets_mode : (ctx : Context) (m : Mode) {q : Engine} → set_mode e ctx m ≡ ok q → Step e q
  grants :
      (ctx : Context) (clock : Time) (o : Override) {q : Engine}
      → grant_override e ctx clock o ≡ ok q
      → Step e q
  revokes : (ctx : Context) (id : String) {q : Engine} → revoke_override e ctx id ≡ ok q → Step e q
  evaluates :
      (read : StateReader) (ctx : Context) (clock : Time) (i : Intent)
      → Step e (evaluate read e ctx clock i).0
  records :
      (ctx : Context) (id : String) (on : Bool) (at : Time) {q : Engine}
      → record_reported e ctx id on at ≡ ok q
      → Step e q
  watches : (ctx : Context) (now : Time) → Step e (check_watchdogs e ctx now).0

pub data Reach (e : Engine) : Engine → Type 0 where
  here : Reach e e
  next : {f g : Engine} → Reach e f → Step f g → Reach e g

Step-Inv : {e f : Engine} → Inv e → Step e f → Inv f
unfolding start stop
Step-Inv v starts = record { profiled = v.profiled; granted = v.granted; tracked = v.tracked }
Step-Inv v stops = record { profiled = v.profiled; granted = v.granted; tracked = v.tracked }
Step-Inv {e} v (sets_mode ctx m h) = set_mode-Inv e ctx m v h
Step-Inv {e} v (grants ctx clock o h) = grant_override-Inv e ctx clock o v h
Step-Inv {e} v (revokes ctx id h) = revoke_override-Inv e ctx id v h
Step-Inv {e} v (evaluates read ctx clock i) = evaluate-Inv read e ctx clock i v
Step-Inv {e} v (records ctx id on at h) = record_reported-Inv e ctx id on at v h
Step-Inv {e} v (watches ctx now) = check_watchdogs-Inv e ctx now v

Reach-Inv : {e f : Engine} → Inv e → Reach e f → Inv f
Reach-Inv v here = v
Reach-Inv v (next r s) = Step-Inv (Reach-Inv v r) s

-- An engine with profiles only.
abbrev Fresh : Engine → Type 0
Fresh e = All IsProfiled e.profiles × (e.overrides ≡ []) × (e.runtime ≡ [])

add_profile_ok :
    (e : Engine) (p : Profile) (ps : List Profile) {q : Engine}
    → add_profiles e (p ∷ ps) ≡ ok q
    → (validate_profile p ≡ ok tt)
      × (add_profiles (record e { profiles = insert p.equipment_id p e.profiles }) ps ≡ ok q)
unfolding add_profiles
add_profile_ok e p ps h = ground arith

add_profiles-Fresh :
    (e : Engine) (ps : List Profile) {q : Engine} → Fresh e → add_profiles e ps ≡ ok q → Fresh q
unfolding add_profiles
add_profiles-Fresh e [] f h = subst Fresh (ok-injective h) f
add_profiles-Fresh e (p ∷ ps) (f, o, r) h =
    let (valid, rest) = add_profile_ok e p ps h in
    add_profiles-Fresh (record e { profiles = insert p.equipment_id p e.profiles }) ps
      (All-insert IsProfiled p.equipment_id p e.profiles (refl, valid) f, o, r) rest

Fresh-Inv : (e : Engine) → Fresh e → Inv e
Fresh-Inv e (f, o, r) = record { profiled = f; granted = rw o tt; tracked = rw r tt }

-- Whatever calls are made of an engine that `NewEngine` built, in whatever order and at whatever
-- times, its profiles stay valid, its overrides run out after they were made, and overrides and
-- runtime states belong to equipment with a profile.
pub reachable_engine-Inv :
    (ps : List Profile) {e f : Engine} → new_engine ps ≡ ok e → Reach e f → Inv f
unfolding new_engine empty
reachable_engine-Inv ps {e} h r =
    Reach-Inv (Fresh-Inv e (add_profiles-Fresh empty ps (tt, refl, refl) h)) r
