-- ===== src/Safety/Invariant/Loops.antt =====
-- internal/safety/engine.go: `CheckWatchdogs` keeps the invariant, and asks only for safe states.
use aqua_os.Common.{
  ◌≡◌, refl, subst, sym, String, true, false, not, Option, none, some, List, [], ◌∷◌, ◌++◌, ok,
  arith, Time, Context, All, before, string_eq, Bool-cases, inl, inr, ◌&&◌, All-append, if-elim,
  ◌∙◌,
}
use mathlib.Core.List.{Mem}
use aqua_os.Common.Map.{Map, All-Mem, delete, All-lookup, All-map, All-Has}
use aqua_os.Equipment.Profile.{Profile, validate_profile}
use aqua_os.Equipment.Profile.Safe.{validate_profile_iff}
use aqua_os.Safety.Engine.{
  Reason, override_expired_reason, Override, RuntimeState, WatchdogAction, Engine,
}
use aqua_os.Safety.Accounting.{account, put_runtime}
use aqua_os.Safety.Watchdog.{
  action, untripped, limit_reached, expire_one, expire_overrides, check_one, check_profiles,
  check_watchdogs, trip, settle, sweep,
}
use aqua_os.Safety.Invariant.{
  Known, IsProfiled, IsGranted, Inv, account-Inv, put_runtime-Inv, delete-Inv,
}

-- The action asks for the fail-safe state of a valid profile that is filed for its equipment, which
-- for hazardous equipment is off.
abbrev pub IsSafeAction : Map String Profile → WatchdogAction → Type 0
IsSafeAction ps a =
    (p : Profile) × Mem (a.equipment_id, p) ps
    × (p.equipment_id ≡ a.equipment_id)
    × (validate_profile p ≡ ok tt)
    × (a.turn_on ≡ p.fail_safe_on)
    × (p.hazardous ≡ true → a.turn_on ≡ false)

-- What a loop's body leaves: the invariant, the same profiles, and safe actions.
abbrev pub Keeps : Engine → Engine × List WatchdogAction → Type 0
Keeps e out = Inv out.0 × (out.0.profiles ≡ e.profiles) × All (IsSafeAction e.profiles) out.1

safe_of :
    (ps : Map String Profile) (p : Profile) (id : String) (reason : Reason) (now : Time)
    → Mem (id, p) ps
    → IsProfiled (id, p)
    → IsSafeAction ps
        (record { equipment_id = id; turn_on = p.fail_safe_on; reason = reason; observed_at = now })
safe_of ps p id reason now listed (filed, valid) =
    (p, listed, filed, valid, refl, ((validate_profile_iff p).0 valid).3.fails_off)

action-safe :
    (e : Engine) (id : String) (reason : Reason) (now : Time)
    → Known e.profiles id
    → Inv e
    → IsSafeAction e.profiles (action e id reason now)
action-safe e id reason now (p, found) v = rw found (
    safe_of e.profiles p id reason now
      (All-lookup (λ b. Mem b e.profiles) id p e.profiles (All-Mem e.profiles) found)
      (All-lookup IsProfiled id p e.profiles v.profiled found))

account-Keeps :
    (e : Engine) (id : String) (now : Time)
    → Known e.profiles id
    → Inv e
    → Keeps e ((account e id now).0, [])
unfolding account put_runtime
account-Keeps e id now k v = (account-Inv e id now k v, refl, tt)

trip-Keeps :
    (e : Engine) (id : String) (r : RuntimeState) (reason : Reason) (now : Time)
    → Known e.profiles id
    → Inv e
    → Keeps e (trip e id r reason now)
unfolding put_runtime
trip-Keeps e id r reason now k v =
    (put_runtime-Inv e id _ k v, refl, (action-safe e id reason now k v, tt))

-- An accounting before a step changes nothing that the step is held to.
Keeps-account :
    (e : Engine) (id : String) (now : Time) (out : Engine × List WatchdogAction)
    → Keeps (account e id now).0 out
    → Keeps e out
unfolding account put_runtime
Keeps-account e id now out h = h

Keeps-delete :
    (e : Engine) (id : String) (out : Engine × List WatchdogAction)
    → Keeps (record e { overrides = delete id e.overrides }) out
    → Keeps e out
Keeps-delete e id out h = h

profiles-account :
    (e : Engine) (id : String) (now : Time) → (account e id now).0.profiles ≡ e.profiles
unfolding account put_runtime
profiles-account e id now = refl

expire_one-Keeps :
    (now : Time) (e : Engine) (id : String) (o : Override)
    → Known e.profiles id
    → Inv e
    → Keeps e (expire_one now e id o)
unfolding expire_one
expire_one-Keeps now e id o k v =
    let bare : Engine = record e { overrides = delete id e.overrides } in
    let accounted = (account bare id now).0 in
    let r = (account bare id now).1 in
    let w = delete-Inv e id v in
    if-elim (Keeps e) (before now o.expires_at) (e, []) _ (λ _. (v, refl, tt))
      (λ _.
        if-elim (Keeps e) (r.on && untripped r) _ (accounted, [])
          (λ _. Keeps-account bare id now (trip accounted id r override_expired_reason now) (
            trip-Keeps accounted id r override_expired_reason now
              (rw (profiles-account bare id now) k) (account-Inv bare id now k w)))
          (λ _. account-Keeps bare id now k w))

settle-Keeps :
    (now : Time) (e : Engine) (id : String) (p : Profile) (r : RuntimeState)
    (reached : Option Reason)
    → Known e.profiles id
    → Mem (id, p) e.profiles
    → IsProfiled (id, p)
    → Inv e
    → Keeps e (settle now e id p r reached)
unfolding settle put_runtime
settle-Keeps now e id p r none k l f v = (v, refl, tt)
settle-Keeps now e id p r (some reason) k l f v =
    (put_runtime-Inv e id _ k v, refl, (safe_of e.profiles p id reason now l f, tt))

check_one-Keeps :
    (now : Time) (e : Engine) (id : String) (p : Profile)
    → Known e.profiles id
    → Mem (id, p) e.profiles
    → IsProfiled (id, p)
    → Inv e
    → Keeps e (check_one now e id p)
unfolding check_one
check_one-Keeps now e id p k l f v =
    let accounted = (account e id now).0 in
    let r = (account e id now).1 in
    if-elim (Keeps e) (not (untripped r)) (accounted, []) _ (λ _. account-Keeps e id now k v)
      (λ _. Keeps-account e id now _ (
        settle-Keeps now accounted id p r (limit_reached p r now) (rw (profiles-account e id now) k)
          (rw (profiles-account e id now) l) f (account-Inv e id now k v)))

-- One step after another.
Keeps-then :
    (e : Engine) (out : Engine × List WatchdogAction) (more : Engine × List WatchdogAction)
    → Keeps e out
    → Keeps out.0 more
    → Keeps e (more.0, out.1 ++ more.1)
Keeps-then e out more (v, p, a) (w, q, b) = (
  w,
  q ∙ p,
  All-append (IsSafeAction e.profiles) out.1 more.1 a
      (subst (λ ps. All (IsSafeAction ps) more.1) p b),
)

expire_overrides-Keeps :
    (now : Time) (e : Engine) (os : Map String Override)
    → All (λ b. Known e.profiles b.0) os
    → Inv e
    → Keeps e (expire_overrides now e os)
unfolding expire_overrides
expire_overrides-Keeps now e [] k v = (v, refl, tt)
expire_overrides-Keeps now e ((id, o) ∷ os) (k, ks) v =
    let first = expire_one-Keeps now e id o k v in
    Keeps-then e (expire_one now e id o) _ first (
      expire_overrides-Keeps now (expire_one now e id o).0 os
        (subst (λ ps. All (λ b. Known ps b.0) os) (sym first.1) ks) first.0)

check_profiles-Keeps :
    (now : Time) (e : Engine) (ps : Map String Profile)
    → All (λ b. Known e.profiles b.0) ps
    → All (λ b. Mem b e.profiles) ps
    → All IsProfiled ps
    → Inv e
    → Keeps e (check_profiles now e ps)
unfolding check_profiles
check_profiles-Keeps now e [] k l f v = (v, refl, tt)
check_profiles-Keeps now e ((id, p) ∷ ps) (k, ks) (l, ls) (f, fs) v =
    let first = check_one-Keeps now e id p k l f v in
    Keeps-then e (check_one now e id p) _ first (
      check_profiles-Keeps now (check_one now e id p).0 ps
        (subst (λ known. All (λ b. Known known b.0) ps) (sym first.1) ks)
        (subst (λ known. All (λ b. Mem b known) ps) (sym first.1) ls) fs first.0)

sweep-Keeps : (now : Time) (e : Engine) → Inv e → Keeps e (sweep now e)
unfolding sweep
sweep-Keeps now e v =
    let known =
      All-map (IsGranted e.profiles) (λ b. Known e.profiles b.0) e.overrides (λ b g. g.2)
        v.granted in
    let first = expire_overrides-Keeps now e e.overrides known v in
    let expired = (expire_overrides now e e.overrides).0 in
    Keeps-then e (expire_overrides now e e.overrides) (check_profiles now expired expired.profiles)
      first
      (check_profiles-Keeps now expired expired.profiles (All-Has expired.profiles)
        (All-Mem expired.profiles) first.0.profiled first.0)

pub check_watchdogs-Inv :
    (e : Engine) (ctx : Context) (now : Time) → Inv e → Inv (check_watchdogs e ctx now).0
unfolding check_watchdogs
check_watchdogs-Inv e ctx now v = elim (Bool-cases ctx.cancelled) [
  | inl gone ↦ rw gone v
  | inr live ↦ rw live (sweep-Keeps now e v).0
]

-- Every action that `CheckWatchdogs` returns of an engine with the invariant asks for the fail-safe
-- state of a valid profile that the engine has for its equipment, so hazardous equipment is only ever asked to switch
-- off; the profiles stay as they are.
pub check_watchdogs-IsSafeAction :
    (e : Engine) (ctx : Context) (now : Time) {actions : List WatchdogAction}
    → Inv e
    → (check_watchdogs e ctx now).1 ≡ ok actions
    → ((check_watchdogs e ctx now).0.profiles ≡ e.profiles) × All (IsSafeAction e.profiles) actions
unfolding check_watchdogs
check_watchdogs-IsSafeAction e ctx now v h = elim (Bool-cases ctx.cancelled) [
  | inl gone ↦ absurd (ground (arith, gone))
  | inr live ↦
      let (_, same, safe) = sweep-Keeps now e v in
      let returned : (sweep now e).1 ≡ _ = ground (arith, live) in
      (rw live same, subst (All (IsSafeAction e.profiles)) returned safe)
]
