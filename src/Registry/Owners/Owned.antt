-- ===== src/Registry/Owners/Owned.antt =====
-- internal/devices/registry.go: every endpoint stays owned by a device that has its capabilities,
-- and an endpoint stays as it was registered.
use aqua_os.Common.{
  String, true, false, not, Option, none, some, [], ◌∷◌, Result, ok, err, Check, Context, ◌≡◌, refl,
  sym, Bool-cases, inl, inr, if-elim, arith, All, ◌==◌, string_eq, ap, ◌∙◌, eq_iff,
}
use aqua_os.Common.Map.{
  Map, lookup, insert, delete, lookup-insert, lookup-delete, All-map, All-insert,
}
use aqua_os.Domain.Entity.{Device, Endpoint, supports_all}
use aqua_os.Events.Event.{device_registered}
use aqua_os.Registry.Keyed.{Surroundings}
use aqua_os.Registry.Keyed.Changes.{register-keeps}
use aqua_os.Registry.Devices.{
  Registry, device_kind, validate_device, register_device, orphans, update_known, update_valid,
  update_device, owns, remove_known, remove_device, validate_endpoint, store_endpoint, attach,
  attach_valid, attach_named, name_endpoint, register_endpoint, EndpointAnswer,
}

-- The endpoint's device is registered and has the endpoint's capabilities.
abbrev pub Owned : Map String Device → Endpoint → Type 0
Owned devices e =
    (d : Device) × (lookup e.device_id devices ≡ some d)
    × (supports_all d.capabilities e.capabilities ≡ true)

abbrev pub AllOwned : Registry → Type 0
AllOwned r = All (λ (b : String × Endpoint). Owned r.devices b.1) r.endpoints

same_sym : (a b : String) → (a == b) ≡ (b == a)
same_sym a b = ground (arith, eq_iff a b, eq_iff b a)

other_owner : (id owner : String) → (owner == id) ≡ false → (id == owner) ≡ false
other_owner id owner h = same_sym id owner ∙ h

none-some : {d : Device} → ◌≡◌ {A = Option Device} none (some d) → ⊥
none-some h = cc

-- A device under another identity changes nothing for an endpoint.
Owned-insert_other :
    (d : Device) (devices : Map String Device) (e : Endpoint)
    → (d.id == e.device_id) ≡ false
    → Owned devices e
    → Owned (insert d.id d devices) e
Owned-insert_other d devices e other (w, found, fits) =
    (w, rw (lookup-insert d.id e.device_id d devices, other) found, fits)

Owned-insert_self :
    (d : Device) (devices : Map String Device) (e : Endpoint)
    → (d.id == e.device_id) ≡ true
    → supports_all d.capabilities e.capabilities ≡ true
    → Owned (insert d.id d devices) e
Owned-insert_self d devices e self fits =
    (d, rw (lookup-insert d.id e.device_id d devices, self) refl, fits)

-- A new device's identity is that of no owner.
Owned-insert_new :
    (d : Device) (devices : Map String Device) (e : Endpoint)
    → lookup d.id devices ≡ none
    → Owned devices e
    → Owned (insert d.id d devices) e
Owned-insert_new d devices e fresh o = elim (Bool-cases (d.id == e.device_id)) [
  | inl same ↦
      let q = (string_eq.beq_iff d.id e.device_id).0 same in
      absurd (none-some (sym fresh ∙ (ap (λ id. lookup id devices) q ∙ o.1)))
  | inr other ↦ Owned-insert_other d devices e other o
]

pub register_device-AllOwned :
    (r : Registry) (ctx : Context) (d : Device) (fresh : Result String)
    (around : Surroundings Device)
    → AllOwned r
    → AllOwned (register_device r ctx d fresh around).0
unfolding register_device
register_device-AllOwned r ctx d fresh around owned =
    register-keeps device_kind device_registered r.devices
      (λ devices. All (λ (b : String × Endpoint). Owned devices b.1) r.endpoints) validate_device
      owned
      (λ v valid miss. All-map _ _ r.endpoints (λ b. Owned-insert_new v r.devices b.1 miss) owned)
      ctx d fresh around

Owned-update :
    (d : Device) (devices : Map String Device) (endpoints : Map String Endpoint)
    → orphans d endpoints ≡ false
    → All (λ (b : String × Endpoint). Owned devices b.1) endpoints
    → All (λ (b : String × Endpoint). Owned (insert d.id d devices) b.1) endpoints
unfolding orphans
Owned-update d devices [] h owned = tt
Owned-update d devices ((id, e) ∷ es) h (o, os) = (
  elim (Bool-cases (d.id == e.device_id)) [
    | inl same ↦ Owned-insert_self d devices e same (ground (arith, h, same_sym d.id e.device_id))
    | inr other ↦ Owned-insert_other d devices e other o
  ],
  Owned-update d devices es (ground (arith, h)) os,
)

update_known-AllOwned :
    (r : Registry) (d : Device) (around : Surroundings Device) (o : Option Device)
    → AllOwned r
    → AllOwned (update_known r d around o).0
unfolding update_known
update_known-AllOwned r d around none owned = owned
update_known-AllOwned r d around (some old) owned =
    if-elim (λ (p : Registry × Check). AllOwned p.0) (orphans d r.endpoints) _ _ (λ _. owned)
      (λ fine. Owned-update d r.devices r.endpoints fine owned)

update_valid-AllOwned :
    (r : Registry) (d : Device) (around : Surroundings Device) (c : Check)
    → AllOwned r
    → AllOwned (update_valid r d around c).0
unfolding update_valid
update_valid-AllOwned r d around (err x) owned = owned
update_valid-AllOwned r d around (ok u) owned =
    update_known-AllOwned r d around (lookup d.id r.devices) owned

pub update_device-AllOwned :
    (r : Registry) (ctx : Context) (d : Device) (around : Surroundings Device)
    → AllOwned r
    → AllOwned (update_device r ctx d around).0
unfolding update_device
update_device-AllOwned r ctx d around owned =
    if-elim (λ (p : Registry × Check). AllOwned p.0) ctx.cancelled _ _ (λ _. owned)
      (λ _. update_valid-AllOwned r d around (validate_device d) owned)

Owned-delete :
    (id : String) (devices : Map String Device) (endpoints : Map String Endpoint)
    → owns id endpoints ≡ false
    → All (λ (b : String × Endpoint). Owned devices b.1) endpoints
    → All (λ (b : String × Endpoint). Owned (delete id devices) b.1) endpoints
unfolding owns
Owned-delete id devices [] h owned = tt
Owned-delete id devices ((j, e) ∷ es) h ((d, found, fits), os) = (
  (
    d,
    rw (lookup-delete id e.device_id devices, other_owner id e.device_id (ground (arith, h))) found,
    fits,
  ),
  Owned-delete id devices es (ground (arith, h)) os,
)

remove_known-AllOwned :
    (r : Registry) (id : String) (around : Surroundings String) (o : Option Device)
    → AllOwned r
    → AllOwned (remove_known r id around o).0
unfolding remove_known
remove_known-AllOwned r id around none owned = owned
remove_known-AllOwned r id around (some old) owned =
    if-elim (λ (p : Registry × Check). AllOwned p.0) (owns id r.endpoints) _ _ (λ _. owned)
      (λ free. Owned-delete id r.devices r.endpoints free owned)

pub remove_device-AllOwned :
    (r : Registry) (ctx : Context) (id : String) (around : Surroundings String)
    → AllOwned r
    → AllOwned (remove_device r ctx id around).0
unfolding remove_device
remove_device-AllOwned r ctx id around owned =
    if-elim (λ (p : Registry × Check). AllOwned p.0) ctx.cancelled _ _ (λ _. owned)
      (λ _. remove_known-AllOwned r id around (lookup id r.devices) owned)

-- A property of registries that the old one has, and the old one with an owned new endpoint.
module _ (r : Registry) (P : Registry → Type 0) (kept : P r)
    (added : (e : Endpoint)
      → validate_endpoint e ≡ ok tt
      → lookup e.id r.endpoints ≡ none
      → Owned r.devices e
      → P (record r { endpoints = insert e.id e r.endpoints })) where
  store_endpoint-keeps :
      (e : Endpoint) (o : Option Endpoint) (d : Device)
      → validate_endpoint e ≡ ok tt
      → lookup e.id r.endpoints ≡ o
      → lookup e.device_id r.devices ≡ some d
      → P (store_endpoint r e o d).0
  unfolding store_endpoint
  store_endpoint-keeps e (some old) d valid miss owner = kept
  store_endpoint-keeps e none d valid miss owner =
      if-elim (λ (p : Registry × EndpointAnswer). P p.0)
        (not (supports_all d.capabilities e.capabilities)) _ _ (λ _. kept)
        (λ fits. added e valid miss (d, owner, ground (arith, fits)))

  attach-keeps :
      (e : Endpoint) (o : Option Device)
      → validate_endpoint e ≡ ok tt
      → lookup e.device_id r.devices ≡ o
      → P (attach r e o).0
  unfolding attach
  attach-keeps e none valid owner = kept
  attach-keeps e (some d) valid owner =
      store_endpoint-keeps e (lookup e.id r.endpoints) d valid refl owner

  attach_valid-keeps :
      (e : Endpoint) (c : Check) → validate_endpoint e ≡ c → P (attach_valid r e c).0
  unfolding attach_valid
  attach_valid-keeps e (err x) valid = kept
  attach_valid-keeps e (ok u) valid = attach-keeps e (lookup e.device_id r.devices) valid refl

  attach_named-keeps : (a : Result Endpoint) → P (attach_named r a).0
  unfolding attach_named
  attach_named-keeps (err x) = kept
  attach_named-keeps (ok e) = attach_valid-keeps e (validate_endpoint e) refl

  pub register_endpoint-keeps :
      (ctx : Context) (e : Endpoint) (fresh : Result String) → P (register_endpoint r ctx e fresh).0
  unfolding register_endpoint
  register_endpoint-keeps ctx e fresh =
      if-elim (λ (p : Registry × EndpointAnswer). P p.0) ctx.cancelled _ _ (λ _. kept)
        (λ _. attach_named-keeps (name_endpoint e fresh))

pub register_endpoint-AllOwned :
    (r : Registry) (ctx : Context) (e : Endpoint) (fresh : Result String)
    → AllOwned r
    → AllOwned (register_endpoint r ctx e fresh).0
register_endpoint-AllOwned r ctx e fresh owned =
    register_endpoint-keeps r AllOwned owned
      (λ v valid miss owner.
        All-insert (λ (b : String × Endpoint). Owned r.devices b.1) v.id v r.endpoints owner owned)
      ctx e fresh

-- The calls about devices leave the endpoints.
pub update_device-endpoints :
    (r : Registry) (ctx : Context) (d : Device) (around : Surroundings Device)
    → (update_device r ctx d around).0.endpoints ≡ r.endpoints
unfolding update_device update_valid update_known
update_device-endpoints r ctx d around = ground arith

pub remove_device-endpoints :
    (r : Registry) (ctx : Context) (id : String) (around : Surroundings String)
    → (remove_device r ctx id around).0.endpoints ≡ r.endpoints
unfolding remove_device remove_known
remove_device-endpoints r ctx id around = ground arith

-- An endpoint stays as it is when another one is registered.
pub register_endpoint-kept :
    (r : Registry) (ctx : Context) (e : Endpoint) (fresh : Result String) (id : String)
    (old : Endpoint)
    → lookup id r.endpoints ≡ some old
    → lookup id (register_endpoint r ctx e fresh).0.endpoints ≡ some old
register_endpoint-kept r ctx e fresh id old found =
    register_endpoint-keeps r (λ s. lookup id s.endpoints ≡ some old) found
      (λ v valid miss owner.
        rw (lookup-insert v.id id v r.endpoints) (ground (arith, eq_iff v.id id, found, miss)))
      ctx e fresh
