-- ===== src/State/Key.antt =====
-- internal/state/manager.go: the identity of one canonical state value.
use aqua_os.Common.{String, Bool, true, false, ◌&&◌, ◌≡◌, ◌↔◌, arith, Eq, string_eq, ◌==◌}

pub data EntityKind : Type 0 where
  sensor equipment : EntityKind
  other_entity : String → EntityKind

pub data Plane : Type 0 where
  observation desired reported : Plane
  other_plane : String → Plane

pub record Key : Type 0 where
  pub entity_kind : EntityKind
  pub entity_id : String
  pub plane : Plane
  pub attribute : String

unfoldable pub entity_kind_beq : EntityKind → EntityKind → Bool
entity_kind_beq sensor sensor = true
entity_kind_beq equipment equipment = true
entity_kind_beq (other_entity s) (other_entity t) = s == t
entity_kind_beq _ _ = false

unfoldable pub plane_beq : Plane → Plane → Bool
plane_beq observation observation = true
plane_beq desired desired = true
plane_beq reported reported = true
plane_beq (other_plane s) (other_plane t) = s == t
plane_beq _ _ = false

entity_kind_beq_iff : (a b : EntityKind) → (entity_kind_beq a b ≡ true) ↔ (a ≡ b)
unfolding entity_kind_beq
entity_kind_beq_iff sensor b = ground arith
entity_kind_beq_iff equipment b = ground arith
entity_kind_beq_iff (other_entity s) (other_entity t) = ground (arith, string_eq.beq_iff s t)
entity_kind_beq_iff (other_entity s) b = ground arith

plane_beq_iff : (a b : Plane) → (plane_beq a b ≡ true) ↔ (a ≡ b)
unfolding plane_beq
plane_beq_iff observation b = ground arith
plane_beq_iff desired b = ground arith
plane_beq_iff reported b = ground arith
plane_beq_iff (other_plane s) (other_plane t) = ground (arith, string_eq.beq_iff s t)
plane_beq_iff (other_plane s) b = ground arith

unfoldable pub key_beq : Key → Key → Bool
key_beq a b =
    entity_kind_beq a.entity_kind b.entity_kind
    && a.entity_id == b.entity_id
    && plane_beq a.plane b.plane
    && a.attribute == b.attribute

pub key_beq_iff : (a b : Key) → (key_beq a b ≡ true) ↔ (a ≡ b)
unfolding key_beq
key_beq_iff a b = ground (
  arith,
  entity_kind_beq_iff a.entity_kind b.entity_kind,
  plane_beq_iff a.plane b.plane,
  string_eq.beq_iff a.entity_id b.entity_id,
  string_eq.beq_iff a.attribute b.attribute,
)

instance abbrev pub key_eq : Eq Key
key_eq = record { beq = key_beq; beq_iff = key_beq_iff }
