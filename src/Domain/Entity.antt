-- ===== src/Domain/Entity.antt =====
-- internal/domain/entity.go: capabilities and the sets that equipment and endpoints declare.
pub mod Sets
use aqua_os.Common.{
  String, Bool, true, false, ◌&&◌, List, [], ◌∷◌, ok, err, ◌>>=◌, ◌>>◌, guard, Check, Error,
  capability_required, unsupported_capability, duplicate_capability, ◌↔◌, ◌≡◌, arith, Eq, string_eq,
  ◌==◌, not, any, all, if◌then◌else◌,
}
use aqua_os.Common.Map.{Map}
use aqua_os.Domain.Measurement.{QuantityKind, QuantityUnit}

-- Go's `Capability` is a string: `other` is any text outside the declared set.
pub data Capability : Type 0 where
  observe switch variable_output command_acknowledgement reported_state power_telemetry : Capability
  other : String → Capability

unfoldable pub capability_beq : Capability → Capability → Bool
capability_beq observe observe = true
capability_beq switch switch = true
capability_beq variable_output variable_output = true
capability_beq command_acknowledgement command_acknowledgement = true
capability_beq reported_state reported_state = true
capability_beq power_telemetry power_telemetry = true
capability_beq (other s) (other t) = s == t
capability_beq _ _ = false

pub capability_beq_iff : (a b : Capability) → (capability_beq a b ≡ true) ↔ (a ≡ b)
unfolding capability_beq
capability_beq_iff observe b = ground arith
capability_beq_iff switch b = ground arith
capability_beq_iff variable_output b = ground arith
capability_beq_iff command_acknowledgement b = ground arith
capability_beq_iff reported_state b = ground arith
capability_beq_iff power_telemetry b = ground arith
capability_beq_iff (other s) (other t) = ground (arith, string_eq.beq_iff s t)
capability_beq_iff (other s) b = ground arith

instance abbrev pub capability_eq : Eq Capability
capability_eq = record { beq = capability_beq; beq_iff = capability_beq_iff }

-- `Capability.Validate`.
unfoldable pub validate : Capability → Check
validate (other s) = err unsupported_capability
validate _ = ok tt

-- The loop of `ValidateCapabilities`; `seen` holds the values met so far.
unfoldable pub validate_from : List Capability → List Capability → Check
unfolding validate capability_beq
validate_from seen [] = ok tt
validate_from seen (c ∷ cs) =
    let rest = validate_from (c ∷ seen) cs in
    do validate c; guard (not (any (capability_beq c) seen)) duplicate_capability; rest

unfoldable pub validate_capabilities : List Capability → Check
unfolding validate_from
validate_capabilities [] = err capability_required
validate_capabilities (c ∷ cs) = validate_from [] (c ∷ cs)

unfoldable pub supports_all : List Capability → List Capability → Bool
unfolding capability_beq
supports_all available required = all (λ r. any (capability_beq r) available) required

pub record Device : Type 0 where
  pub id : String
  pub name : String
  pub capabilities : List Capability
  pub metadata : Map String String

pub record Endpoint : Type 0 where
  pub id : String
  pub device_id : String
  pub name : String
  pub capabilities : List Capability

pub record Sensor : Type 0 where
  pub id : String
  pub device_id : String
  pub endpoint_id : String
  pub name : String
  pub quantity : QuantityKind
  pub units : QuantityUnit
  pub capabilities : List Capability
  pub metadata : Map String String

pub record Equipment : Type 0 where
  pub id : String
  pub device_id : String
  pub endpoint_id : String
  pub name : String
  pub capabilities : List Capability
  pub metadata : Map String String
