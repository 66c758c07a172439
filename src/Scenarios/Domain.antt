-- ===== src/Scenarios/Domain.antt =====
-- Identities, capabilities and values.
use aqua_os.Common.{
  ℕ, ◌≡◌, refl, true, some, List, [], ◌∷◌, ok, err, arith, invalid_uuid, duplicate_capability,
  get_elem?,
}
use aqua_os.Domain.Ids.{
  Bytes, is_hex, dash_at, strip, decodes, has_frame, validate_codes, validate_uuid, new_uuid,
}
use aqua_os.Domain.Ids.Forms.{Octets, is_variant, new_uuid-validate}
use aqua_os.Domain.Entity.{switch, validate, validate_from, validate_capabilities, capability_beq}
use aqua_os.Domain.Entity.Sets.{validate_capabilities_iff}
use mathlib.Core.List.{Nodup}
use aqua_os.Scenarios.Data.{heater_id, controls}

heater_id_valid : validate_uuid heater_id ≡ ok tt
unfolding validate_uuid validate_codes has_frame strip decodes is_hex dash_at
heater_id_valid = refl

no_id_invalid : validate_uuid "" ≡ err invalid_uuid
unfolding validate_uuid validate_codes has_frame strip decodes is_hex dash_at
no_id_invalid = refl

-- The dashes anywhere are left out before the digits are read.
dashes_valid : validate_uuid "------------------------------------" ≡ ok tt
unfolding validate_uuid validate_codes has_frame strip decodes is_hex dash_at
dashes_valid = refl

abbrev sample : Bytes
sample = record {
  b0 = 0;
  b1 = 255;
  b2 = 17;
  b3 = 34;
  b4 = 51;
  b5 = 68;
  b6 = 85;
  b7 = 102;
  b8 = 119;
  b9 = 136;
  b10 = 153;
  b11 = 170;
  b12 = 187;
  b13 = 204;
  b14 = 221;
  b15 = 238;
}

sample-Octets : Octets sample
sample-Octets = ground arith

new_uuid-validate_example :
    (id : List ℕ) × (new_uuid (ok sample) ≡ ok id)
    × (validate_codes id ≡ ok tt)
    × (get_elem? id 14 ≡ some b'4')
    × (c : ℕ) × (get_elem? id 19 ≡ some c)
    × (is_variant c ≡ true)
new_uuid-validate_example = new_uuid-validate sample sample-Octets

repeated : validate_capabilities (switch ∷ switch ∷ []) ≡ err duplicate_capability
unfolding validate_capabilities validate_from validate capability_beq
repeated = refl

validate_capabilities_iff_example : Nodup controls
unfolding validate_capabilities validate_from validate capability_beq
validate_capabilities_iff_example = ((validate_capabilities_iff controls).0 refl).2
