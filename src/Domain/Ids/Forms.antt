-- ===== src/Domain/Ids/Forms.antt =====
-- Which texts are identities: those made by `newUUID`, and exactly those of the checked form.
use aqua_os.Common.{
  ℕ, ◌/◌, ◌%◌, ◌<◌, ◌≡◌, refl, Bool, true, false, ◌||◌, List, [], ◌∷◌, ok, ap, arith, eqb,
  get_elem?, some,
}
use aqua_os.Domain.Ids.{
  is_hex, strip, decodes, has_frame, validate_codes, hex_digit, hex_byte, Bytes, format_uuid,
  last_group, new_uuid, version_byte, variant_byte,
}

is_hex-hex_digit : (n : ℕ) → n < 16 → is_hex (hex_digit n) ≡ true
unfolding is_hex hex_digit
is_hex-hex_digit n h = ground arith

not_dash-hex_digit : (n : ℕ) → eqb (hex_digit n) b'-' ≡ false
unfolding hex_digit
not_dash-hex_digit n = ground arith

strip-hex_byte : (b : ℕ) (v : List ℕ) → strip (hex_byte b v) ≡ hex_byte b (strip v)
unfolding strip hex_byte
strip-hex_byte b v = rw (not_dash-hex_digit (b / 16), not_dash-hex_digit (b % 16))

decodes-hex_byte : (b : ℕ) (v : List ℕ) → b < 256 → decodes (hex_byte b v) ≡ decodes v
unfolding decodes hex_byte
decodes-hex_byte b v h =
    rw (is_hex-hex_digit (b / 16) (omega arith), is_hex-hex_digit (b % 16) (omega arith))

-- One of `8 9 a b`.
abbrev pub is_variant : ℕ → Bool
is_variant c = eqb c b'8' || eqb c b'9' || eqb c b'a' || eqb c b'b'

-- Sixteen bytes.
abbrev pub Octets : Bytes → Type 0
Octets r =
    (r.b0 < 256)
    × (r.b1 < 256)
    × (r.b2 < 256)
    × (r.b3 < 256)
    × (r.b4 < 256)
    × (r.b5 < 256)
    × (r.b6 < 256)
    × (r.b7 < 256)
    × (r.b8 < 256)
    × (r.b9 < 256)
    × (r.b10 < 256)
    × (r.b11 < 256)
    × (r.b12 < 256)
    × (r.b13 < 256)
    × (r.b14 < 256)
    × (r.b15 < 256)

-- A text that decodes once its dashes are gone.
abbrev Decodes : List ℕ → Type 0
Decodes v = decodes (strip v) ≡ true

Decodes-hex_byte : (b : ℕ) (v : List ℕ) → b < 256 → Decodes v → Decodes (hex_byte b v)
Decodes-hex_byte b v h d = rw (strip-hex_byte b v, decodes-hex_byte b (strip v) h) d

Decodes-dash : (v : List ℕ) → Decodes v → Decodes (b'-' ∷ v)
unfolding strip
Decodes-dash v d = d

Decodes-nil : Decodes []
unfolding strip decodes
Decodes-nil = refl

ruleset decoding = (Decodes-hex_byte, Decodes-dash, Decodes-nil)

Decodes-last_group : (r : Bytes) → Octets r → Decodes (last_group r)
unfolding last_group
Decodes-last_group r (_, _, _, _, _, _, _, _, _, _, h10, h11, h12, h13, h14, h15) =
    search (decoding, h10, h11, h12, h13, h14, h15) depth 12

below_version : (v : ℕ) → version_byte v < 256
unfolding version_byte
below_version v = omega arith

below_variant : (v : ℕ) → variant_byte v < 256
unfolding variant_byte
below_variant v = omega arith

Decodes-format_uuid : (r : Bytes) → Octets r → Decodes (format_uuid r)
unfolding format_uuid
Decodes-format_uuid r o =
    search (decoding, Decodes-last_group r o, below_version, below_variant, o) depth 26

has_frame-format_uuid : (r : Bytes) → has_frame (format_uuid r) ≡ true
unfolding has_frame format_uuid last_group hex_byte
has_frame-format_uuid r = refl

validate-format_uuid : (r : Bytes) → Octets r → validate_codes (format_uuid r) ≡ ok tt
unfolding validate_codes
validate-format_uuid r o = ground (arith, has_frame-format_uuid r, Decodes-format_uuid r o)

version-digit : (v : ℕ) → hex_digit (version_byte v / 16) ≡ b'4'
unfolding hex_digit version_byte
version-digit v = ground arith

variant-digit : (v : ℕ) → is_variant (hex_digit (variant_byte v / 16)) ≡ true
unfolding hex_digit variant_byte
variant-digit v = ground arith

format_uuid-version : (r : Bytes) → get_elem? (format_uuid r) 14 ≡ some b'4'
unfolding format_uuid last_group hex_byte
format_uuid-version r = ap some (version-digit r.b6)

format_uuid-variant :
    (r : Bytes) → get_elem? (format_uuid r) 19 ≡ some (hex_digit (variant_byte r.b8 / 16))
unfolding format_uuid last_group hex_byte
format_uuid-variant r = refl

-- Every identity that `newUUID` makes of sixteen bytes passes `validateUUID`, and has the version
-- digit 4 and a variant digit from 8, 9, a and b.
pub new_uuid-validate :
    (r : Bytes)
    → Octets r
    → (id : List ℕ) × (new_uuid (ok r) ≡ ok id)
      × (validate_codes id ≡ ok tt)
      × (get_elem? id 14 ≡ some b'4')
      × (c : ℕ) × (get_elem? id 19 ≡ some c)
      × (is_variant c ≡ true)
unfolding new_uuid
new_uuid-validate r o = (
  format_uuid r,
  refl,
  validate-format_uuid r o,
  format_uuid-version r,
  hex_digit (variant_byte r.b8 / 16),
  format_uuid-variant r,
  variant-digit r.b8,
)
