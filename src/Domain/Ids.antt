-- ===== src/Domain/Ids.antt =====
-- internal/domain/id.go. An identity is a text; its tests walk the text's code points. Go counts
-- bytes: the two counts differ only on texts with a code point above 127, which are refused by
-- either. The random source hands over its sixteen bytes or an error.
pub mod Forms
use Prim.Native.Char.{code}
use aqua_os.Common.{
  ℕ, ◌+◌, ◌-◌, ◌/◌, ◌%◌, String, Bool, true, false, not, ◌&&◌, ◌||◌, Option, none, some, List, [],
  ◌∷◌, ◌++◌, Result, ok, err, ◌>>=◌, Check, Error, invalid_uuid, leb, eqb, if◌then◌else◌, length,
  get_elem?,
}

abbrev pub codes : String → List ℕ
codes String.[] = []
codes (String.◌∷◌ c s) = code c ∷ codes s

unfoldable pub is_hex : ℕ → Bool
is_hex c = (leb b'0' c && leb c b'9') || (leb b'a' c && leb c b'f') || (leb b'A' c && leb c b'F')

abbrev dash : ℕ
dash = b'-'

unfoldable pub dash_at : List ℕ → ℕ → Bool
dash_at v i = is_dash (get_elem? v i)
  where
    is_dash : Option ℕ → Bool
    is_dash none = false
    is_dash (some c) = eqb c dash

-- `strings.ReplaceAll(value, "-", "")`.
unfoldable pub strip : List ℕ → List ℕ
strip [] = []
strip (c ∷ v) = if eqb c dash then strip v else c ∷ strip v

-- `hex.DecodeString` succeeds: an even number of hexadecimal digits.
unfoldable pub decodes : List ℕ → Bool
unfolding is_hex
decodes [] = true
decodes (c ∷ []) = false
decodes (c ∷ d ∷ v) = is_hex c && is_hex d && decodes v

unfoldable pub has_frame : List ℕ → Bool
unfolding dash_at
has_frame v = eqb (length v) 36 && dash_at v 8 && dash_at v 13 && dash_at v 18 && dash_at v 23

-- `validateUUID`, over the text's code points.
unfoldable pub validate_codes : List ℕ → Check
unfolding has_frame strip decodes
validate_codes v =
    if not (has_frame v)
    then err invalid_uuid
    else if decodes (strip v)
    then ok tt
    else err invalid_uuid

unfoldable pub validate_uuid : String → Check
unfolding validate_codes
validate_uuid value = validate_codes (codes value)

-- `hex.Encode` of a byte, before the text that follows it.
unfoldable pub hex_digit : ℕ → ℕ
hex_digit n = if leb n 9 then b'0' + n else b'a' + (n - 10)

unfoldable pub hex_byte : ℕ → List ℕ → List ℕ
unfolding hex_digit
hex_byte b rest = hex_digit (b / 16) ∷ hex_digit (b % 16) ∷ rest

-- The sixteen bytes of an identity.
pub record Bytes : Type 0 where
  pub b0 : ℕ
  pub b1 : ℕ
  pub b2 : ℕ
  pub b3 : ℕ
  pub b4 : ℕ
  pub b5 : ℕ
  pub b6 : ℕ
  pub b7 : ℕ
  pub b8 : ℕ
  pub b9 : ℕ
  pub b10 : ℕ
  pub b11 : ℕ
  pub b12 : ℕ
  pub b13 : ℕ
  pub b14 : ℕ
  pub b15 : ℕ

-- `(v & 0x0f) | 0x40` and `(v & 0x3f) | 0x80` of a byte.
unfoldable pub version_byte : ℕ → ℕ
version_byte v = v % 16 + 64

unfoldable pub variant_byte : ℕ → ℕ
variant_byte v = v % 64 + 128

unfoldable pub last_group : Bytes → List ℕ
last_group r =
    let end = hex_byte r.b13 (hex_byte r.b14 (hex_byte r.b15 [])) in
    hex_byte r.b10 (hex_byte r.b11 (hex_byte r.b12 end))

-- The layout of `newUUID`: bytes in hexadecimal, in groups of 4, 2, 2, 2 and 6.
unfoldable pub format_uuid : Bytes → List ℕ
format_uuid r =
    let tail = last_group r in
    let fourth = hex_byte (variant_byte r.b8) (hex_byte r.b9 (dash ∷ tail)) in
    let third = hex_byte (version_byte r.b6) (hex_byte r.b7 (dash ∷ fourth)) in
    let second = hex_byte r.b4 (hex_byte r.b5 (dash ∷ third)) in
    hex_byte r.b0 (hex_byte r.b1 (hex_byte r.b2 (hex_byte r.b3 (dash ∷ second))))

unfoldable pub new_uuid : Result Bytes → Result (List ℕ)
new_uuid random = do value ← random; ok (format_uuid value)
