-- ===== src/Domain/Value.antt =====
-- internal/domain/value.go: the canonical scalar, with one member for each kind.
pub mod Shape
use aqua_os.Common.{
  ℕ, ◌+◌, String, Bool, Option, none, some, ok, err, ◌>>=◌, ◌>>◌, guard, Check, Error,
  value_member_count, value_member_missing, unsupported_value_kind, eqb, ◌≡◌, arith, ◌⊎◌, ◌↔◌,
}
use aqua_os.Domain.Measurement.{Quantity, validate_quantity}

pub data ValueKind : Type 0 where
  quantity_kind boolean_kind text_kind : ValueKind
  other_kind : String → ValueKind

pub record Value : Type 0 where
  pub kind : ValueKind
  pub quantity : Option Quantity
  pub boolean : Option Bool
  pub text : Option String

unfoldable pub new_quantity_value : Quantity → Value
new_quantity_value q = record {
  kind = quantity_kind;
  quantity = some q;
  boolean = none;
  text = none;
}

unfoldable pub new_boolean_value : Bool → Value
new_boolean_value b = record { kind = boolean_kind; quantity = none; boolean = some b; text = none }

unfoldable pub new_text_value : String → Value
new_text_value t = record { kind = text_kind; quantity = none; boolean = none; text = some t }

abbrev present {ℓ} : {A : Type ℓ} → Option A → ℕ
present none = 0
present (some a) = 1

abbrev required {ℓ} : {A : Type ℓ} → Option A → Check
required none = err value_member_missing
required (some a) = ok tt

-- The `switch` of `Value.Validate`.
unfoldable pub validate_member : ValueKind → Value → Check
validate_member quantity_kind v = elim v.quantity [
  | none ↦ err value_member_missing
  | some q ↦ validate_quantity q
]
validate_member boolean_kind v = required v.boolean
validate_member text_kind v = required v.text
validate_member (other_kind s) v = err unsupported_value_kind

-- `Value.Validate`.
unfoldable pub validate_value : Value → Check
unfolding validate_member
validate_value v = do
  guard (eqb (present v.quantity + present v.boolean + present v.text) 1) value_member_count
  validate_member v.kind v
