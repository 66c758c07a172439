-- ===== src/Domain/Value/Shape.antt =====
-- internal/domain/value.go: the shapes that `Value.Validate` accepts.
use aqua_os.Common.{String, Bool, ◌≡◌, refl, ◌⊎◌, inl, inr, ok, arith, ◌↔◌, Option, none, some}
use aqua_os.Domain.Measurement.{Quantity, validate_quantity}
use aqua_os.Domain.Value.{
  Value, ValueKind, quantity_kind, boolean_kind, text_kind, new_quantity_value, new_boolean_value,
  new_text_value, validate_value,
}

-- The values that the three constructors make.
abbrev pub IsScalar : Value → Type 0
IsScalar v =
    ((q : Quantity) × (v ≡ new_quantity_value q) × (validate_quantity q ≡ ok tt))
    ⊎ ((b : Bool) × (v ≡ new_boolean_value b))
    ⊎ ((t : String) × (v ≡ new_text_value t))

IsScalar-of :
    (k : ValueKind) (q : Option Quantity) (b : Option Bool) (t : Option String)
    → let v : Value = record { kind = k; quantity = q; boolean = b; text = t } in
      validate_value v ≡ ok tt → IsScalar v
unfolding validate_value new_quantity_value new_boolean_value new_text_value
IsScalar-of quantity_kind (some q) none none h = inl (q, refl, h)
IsScalar-of boolean_kind none (some b) none h = inr (inl (b, refl))
IsScalar-of text_kind none none (some t) h = inr (inr (t, refl))
IsScalar-of k q b t h = ground arith

IsScalar-validate : (v : Value) → IsScalar v → validate_value v ≡ ok tt
unfolding validate_value new_quantity_value new_boolean_value new_text_value
IsScalar-validate v (inl (q, e, h)) = rw e h
IsScalar-validate v (inr (inl (b, e))) = rw e refl
IsScalar-validate v (inr (inr (t, e))) = rw e refl

-- `Value.Validate` accepts exactly what the three constructors make: one member is present, the one
-- that the kind names, and a quantity is itself valid.
pub validate_value_iff : (v : Value) → (validate_value v ≡ ok tt) ↔ IsScalar v
validate_value_iff v = (IsScalar-of v.kind v.quantity v.boolean v.text, IsScalar-validate v)
