-- ===== src/Common/Lists.antt =====
-- Lists measured by native numbers, Boolean searches, and predicates on every member.
use Prim.Native.Nat.{ℕ, zero, suc, ◌+◌, ◌-◌}
use mathlib.Core.Path.{◌≡◌}
use mathlib.Core.Logic.{inl, inr}
use mathlib.Core.Logic.Or
use mathlib.Core.Bool.{Bool, true, false, ◌&&◌, ◌||◌, or-true, Bool-set}
use mathlib.Core.Option.{Option, none, some}
use mathlib.Core.List.{List, [], ◌∷◌, ◌++◌, Mem, mem-cons, not-mem-nil}
use native.Mathlib.Omega.{arith}
use aqua_os.Common.Tests.{Bool-cases}
use aqua_os.Common.Equality.{Eq}

module _ {ℓ} {A : Type ℓ} where
  abbrev pub length : List A → ℕ
  length [] = 0
  length (x ∷ xs) = suc (length xs)

  abbrev pub drop : ℕ → List A → List A
  drop zero xs = xs
  drop (suc n) [] = []
  drop (suc n) (x ∷ xs) = drop n xs

  abbrev pub get_elem? : List A → ℕ → Option A
  get_elem? [] i = none
  get_elem? (x ∷ xs) zero = some x
  get_elem? (x ∷ xs) (suc i) = get_elem? xs i

  abbrev pub any : (A → Bool) → List A → Bool
  any p [] = false
  any p (x ∷ xs) = p x || any p xs

  abbrev pub all : (A → Bool) → List A → Bool
  all p [] = true
  all p (x ∷ xs) = p x && all p xs

  pub length-append : (xs ys : List A) → length (xs ++ ys) ≡ length xs + length ys
  length-append [] ys = omega arith
  length-append (x ∷ xs) ys = omega (arith, length-append xs ys)

  pub length-drop : (n : ℕ) (xs : List A) → length (drop n xs) ≡ length xs - n
  length-drop zero xs = omega arith
  length-drop (suc n) [] = omega arith
  length-drop (suc n) (x ∷ xs) = omega (arith, length-drop n xs)

abbrev pub All {ℓ κ} : {A : Type ℓ} → (A → Type κ) → List A → Type κ
All P [] = Unit
All P (x ∷ xs) = P x × All P xs

module _ {ℓ} {A : Type ℓ} ⦃e : Eq A⦄ where
  -- A search for a value by its equality test finds the members.
  pub any-mem : (a : A) (xs : List A) → any (e.beq a) xs ≡ true → Mem a xs
  any-mem a [] h = cc
  any-mem a (x ∷ xs) h = elim (Bool-cases (e.beq a x)) [
    | inl hit ↦ mem-cons.1 (Or.inl ((e.beq_iff a x).0 hit))
    | inr miss ↦ mem-cons.1 (Or.inr (any-mem a xs (rw miss at h)))
  ]

  pub mem-any : (a : A) (xs : List A) → Mem a xs → any (e.beq a) xs ≡ true
  mem-any a [] m = absurd (not-mem-nil m)
  mem-any a (x ∷ xs) m =
      Or.elim (Bool-set _ _) (mem-cons.0 m) (λ q. rw ((e.beq_iff a x).1 q))
        (λ later. rw (mem-any a xs later) (or-true (e.beq a x)))

pub All-append {ℓ κ} :
    {A : Type ℓ} (P : A → Type κ) (xs ys : List A) → All P xs → All P ys → All P (xs ++ ys)
All-append P [] ys hx hy = hy
All-append P (x ∷ xs) ys hx hy = (hx.0, All-append P xs ys hx.1 hy)
