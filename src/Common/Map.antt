-- ===== src/Common/Map.antt =====
-- Go's maps as association lists: the first binding of a key counts, a write replaces it in
-- place, and `delete` removes every binding.
use mathlib.Core.Path.{◌≡◌, refl}
use mathlib.Core.Option.{Option, none, some}
use mathlib.Core.List.{List, [], ◌∷◌, Mem, mem-cons, mem-cons_self}
use mathlib.Core.Logic.Or
use native.Mathlib.Omega.{arith}
use mathlib.Core.Path.{subst}
use mathlib.Core.Logic.{inl, inr}
use aqua_os.Common.Tests.{if◌then◌else◌, Bool-cases}
use aqua_os.Common.Lists.{All}
use aqua_os.Common.Equality.{Eq, ◌==◌}

abbrev pub Map {ℓ κ} : Type ℓ → Type κ → Type (ℓ ⊔ κ)
Map K V = List (K × V)

module _ {ℓ κ} {K : Type ℓ} {V : Type κ} ⦃e : Eq K⦄ where
  unfoldable pub lookup : K → Map K V → Option V
  lookup k [] = none
  lookup k ((j, v) ∷ m) = if j == k then some v else lookup k m

  unfoldable pub delete : K → Map K V → Map K V
  delete k [] = []
  delete k ((j, w) ∷ m) = if j == k then delete k m else (j, w) ∷ delete k m

  pub lookup-delete :
      (k j : K) (m : Map K V) → lookup j (delete k m) ≡ (if k == j then none else lookup j m)
  unfolding lookup delete
  lookup-delete k j [] = ground arith
  lookup-delete k j ((i, w) ∷ m) =
      ground (arith, e.beq_iff k j, e.beq_iff i k, e.beq_iff i j, lookup-delete k j m)

  unfoldable pub insert : K → V → Map K V → Map K V
  insert key new [] = (key, new) ∷ []
  insert key new ((j, old) ∷ m) = if j == key then (key, new) ∷ m else (j, old) ∷ insert key new m

  pub lookup-insert :
      (key j : K) (new : V) (m : Map K V)
      → lookup j (insert key new m) ≡ (if key == j then some new else lookup j m)
  unfolding lookup insert
  lookup-insert key j new [] = refl
  lookup-insert key j new ((i, w) ∷ m) =
      ground (arith, e.beq_iff key j, e.beq_iff i key, e.beq_iff i j, lookup-insert key j new m)

pub All-map {ℓ μ ν} :
    {A : Type ℓ} (P : A → Type μ) (Q : A → Type ν) (xs : List A)
    → ((a : A) → P a → Q a)
    → All P xs
    → All Q xs
All-map P Q [] f a = tt
All-map P Q (x ∷ xs) f a = (f x a.0, All-map P Q xs f a.1)

pub All-Mem {ℓ} : {A : Type ℓ} (xs : List A) → All (λ a. Mem a xs) xs
All-Mem [] = tt
All-Mem (x ∷ xs) =
    (mem-cons_self, All-map (λ a. Mem a xs) _ xs (λ a m. mem-cons.1 (Or.inr m)) (All-Mem xs))

pair_path {ℓ κ} :
    {A : Type ℓ} {B : Type κ} {a c : A} {b d : B} → a ≡ c → b ≡ d → ◌≡◌ {A = A × B} (a, b) (c, d)
pair_path p q = λ i. (p i, q i)

-- A property of every binding.
module _ {ℓ κ} {K : Type ℓ} {V : Type κ} ⦃e : Eq K⦄ where
  pub All-insert {μ} :
      (P : K × V → Type μ) (k : K) (v : V) (m : Map K V) → P (k, v) → All P m → All P (insert k v m)
  unfolding insert
  All-insert P k v [] h a = (h, tt)
  All-insert P k v ((j, w) ∷ m) h a = elim (Bool-cases (j == k)) [
    | inl hit ↦ rw hit (h, a.1)
    | inr miss ↦ rw miss (a.0, All-insert P k v m h a.1)
  ]

  pub All-delete {μ} : (P : K × V → Type μ) (k : K) (m : Map K V) → All P m → All P (delete k m)
  unfolding delete
  All-delete P k [] a = tt
  All-delete P k ((j, w) ∷ m) a = elim (Bool-cases (j == k)) [
    | inl hit ↦ rw hit (All-delete P k m a.1)
    | inr miss ↦ rw miss (a.0, All-delete P k m a.1)
  ]

  pub All-lookup {μ} :
      (P : K × V → Type μ) (k : K) (v : V) (m : Map K V) → All P m → lookup k m ≡ some v → P (k, v)
  unfolding lookup
  All-lookup P k v [] a h = cc
  All-lookup P k v ((j, w) ∷ m) a h = elim (Bool-cases (j == k)) [
    | inl hit ↦
        subst (λ (b : K × V). P b) (pair_path ((e.beq_iff j k).0 hit) (ground (arith, hit))) a.0
    | inr miss ↦ All-lookup P k v m a.1 (rw miss at h)
  ]

-- Every key of a map is found in it.
module _ {ℓ κ} {K : Type ℓ} {V : Type κ} ⦃e : Eq K⦄ where
  abbrev pub Has : Map K V → K → Type κ
  Has m k = (v : V) × (lookup k m ≡ some v)

  Has-cons : (k j : K) (w : V) (m : Map K V) → Has m k → Has ((j, w) ∷ m) k
  unfolding lookup
  Has-cons k j w m (v, h) = elim (Bool-cases (j == k)) [
    | inl hit ↦ (w, rw hit)
    | inr miss ↦ (v, rw miss h)
  ]

  Has-head : (k : K) (w : V) (m : Map K V) → Has ((k, w) ∷ m) k
  unfolding lookup
  Has-head k w m = (w, rw ((e.beq_iff k k).1 refl))

  pub All-Has : (m : Map K V) → All (λ b. Has m b.0) m
  All-Has [] = tt
  All-Has ((j, w) ∷ m) =
      (Has-head j w m, All-map (λ b. Has m b.0) _ m (λ b h. Has-cons b.0 j w m h) (All-Has m))

  pub Has-insert : (k j : K) (v : V) (m : Map K V) → Has m j → Has (insert k v m) j
  Has-insert k j v m (w, h) = elim (Bool-cases (k == j)) [
    | inl hit ↦ (v, rw (lookup-insert k j v m, hit))
    | inr miss ↦ (w, rw (lookup-insert k j v m, miss) h)
  ]

  pub Has-insert_self : (k : K) (v : V) (m : Map K V) → Has (insert k v m) k
  Has-insert_self k v m = (v, rw (lookup-insert k k v m, (e.beq_iff k k).1 refl))
