-- ===== src/Domain/Sorting.antt =====
-- Go's order of texts, and `sort.Slice` by a text as an insertion sort.
use mathlib.Core.List.{Perm}
use mathlib.Core.List.Perm
use aqua_os.Common.{
  ℕ, String, ◌≡◌, refl, Bool, true, false, List, [], ◌∷◌, arith, All, Bool-cases, inl, inr, ltb,
  if◌then◌else◌,
}
use aqua_os.Common.Map.{All-map}
use aqua_os.Domain.Ids.{codes}

-- `a < b` on texts, by code points.
unfoldable pub codes_before : List ℕ → List ℕ → Bool
codes_before xs [] = false
codes_before [] (y ∷ ys) = true
codes_before (x ∷ xs) (y ∷ ys) =
    if ltb x y then true else if ltb y x then false else codes_before xs ys

pub codes_before-asym : (xs ys : List ℕ) → codes_before xs ys ≡ true → codes_before ys xs ≡ false
unfolding codes_before
codes_before-asym xs [] h = cc
codes_before-asym [] (y ∷ ys) h = refl
codes_before-asym (x ∷ xs) (y ∷ ys) h = ground (arith, codes_before-asym xs ys)

-- The order is negatively transitive.
pub codes_before_trans :
    (xs ys zs : List ℕ)
    → codes_before xs ys ≡ false
    → codes_before ys zs ≡ false
    → codes_before xs zs ≡ false
unfolding codes_before
codes_before_trans xs ys [] h k = refl
codes_before_trans [] [] (z ∷ zs) h k = k
codes_before_trans [] (y ∷ ys) (z ∷ zs) h k = cc
codes_before_trans (x ∷ xs) [] (z ∷ zs) h k = cc
codes_before_trans (x ∷ xs) (y ∷ ys) (z ∷ zs) h k = ground (arith, codes_before_trans xs ys zs)

module _ {A : Type 0} (text : A → String) where
  abbrev text_before : A → A → Bool
  text_before a b = codes_before (codes (text a)) (codes (text b))

  unfoldable pub insert_by : A → List A → List A
  insert_by v [] = v ∷ []
  insert_by v (w ∷ ws) =
      let rest = insert_by v ws in if text_before w v then w ∷ rest else v ∷ w ∷ ws

  unfoldable pub sort_by : List A → List A
  unfolding insert_by
  sort_by [] = []
  sort_by (v ∷ vs) = insert_by v (sort_by vs)

  -- No later member comes before an earlier one.
  abbrev pub IsSorted : List A → Type 0
  IsSorted [] = Unit
  IsSorted (v ∷ vs) = All (λ (w : A). text_before w v ≡ false) vs × IsSorted vs

  insert_by-All : (P : A → Type 0) (v : A) (vs : List A) → P v → All P vs → All P (insert_by v vs)
  unfolding insert_by
  insert_by-All P v [] h a = (h, tt)
  insert_by-All P v (w ∷ ws) h a = elim (Bool-cases (text_before w v)) [
    | inl later ↦ rw later (a.0, insert_by-All P v ws h a.1)
    | inr first ↦ rw first (h, a)
  ]

  insert_by-IsSorted : (v : A) (vs : List A) → IsSorted vs → IsSorted (insert_by v vs)
  unfolding insert_by
  insert_by-IsSorted v [] o = (tt, tt)
  insert_by-IsSorted v (w ∷ ws) (low, o) = elim (Bool-cases (text_before w v)) [
    | inl later ↦ rw later (
      insert_by-All (λ (u : A). text_before u w ≡ false) v ws
          (codes_before-asym (codes (text w)) (codes (text v)) later) low,
      insert_by-IsSorted v ws o,
    )
    | inr first ↦ rw first (
      (
        first,
        All-map (λ (u : A). text_before u w ≡ false) (λ (u : A). text_before u v ≡ false) ws
            (λ u h. codes_before_trans (codes (text u)) (codes (text w)) (codes (text v)) h first)
            low,
      ),
      (low, o),
    )
  ]

  insert_by-Perm : (v : A) (vs : List A) → Perm (insert_by v vs) (v ∷ vs)
  unfolding insert_by
  insert_by-Perm v [] = Perm.refl (v ∷ [])
  insert_by-Perm v (w ∷ ws) = elim (Bool-cases (text_before w v)) [
    | inl later ↦ rw later (Perm.trans (Perm.cons w (insert_by-Perm v ws)) (Perm.swap v w ws))
    | inr first ↦ rw first (Perm.refl (v ∷ w ∷ ws))
  ]

  pub sort_by-IsSorted : (vs : List A) → IsSorted (sort_by vs)
  unfolding sort_by
  sort_by-IsSorted [] = tt
  sort_by-IsSorted (v ∷ vs) = insert_by-IsSorted v (sort_by vs) (sort_by-IsSorted vs)

  pub sort_by-Perm : (vs : List A) → Perm (sort_by vs) vs
  unfolding sort_by
  sort_by-Perm [] = Perm.refl []
  sort_by-Perm (v ∷ vs) = Perm.trans (insert_by-Perm v (sort_by vs)) (Perm.cons v (sort_by-Perm vs))
