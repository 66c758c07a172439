-- ===== src/State/Snapshot/Order.antt =====
-- internal/state/manager.go: the order of a snapshot.
use aqua_os.Common.{◌≡◌, false, List, [], ◌∷◌, All, Time, Bool-cases, inl, inr}
use aqua_os.Common.Map.{Map, All-map}
use aqua_os.Domain.Ids.{codes}
use aqua_os.State.Key.{Key}
use aqua_os.State.Entry.{Entry}
use aqua_os.Domain.Sorting.{codes_before-asym, codes_before_trans}
use aqua_os.State.Snapshot.{key_before, place, read_at, collect, key_string}

-- No later entry comes before an earlier one.
abbrev pub IsOrdered : List Entry → Type 0
IsOrdered [] = Unit
IsOrdered (v ∷ vs) = All (λ (w : Entry). key_before w v ≡ false) vs × IsOrdered vs

place-All : (P : Entry → Type 0) (v : Entry) (vs : List Entry) → P v → All P vs → All P (place v vs)
unfolding place
place-All P v [] h a = (h, tt)
place-All P v (w ∷ ws) h a = elim (Bool-cases (key_before w v)) [
  | inl later ↦ rw later (a.0, place-All P v ws h a.1)
  | inr first ↦ rw first (h, a)
]

place-IsOrdered : (v : Entry) (vs : List Entry) → IsOrdered vs → IsOrdered (place v vs)
unfolding place key_before
place-IsOrdered v [] o = (tt, tt)
place-IsOrdered v (w ∷ ws) (low, o) = elim (Bool-cases (key_before w v)) [
  | inl later ↦ rw later (
    place-All (λ (u : Entry). key_before u w ≡ false) v ws
        (codes_before-asym (codes (key_string w.key)) (codes (key_string v.key)) later) low,
    place-IsOrdered v ws o,
  )
  | inr first ↦ rw first (
    (
      first,
      All-map (λ (u : Entry). key_before u w ≡ false) (λ (u : Entry). key_before u v ≡ false) ws
          (λ u h.
            codes_before_trans (codes (key_string u.key)) (codes (key_string w.key))
              (codes (key_string v.key)) h first)
          low,
    ),
    (low, o),
  )
]

pub collect-IsOrdered : (now : Time) (values : Map Key Entry) → IsOrdered (collect now values)
unfolding collect
collect-IsOrdered now [] = tt
collect-IsOrdered now ((k, v) ∷ values) =
    place-IsOrdered (read_at now v) (collect now values) (collect-IsOrdered now values)
