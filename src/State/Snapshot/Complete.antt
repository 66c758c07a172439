-- ===== src/State/Snapshot/Complete.antt =====
-- internal/state/manager.go: what a snapshot contains.
use mathlib.Core.List.{Perm}
use mathlib.Core.List.Perm
use aqua_os.Common.{List, [], ◌∷◌, map, Time, Bool-cases, inl, inr}
use aqua_os.Common.Map.{Map}
use aqua_os.State.Key.{Key}
use aqua_os.State.Entry.{Entry}
use aqua_os.State.Snapshot.{key_before, place, read_at, collect}

place-Perm : (v : Entry) (vs : List Entry) → Perm (place v vs) (v ∷ vs)
unfolding place
place-Perm v [] = Perm.refl (v ∷ [])
place-Perm v (w ∷ ws) = elim (Bool-cases (key_before w v)) [
  | inl later ↦ rw later (Perm.trans (Perm.cons w (place-Perm v ws)) (Perm.swap v w ws))
  | inr first ↦ rw first (Perm.refl (v ∷ w ∷ ws))
]

-- The entries as an instant shows them, in the map's order.
abbrev pub shown : Time → Map Key Entry → List Entry
shown now values = map (λ (b : Key × Entry). read_at now b.1) values

pub collect-Perm :
    (now : Time) (values : Map Key Entry) → Perm (collect now values) (shown now values)
unfolding collect
collect-Perm now [] = Perm.refl []
collect-Perm now ((k, v) ∷ values) =
    Perm.trans (place-Perm (read_at now v) (collect now values))
      (Perm.cons (read_at now v) (collect-Perm now values))
