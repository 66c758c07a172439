-- ===== src/State/Manager/Reads.antt =====
-- internal/state/manager.go: what readers get after a `Set`, and from `Snapshot`.
use mathlib.Core.List.{Perm}
use aqua_os.Common.{
  ◌≡◌, refl, sym, false, ok, arith, Check, Context, Time, Bool-cases, inl, inr, if◌then◌else◌,
}
use aqua_os.Common.Map.{insert, lookup-insert}
use aqua_os.State.Key.{Key, key_eq}
use aqua_os.State.Entry.{Entry}
use aqua_os.State.Snapshot.{Snapshot, read_at, validate_entry}
use aqua_os.State.Snapshot.Order.{IsOrdered, collect-IsOrdered}
use aqua_os.State.Snapshot.Complete.{shown, collect-Perm}
use aqua_os.State.Manager.{Manager, announce, revised, set_valid, set, get, snapshot, snapshot_of}

-- The conditions of a `Set` that answers an entry.
pub set_answers :
    (m : Manager) (ctx : Context) (v w : Entry) (now : Time) (publish : Entry → Check)
    → (set m ctx v now publish).1 ≡ ok w
    → (validate_entry v ≡ ok tt)
      × (w ≡ revised m v)
      × ((set m ctx v now publish).0.values ≡ insert v.key w m.values)
unfolding set set_valid announce
set_answers m ctx v w now publish h = ground arith

-- After a `Set` that answers an entry, `Get` of its key under a live context answers that entry,
-- stale once its freshness has run out, with the revision after the manager's; every other key
-- answers as before.
pub set-get :
    (m : Manager) (ctx reader : Context) (v w : Entry) (now later : Time) (publish : Entry → Check)
    (k : Key)
    → (set m ctx v now publish).1 ≡ ok w
    → reader.cancelled ≡ false
    → (w ≡ revised m v)
      × (get (set m ctx v now publish).0 reader k later
          ≡ (if key_eq.beq v.key k then ok (read_at later w) else get m reader k later))
unfolding get
set-get m ctx reader v w now later publish k h live' =
    let (_, same, stored) = set_answers m ctx v w now publish h in
    elim (Bool-cases (key_eq.beq v.key k)) [
      | inl hit ↦ (same, rw (live', stored, lookup-insert v.key k w m.values, hit) refl)
      | inr miss ↦ (same, rw (live', stored, lookup-insert v.key k w m.values, miss) refl)
    ]

-- A snapshot bears the manager's revision and contains each stored entry once, as the instant shows
-- it, in the order of the keys' texts.
pub snapshot_complete :
    (m : Manager) (ctx : Context) (now : Time) (s : Snapshot)
    → snapshot m ctx now ≡ ok s
    → (s.revision ≡ m.revision) × Perm s.values (shown now m.values) × IsOrdered s.values
unfolding snapshot snapshot_of
snapshot_complete m ctx now s h = elim (Bool-cases ctx.cancelled) [
  | inl gone ↦ absurd (ground (arith, gone))
  | inr live' ↦
      let same : snapshot_of m now ≡ s = ground (arith, live') in
      rw (sym same) (refl, collect-Perm now m.values, collect-IsOrdered now m.values)
]
