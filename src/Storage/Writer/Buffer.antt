-- ===== src/Storage/Writer/Buffer.antt =====
-- internal/storage/storage.go: the writer is a first-in first-out buffer, and keeps its bounds.
use mathlib.Core.List.{append_assoc}
use aqua_os.Common.{
  ℕ, ◌<◌, ◌≤◌, ◌≡◌, refl, sym, ap, ◌∙◌, ◌⊎◌, inl, inr, Bool, true, false, not, some, List, [], ◌∷◌,
  ◌++◌, length, length-append, ok, err, Check, Error, if-elim, arith, ltb, subst,
}
use aqua_os.Storage.Writer.{
  Point, Writer, enqueue_valid, enqueue, validate_point, write, final, full_round, flush, drain,
  cancelled_round, receive, start, stop,
}

-- What the client has taken, and what waits for it, in order.
abbrev pub waiting : Writer → List Point
waiting w = w.batch ++ w.queue

-- A move of the abstract buffer: nothing, a point accepted at the end, or a block delivered from the
-- front.
pub data Moves (taken queue : List Point) : List Point → List Point → Type 0 where
  stays : {rest : List Point} → rest ≡ queue → Moves taken queue taken rest
  accepts : {rest : List Point} (p : Point) → rest ≡ queue ++ p ∷ [] → Moves taken queue taken rest
  delivers :
      {all rest : List Point} (block : List Point)
      → queue ≡ block ++ rest
      → all ≡ taken ++ block
      → Moves taken queue all rest

-- The loop ends, and the last batch, which the client did not take, is lost from the front.
abbrev pub Loses : Writer → List Point → Writer → Type 0
Loses v queue w =
    (block : List Point) × (queue ≡ block ++ waiting w)
    × (length block ≤ v.config.batch_size)
    × (w.delivered ≡ v.delivered)
    × (v.looping ≡ true)
    × (w.looping ≡ false)
    × (x : Error) × (w.last_error ≡ some x)

-- What a step makes of a writer for which `queue` waits.
abbrev pub After : Writer → List Point → Writer → Type 0
After v queue w = Moves v.delivered queue w.delivered (waiting w) ⊎ Loses v queue w

abbrev pub Refines : Writer → Writer → Type 0
Refines v w = After v (waiting v) w

-- A batch exists only while the loop runs.
abbrev pub IsIdle : Writer → Type 0
IsIdle w = (w.looping ≡ true) ⊎ (w.batch ≡ [])

abbrev Keeps : Writer → Writer → Type 0
Keeps v w = Refines v w × IsIdle w

final-Keeps :
    (w : Writer) (batch : List Point) (answer : Check)
    → w.batch ≡ batch
    → w.looping ≡ true
    → length w.batch ≤ w.config.batch_size
    → Keeps w (final w batch answer)
unfolding final write
final-Keeps w [] answer q on small =
    (inl (stays (ap (λ (b : List Point). b ++ w.queue) (sym q))), inr refl)
final-Keeps w (p ∷ ps) (ok u) q on small = (inl (delivers w.batch refl refl), inr refl)
final-Keeps w (p ∷ ps) (err x) q on small =
    (inr (w.batch, refl, small, refl, on, refl, x, refl), inr refl)

full_round-Keeps :
    (w : Writer) (answer : Check) (waited : Bool) (last : Check)
    → w.looping ≡ true
    → length w.batch ≤ w.config.batch_size
    → Keeps w (full_round w answer waited last)
unfolding full_round write
full_round-Keeps w (ok u) waited last on small = (inl (delivers w.batch refl refl), inr refl)
full_round-Keeps w (err x) true last on small = (inl (stays refl), inl on)
full_round-Keeps w (err x) false last on small =
    final-Keeps (write w (err x)) w.batch last refl on small

flush-Keeps :
    (w : Writer) (batch : List Point) (answer : Check)
    → w.looping ≡ true
    → Keeps w (flush w batch answer)
unfolding flush write
flush-Keeps w [] answer on = (inl (stays refl), inl on)
flush-Keeps w (p ∷ ps) (ok u) on = (inl (delivers w.batch refl refl), inr refl)
flush-Keeps w (p ∷ ps) (err x) on = (inl (stays refl), inl on)

receive-Keeps :
    (w : Writer) (queue : List Point)
    → w.queue ≡ queue
    → w.looping ≡ true
    → Keeps w (receive w queue)
unfolding receive
receive-Keeps w [] q on = (inl (stays refl), inl on)
receive-Keeps w (p ∷ ps) q on =
    let same = append_assoc w.batch (p ∷ []) ps ∙ ap (λ (ps : List Point). w.batch ++ ps) (sym q) in
    (inl (stays same), inl on)

-- Taking over neither loses nor reorders.
pub drain-keeps :
    (size : ℕ) (batch queue : List Point)
    → (drain size batch queue).0 ++ (drain size batch queue).1 ≡ batch ++ queue
unfolding drain
drain-keeps size batch [] = refl
drain-keeps size batch (p ∷ queue) =
    if-elim (λ (r : List Point × List Point). r.0 ++ r.1 ≡ batch ++ p ∷ queue)
      (ltb (length batch) size) _ _
      (λ _. drain-keeps size (batch ++ p ∷ []) queue ∙ append_assoc batch (p ∷ []) queue)
      (λ _. refl)

pub drain_bounds :
    (size : ℕ) (batch queue : List Point)
    → length batch ≤ size
    → (length (drain size batch queue).0 ≤ size)
      × (length (drain size batch queue).1 ≤ length queue)
unfolding drain
drain_bounds size batch [] h = (h, omega arith)
drain_bounds size batch (p ∷ queue) h =
    if-elim
      (λ (r : List Point × List Point). (length r.0 ≤ size) × (length r.1 ≤ length (p ∷ queue)))
      (ltb (length batch) size) _ _
      (λ room.
        let (small, less) =
          drain_bounds size (batch ++ p ∷ []) queue
            (ground (arith, length-append batch (p ∷ []), room)) in
        (small, omega (arith, less)))
      (λ _. (h, omega arith))

cancelled_round-Keeps :
    (w : Writer) (last : Check)
    → w.looping ≡ true
    → length w.batch < w.config.batch_size
    → Keeps w (cancelled_round w last)
unfolding cancelled_round
cancelled_round-Keeps w last on room =
    let (batch, queue) = drain w.config.batch_size w.batch w.queue in
    let drained : Writer = record w { batch = batch; queue = queue } in
    let bounds = drain_bounds w.config.batch_size w.batch w.queue (omega (arith, room)) in
    let (after, idle) = final-Keeps drained batch last refl on bounds.0 in
    (
      subst (λ (xs : List Point). After w xs (cancelled_round w last))
          (drain-keeps w.config.batch_size w.batch w.queue) after,
      idle,
    )

enqueue_valid-Keeps :
    (w : Writer) (p : Point) (valid : Check) → IsIdle w → Keeps w (enqueue_valid w p valid).0
unfolding enqueue_valid
enqueue_valid-Keeps w p (err x) idle = (inl (stays refl), idle)
enqueue_valid-Keeps w p (ok u) idle =
    if-elim (λ (r : Writer × Check). Keeps w r.0) (not w.running) _ _
      (λ _. (inl (stays refl), idle))
      (λ _.
        if-elim (λ (r : Writer × Check). Keeps w r.0) (ltb (length w.queue) w.config.queue_capacity)
          _ _ (λ _. (inl (accepts p (sym (append_assoc w.batch w.queue (p ∷ [])))), idle))
          (λ _. (inl (stays refl), idle)))

start-Keeps : (w : Writer) → w.looping ≡ false → IsIdle w → Keeps w (start w).0
unfolding start
start-Keeps w off idle =
    if-elim (λ (r : Writer × Check). Keeps w r.0) w.running _ _ (λ _. (inl (stays refl), idle))
      (λ _.
        let none_left : w.batch ≡ [] = empty idle in
        (inl (stays (ap (λ (b : List Point). b ++ w.queue) (sym none_left))), inl refl))
  where
    empty : IsIdle w → w.batch ≡ []
    empty (inl on) = cc
    empty (inr q) = q

-- The steps of a writer: calls of `Enqueue`, of `Stop`, and of `Start` once the goroutine of the run
-- before has ended; and the rounds of the loop by the state of the batch, with any answers of the
-- client.
pub data Step (w : Writer) : Writer → Type 0 where
  enqueues : (p : Point) → Step w (enqueue w p).0
  stops : Step w (stop w)
  starts : w.looping ≡ false → Step w (start w).0
  fills :
      (answer last : Check) (waited : Bool)
      → w.looping ≡ true
      → length w.batch ≡ w.config.batch_size
      → Step w (full_round w answer waited last)
  flushes :
      (answer : Check)
      → w.looping ≡ true
      → length w.batch < w.config.batch_size
      → Step w (flush w w.batch answer)
  receives : w.looping ≡ true → length w.batch < w.config.batch_size → Step w (receive w w.queue)
  cancels :
      (last : Check)
      → w.looping ≡ true
      → length w.batch < w.config.batch_size
      → Step w (cancelled_round w last)

-- Each step of a writer that has a batch only while its loop runs is a move of a first-in first-out
-- buffer: a point is accepted at the end, or a block goes to the client from the front, or nothing
-- changes. Only the step that ends the loop may lose points: the last batch, no longer than the
-- batch size, when the client answers its final write with an error. No step doubles or reorders a
-- point, and a batch still exists only while the loop runs.
pub Step-Refines : {v w : Writer} → IsIdle v → Step v w → Refines v w × IsIdle w
unfolding enqueue stop
Step-Refines {v} idle (enqueues p) = enqueue_valid-Keeps v p (validate_point p) idle
Step-Refines idle stops = (inl (stays refl), idle)
Step-Refines {v} idle (starts off) = start-Keeps v off idle
Step-Refines {v} idle (fills answer last waited on full) =
    full_round-Keeps v answer waited last on (omega (arith, full))
Step-Refines {v} idle (flushes answer on room) = flush-Keeps v v.batch answer on
Step-Refines {v} idle (receives on room) = receive-Keeps v v.queue refl on
Step-Refines {v} idle (cancels last on room) = cancelled_round-Keeps v last on room
