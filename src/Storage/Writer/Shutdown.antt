-- ===== src/Storage/Writer/Shutdown.antt =====
-- internal/storage/storage.go: the bounds of the writer, and the round that ends its loop.
use mathlib.Core.List.{append-nil}
use aqua_os.Common.{
  ℕ, ◌≤◌, ◌<◌, ◌≡◌, refl, sym, ap, Bool, true, false, not, ◌⊎◌, inl, inr, Error, List, [], ◌∷◌,
  ◌++◌, length, length-append, ok, err, Check, if-elim, arith, ltb,
}
use aqua_os.Storage.Writer.{
  Point, Writer, enqueue_valid, enqueue, validate_point, write, final, full_round, flush, drain,
  cancelled_round, receive, start, stop,
}
use aqua_os.Storage.Writer.Buffer.{
  Step, enqueues, stops, starts, drain-keeps, drain_bounds, fills, flushes, receives, cancels,
}

-- Taking over stops at an empty queue or at a full batch.
drain_stops :
    (size : ℕ) (batch queue : List Point)
    → length batch ≤ size
    → ((drain size batch queue).1 ≡ []) ⊎ (length (drain size batch queue).0 ≡ size)
unfolding drain
drain_stops size batch [] h = inl refl
drain_stops size batch (p ∷ queue) h =
    if-elim (λ (r : List Point × List Point). (r.1 ≡ []) ⊎ (length r.0 ≡ size))
      (ltb (length batch) size) _ _
      (λ room.
        drain_stops size (batch ++ p ∷ []) queue
          (ground (arith, length-append batch (p ∷ []), room)))
      (λ full. inr (ground (arith, h, full)))

final_taken :
    (w : Writer) (batch : List Point)
    → w.batch ≡ batch
    → ((final w batch (ok tt)).delivered ≡ w.delivered ++ batch)
      × ((final w batch (ok tt)).queue ≡ w.queue)
unfolding final write
final_taken w [] q = (sym (append-nil w.delivered), refl)
final_taken w (p ∷ ps) q = (ap (λ (b : List Point). w.delivered ++ b) q, refl)

final_refused :
    (w : Writer) (batch : List Point) (x : Error)
    → ((final w batch (err x)).delivered ≡ w.delivered) × ((final w batch (err x)).queue ≡ w.queue)
unfolding final write
final_refused w [] x = (refl, refl)
final_refused w (p ∷ ps) x = (refl, refl)

-- The last batch, and what is left in the queue.
pub record Drains (w : Writer) (block rest : List Point) : Type 0 where
  pub splits : block ++ rest ≡ w.batch ++ w.queue
  pub bounded : length block ≤ w.config.batch_size
  pub filled : (rest ≡ []) ⊎ (length block ≡ w.config.batch_size)
  pub taken :
      ((cancelled_round w (ok tt)).delivered ≡ w.delivered ++ block)
      × ((cancelled_round w (ok tt)).queue ≡ rest)
  pub refused :
      (x : Error)
      → ((cancelled_round w (err x)).delivered ≡ w.delivered)
        × ((cancelled_round w (err x)).queue ≡ rest)

-- The round of the loop in which the `select` takes the cancellation, with the batch below its size:
-- it splits what waits in two, in order. The first part fits into a batch; it is everything, or it
-- fills the batch. If the client takes the final write, exactly the first part is delivered; if it
-- answers with an error, nothing is. Either way the second part stays in the queue.
pub cancelled_round-Drains :
    (w : Writer)
    → length w.batch < w.config.batch_size
    → (block : List Point) × (rest : List Point) × Drains w block rest
unfolding cancelled_round
cancelled_round-Drains w room =
    let small : length w.batch ≤ w.config.batch_size = omega (arith, room) in
    let (block, rest) = drain w.config.batch_size w.batch w.queue in
    let drained : Writer = record w { batch = block; queue = rest } in
    (
      block,
      rest,
      record {
        splits = drain-keeps w.config.batch_size w.batch w.queue;
        bounded = (drain_bounds w.config.batch_size w.batch w.queue small).0;
        filled = drain_stops w.config.batch_size w.batch w.queue small;
        taken = final_taken drained block refl;
        refused = λ x. final_refused drained block x;
      },
    )

-- The bounds of the buffers.
pub record IsBounded (w : Writer) : Type 0 where
  pub small : length w.batch ≤ w.config.batch_size
  pub queued : length w.queue ≤ w.config.queue_capacity

abbrev Keeps : Writer → Writer → Type 0
Keeps v w = (w.config ≡ v.config) × (length w.batch ≤ length v.batch) × (w.queue ≡ v.queue)

Keeps-IsBounded : (v w : Writer) → Keeps v w → IsBounded v → IsBounded w
Keeps-IsBounded v w (same, shorter, queue) b = record {
  small = rw same (omega (arith, shorter, b.small));
  queued = rw (same, queue) b.queued;
}

write-Keeps : (w : Writer) (answer : Check) → Keeps w (write w answer)
unfolding write
write-Keeps w (err x) = (refl, omega arith, refl)
write-Keeps w (ok u) = (refl, omega arith, refl)

final-Keeps : (w : Writer) (batch : List Point) (last : Check) → Keeps w (final w batch last)
unfolding final write
final-Keeps w [] last = (refl, omega arith, refl)
final-Keeps w (p ∷ ps) (err x) = (refl, omega arith, refl)
final-Keeps w (p ∷ ps) (ok u) = (refl, omega arith, refl)

full_round-Keeps :
    (w : Writer) (answer : Check) (waited : Bool) (last : Check)
    → Keeps w (full_round w answer waited last)
unfolding full_round write
full_round-Keeps w (ok u) waited last = (refl, omega arith, refl)
full_round-Keeps w (err x) true last = (refl, omega arith, refl)
full_round-Keeps w (err x) false last = final-Keeps (write w (err x)) w.batch last

flush-Keeps : (w : Writer) (batch : List Point) (answer : Check) → Keeps w (flush w batch answer)
unfolding flush write
flush-Keeps w [] answer = (refl, omega arith, refl)
flush-Keeps w (p ∷ ps) (ok u) = (refl, omega arith, refl)
flush-Keeps w (p ∷ ps) (err x) = (refl, omega arith, refl)

receive-IsBounded :
    (w : Writer) (queue : List Point)
    → w.queue ≡ queue
    → length w.batch < w.config.batch_size
    → IsBounded w
    → IsBounded (receive w queue)
unfolding receive
receive-IsBounded w [] q room b = b
receive-IsBounded w (p ∷ ps) q room b = record {
  small = omega (arith, length-append w.batch (p ∷ []), room);
  queued = omega (arith, ap length q, b.queued);
}

cancelled_round-IsBounded :
    (w : Writer) (last : Check) → IsBounded w → IsBounded (cancelled_round w last)
unfolding cancelled_round
cancelled_round-IsBounded w last b =
    let (batch, queue) = drain w.config.batch_size w.batch w.queue in
    let (small, less) = drain_bounds w.config.batch_size w.batch w.queue b.small in
    Keeps-IsBounded (record w { batch = batch; queue = queue }) _
      (final-Keeps (record w { batch = batch; queue = queue }) batch last)
      (record { small = small; queued = omega (arith, less, b.queued) })

enqueue_valid-IsBounded :
    (w : Writer) (p : Point) (valid : Check) → IsBounded w → IsBounded (enqueue_valid w p valid).0
unfolding enqueue_valid
enqueue_valid-IsBounded w p (err x) b = b
enqueue_valid-IsBounded w p (ok u) b =
    if-elim (λ (r : Writer × Check). IsBounded r.0) (not w.running) _ _ (λ _. b)
      (λ _.
        if-elim (λ (r : Writer × Check). IsBounded r.0)
          (ltb (length w.queue) w.config.queue_capacity) _ _
          (λ room. record {
            small = b.small;
            queued = ground (arith, length-append w.queue (p ∷ []), room);
          })
          (λ _. record { small = b.small; queued = b.queued }))

start-IsBounded : (w : Writer) → IsBounded w → IsBounded (start w).0
unfolding start
start-IsBounded w b =
    if-elim (λ (r : Writer × Check). IsBounded r.0) w.running _ _ (λ _. b)
      (λ _. record { small = omega arith; queued = b.queued })

-- No step of a writer lets the queue grow past its capacity or the batch past its size.
pub Step-IsBounded : {v w : Writer} → Step v w → IsBounded v → IsBounded w
unfolding enqueue stop
Step-IsBounded {v} (enqueues p) b = enqueue_valid-IsBounded v p (validate_point p) b
Step-IsBounded stops b = record { small = b.small; queued = b.queued }
Step-IsBounded {v} (starts off) b = start-IsBounded v b
Step-IsBounded {v} (fills answer last waited on full) b =
    Keeps-IsBounded v _ (full_round-Keeps v answer waited last) b
Step-IsBounded {v} (flushes answer on room) b = Keeps-IsBounded v _ (flush-Keeps v v.batch answer) b
Step-IsBounded {v} (receives on room) b = receive-IsBounded v v.queue refl room b
Step-IsBounded {v} (cancels last on room) b = cancelled_round-IsBounded v last b
