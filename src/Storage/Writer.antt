-- ===== src/Storage/Writer.antt =====
-- internal/storage/storage.go: the writer. Its goroutine is a sequence of rounds of the loop in `run`,
-- between which points are enqueued; what the client answers, and whether a wait runs to its end, is
-- an argument of a round. `accepted` and `delivered` record the points taken over by `Enqueue` and
-- those that the client has taken, in order.
pub mod Buffer
pub mod Shutdown
use Prim.Native.String.{len}
use aqua_os.Common.{
  ℕ, ◌+◌, ◌*◌, ◌%◌, String, Bool, true, false, not, ◌&&◌, ◌||◌, Option, none, some, List, [], ◌∷◌,
  ◌++◌, length, Result, ok, err, ◌>>=◌, ◌>>◌, guard, Check, Error, queue_full, writer_stopped,
  writer_bounds, writer_already_started, point_fields_required, point_limits, point_tag_invalid,
  point_field_invalid, Time, Duration, is_zero, ltb, eqb, pos, leb_ℤ, ltb_ℤ, add_duration,
  next_uint64, if◌then◌else◌, ◌==◌, string_eq,
}
use aqua_os.Common.Map.{Map}
use aqua_os.Domain.Float.{Float64}

pub record Field : Type 0 where
  pub float : Option Float64
  pub boolean : Option Bool
  pub text : Option String

pub record Point : Type 0 where
  pub measurement : String
  pub tags : Map String String
  pub fields : Map String Field
  pub timestamp : Time

abbrev count {ℓ} : {A : Type ℓ} → Option A → ℕ
count none = 0
count (some a) = 1

unfoldable pub validate_tags : Map String String → Check
validate_tags [] = ok tt
validate_tags ((key, value) ∷ tags) = do
  guard (not (key == "" || value == "" || ltb 64 (len key) || ltb 128 (len value)))
      point_tag_invalid
  validate_tags tags

unfoldable pub validate_fields : Map String Field → Check
validate_fields [] = ok tt
validate_fields ((key, f) ∷ fields) = do
  guard
      (not (
        key == ""
        || ltb 64 (len key)
        || not (eqb (count f.float + count f.boolean + count f.text) 1)))
      point_field_invalid
  validate_fields fields

-- `validatePoint`.
unfoldable pub validate_point : Point → Check
unfolding validate_tags validate_fields
validate_point p = do
  guard (not (p.measurement == "" || is_zero p.timestamp || eqb (length p.fields) 0))
      point_fields_required
  guard (not (ltb 16 (length p.tags) || ltb 32 (length p.fields))) point_limits
  validate_tags p.tags
  validate_fields p.fields

pub record Config : Type 0 where
  pub queue_capacity : ℕ
  pub batch_size : ℕ
  pub flush_interval : Duration
  pub retry_minimum : Duration
  pub retry_maximum : Duration
  pub write_timeout : Duration

pub record Writer : Type 0 where
  pub config : Config
  pub queue : List Point
  pub batch : List Point
  pub backoff : Duration
  pub running : Bool
  pub looping : Bool
  pub last_error : Option Error
  pub enqueued : ℕ
  pub written : ℕ
  pub dropped : ℕ
  pub retries : ℕ
  pub failures : ℕ
  pub accepted : List Point
  pub delivered : List Point

abbrev empty : Config → Writer
empty config = record {
  config = config;
  queue = [];
  batch = [];
  backoff = config.retry_minimum;
  running = false;
  looping = false;
  last_error = none;
  enqueued = 0;
  written = 0;
  dropped = 0;
  retries = 0;
  failures = 0;
  accepted = [];
  delivered = [];
}

-- `New`.
unfoldable pub new_writer : Config → Result Writer
new_writer config = do
  guard
      (not (
        ltb config.queue_capacity 1
        || ltb 1000000 config.queue_capacity
        || ltb config.batch_size 1
        || ltb config.queue_capacity config.batch_size))
      writer_bounds
  guard
      (not (
        leb_ℤ config.flush_interval (pos 0)
        || leb_ℤ config.retry_minimum (pos 0)
        || ltb_ℤ config.retry_maximum config.retry_minimum
        || leb_ℤ config.write_timeout (pos 0)))
      writer_bounds
  ok (empty config)

unfoldable pub enqueue_valid : Writer → Point → Check → Writer × Check
enqueue_valid w p (err x) = (w, err x)
enqueue_valid w p (ok _) =
    if not w.running
    then (w, err writer_stopped)
    else if ltb (length w.queue) w.config.queue_capacity
    then (
      record w {
        queue = w.queue ++ p ∷ [];
        enqueued = next_uint64 w.enqueued;
        accepted = w.accepted ++ p ∷ [];
      },
      ok tt,
    )
    else (record w { dropped = next_uint64 w.dropped }, err queue_full)

-- `Enqueue`.
unfoldable pub enqueue : Writer → Point → Writer × Check
unfolding enqueue_valid
enqueue w p = enqueue_valid w p (validate_point p)

-- `write`, after which a batch that the client has taken counts as delivered and is empty: its
-- callers empty it, or return.
unfoldable pub write : Writer → Check → Writer
write w (err x) = record w { last_error = some x; failures = next_uint64 w.failures }
write w (ok _) = record w {
  last_error = none;
  written = (w.written + length w.batch) % 18446744073709551616;
  delivered = w.delivered ++ w.batch;
  batch = [];
}

-- The end of the goroutine: the batch, a local variable of `run`, is gone.
abbrev finish : Writer → Writer
finish w = record w { looping = false; batch = [] }

-- `final`, and the end of the goroutine.
unfoldable pub final : Writer → List Point → Check → Writer
final w [] answer = finish w
final w (p ∷ ps) answer = finish (write w answer)

-- `backoff *= 2`, up to the maximum.
unfoldable pub slower : Config → Duration → Duration
slower config backoff =
    let double = add_duration backoff backoff in
    if ltb_ℤ config.retry_maximum double then config.retry_maximum else double

-- A round with a full batch: the client's answer, whether the wait ended before a cancellation,
-- and the answer to the final write.
unfoldable pub full_round : Writer → Check → Bool → Check → Writer
full_round w (ok u) waited last =
    let w' = write w (ok u) in record w' { backoff = w'.config.retry_minimum }
full_round w (err x) true last =
    let w' = write w (err x) in
    record w' { retries = next_uint64 w'.retries; backoff = slower w'.config w'.backoff }
full_round w (err x) false last = let w' = write w (err x) in final w' w'.batch last

-- A round in which the ticker fires.
unfoldable pub flush : Writer → List Point → Check → Writer
flush w [] answer = w
flush w (p ∷ ps) (ok u) = let w' = write w (ok u) in record w' { backoff = w'.config.retry_minimum }
flush w (p ∷ ps) (err x) =
    let w' = write w (err x) in record w' { retries = next_uint64 w'.retries }

-- The loop that takes over queued points, up to a full batch.
unfoldable pub drain : ℕ → List Point → List Point → List Point × List Point
drain size batch [] = (batch, [])
drain size batch (p ∷ queue) =
    let more = drain size (batch ++ p ∷ []) queue in
    if ltb (length batch) size then more else (batch, p ∷ queue)

-- A round in which the `select` takes the cancellation; with a full batch the loop does not get there.
unfoldable pub cancelled_round : Writer → Check → Writer
cancelled_round w last =
    let (batch, queue) = drain w.config.batch_size w.batch w.queue in
    final (record w { batch = batch; queue = queue }) batch last

-- A round that takes a point over.
unfoldable pub receive : Writer → List Point → Writer
receive w [] = w
receive w (p ∷ queue) = record w { batch = w.batch ++ p ∷ []; queue = queue }

-- `Start`; a new run begins with an empty batch.
unfoldable pub start : Writer → Writer × Check
start w = if w.running then (w, err writer_already_started) else (
  record w { running = true; looping = true; batch = []; backoff = w.config.retry_minimum },
  ok tt,
)

-- `Stop`, before the goroutine has seen the cancellation.
unfoldable pub stop : Writer → Writer
stop w = record w { running = false }
