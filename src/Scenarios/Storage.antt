-- ===== src/Scenarios/Storage.antt =====
-- A writer with a batch of two points, one of which is still queued when it is cancelled.
use aqua_os.Common.{
  ◌≡◌, refl, true, false, none, some, List, [], ◌∷◌, ◌++◌, length, ok, err, Check, pos, arith, ◌≤◌,
  inl, deadline_exceeded, string_eq,
}
use aqua_os.Storage.Writer.{
  Point, Field, Config, Writer, cancelled_round, drain, final, write, validate_point,
}
use aqua_os.Storage.Writer.Buffer.{Refines, IsIdle, Step, cancels, Step-Refines}
use aqua_os.Storage.Writer.Shutdown.{Drains, cancelled_round-Drains, IsBounded, Step-IsBounded}

abbrev reading : Field
reading = record { float = some 0; boolean = none; text = none }

abbrev at_time : (t : aqua_os.Common.Time) → Point
at_time t = record {
  measurement = "water";
  tags = ("sensor", "probe") ∷ [];
  fields = ("value", reading) ∷ [];
  timestamp = t;
}

reading_valid : validate_point (at_time 7) ≡ ok tt
unfolding validate_point
reading_valid = refl

abbrev limits : Config
limits = record {
  queue_capacity = 4;
  batch_size = 2;
  flush_interval = pos 10;
  retry_minimum = pos 10;
  retry_maximum = pos 40;
  write_timeout = pos 5;
}

abbrev half_full : Writer
half_full = record {
  config = limits;
  queue = at_time 2 ∷ [];
  batch = at_time 1 ∷ [];
  backoff = pos 10;
  running = true;
  looping = true;
  last_error = none;
  enqueued = 2;
  written = 0;
  dropped = 0;
  retries = 0;
  failures = 0;
  accepted = at_time 1 ∷ at_time 2 ∷ [];
  delivered = [];
}

abbrev cut_short : Writer
cut_short = cancelled_round half_full (ok tt)

shuts_down : Step half_full cut_short
shuts_down = cancels (ok tt) refl (omega arith)

Step-Refines_example : Refines half_full cut_short × IsIdle cut_short
Step-Refines_example = Step-Refines (inl refl) shuts_down

Step-IsBounded_example : IsBounded cut_short
Step-IsBounded_example =
    Step-IsBounded shuts_down (record { small = omega arith; queued = omega arith })

cancelled_round-Drains_example :
    (block : List Point) × (rest : List Point) × Drains half_full block rest
cancelled_round-Drains_example = cancelled_round-Drains half_full (omega arith)

-- The client answers the final write with an error: both points are lost.
refused_points_lost :
    let lost = cancelled_round half_full (err deadline_exceeded) in
    (lost.delivered ≡ []) × (lost.batch ≡ []) × (lost.queue ≡ [])
unfolding cancelled_round drain final write
refused_points_lost = (refl, refl, refl)
