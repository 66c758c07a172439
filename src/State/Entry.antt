-- ===== src/State/Entry.antt =====
-- internal/state/manager.go: one canonical state entry, and what a reader of the state gets.
use aqua_os.Common.{String, ℕ, Time, Duration, Result}
use aqua_os.Domain.Value.{Value}
use aqua_os.Domain.Measurement.{Quality}
use aqua_os.State.Key.{Key}

pub record Entry : Type 0 where
  pub key : Key
  pub value : Value
  pub quality : Quality
  pub observed_at : Time
  pub received_at : Time
  pub fresh_for : Duration
  pub source : String
  pub revision : ℕ

-- `StateReader.Get`, as safety consumes it.
abbrev pub StateReader : Type 0
StateReader = Key → Result Entry
