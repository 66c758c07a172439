-- ===== src/Mqtt/Consumer.antt =====
-- internal/mqtt/envelope.go: the consumer. It reserves a message under its lock, runs the handler
-- outside it, and gives the reservation up under the lock where the handler fails.
pub mod Window
pub mod Memory
use aqua_os.Common.{
  ℕ, String, Bool, true, false, not, ◌||◌, Option, none, some, List, [], ◌∷◌, ◌++◌, length, Result,
  ok, err, ◌>>◌, guard, Check, Error, message_duplicate, idempotency_capacity_invalid, Time, ltb,
  next_uint64, if◌then◌else◌, ◌==◌, string_eq,
}
use aqua_os.Common.Map.{Map, lookup, insert, delete}
use aqua_os.Mqtt.Envelope.{Payload, Envelope, Json, Codec, decode}

-- `seen` is a set: a map to the empty struct.
pub record Consumer : Type 0 where
  pub codec : Codec
  pub capacity : ℕ
  pub seen : Map String (Unit {0})
  pub order : List String

-- `NewConsumer`.
unfoldable pub new_consumer : Codec → ℕ → Result Consumer
new_consumer codec capacity = do
  guard (not (ltb capacity 1 || ltb 1000000 capacity)) idempotency_capacity_invalid
  ok (record { codec = codec; capacity = capacity; seen = []; order = [] })

-- The oldest message leaves.
unfoldable pub drop_oldest : Consumer → List String → Consumer
drop_oldest c [] = c
drop_oldest c (oldest ∷ rest) = record c { seen = delete oldest c.seen; order = rest }

unfoldable pub bounded : Consumer → Consumer
unfolding drop_oldest
bounded c = if ltb c.capacity (length c.order) then drop_oldest c c.order else c

unfoldable pub reserve_new : Consumer → String → Option (Unit {0}) → Option Consumer
unfolding bounded
reserve_new c id (some _) = none
reserve_new c id none =
    some (bounded (record c { seen = insert id tt c.seen; order = c.order ++ id ∷ [] }))

-- The first part under the lock: `none` for a message that was seen.
unfoldable pub reserve : Consumer → String → Option Consumer
unfolding reserve_new
reserve c id = reserve_new c id (lookup id c.seen)

-- The loop over `order`, which stops at the message.
unfoldable pub remove_first : String → List String → List String
remove_first id [] = []
remove_first id (x ∷ xs) = if x == id then xs else x ∷ remove_first id xs

-- The part under the lock after a handler that failed.
unfoldable pub release : Consumer → String → Consumer
release c id = record c { seen = delete id c.seen; order = remove_first id c.order }

-- A handler works on a state of its own, which stays where no handler is called.
abbrev pub Handled : Type 0 → Type 0
Handled S = Consumer × S × Check

module _ {S : Type 0} where
  unfoldable pub after_handler : Consumer → String → S × Check → Handled S
  after_handler c id (s, ok _) = (c, s, ok tt)
  after_handler c id (s, err x) = (release c id, s, err x)

  -- A duplicate is counted.
  unfoldable pub on_reserved :
      Consumer → S → Envelope → (S → Envelope → S × Check) → Option Consumer → Handled S
  on_reserved c s e handler none = (
    record c { codec = record c.codec { duplicates = next_uint64 c.codec.duplicates } },
    s,
    err message_duplicate,
  )
  on_reserved c s e handler (some d) = after_handler d e.message_id (handler s e)

  unfoldable pub on_decoded :
      Consumer → S → (S → Envelope → S × Check) → Codec × Result Envelope → Handled S
  on_decoded c s handler (codec, err x) = (record c { codec = codec }, s, err x)
  on_decoded c s handler (codec, ok e) =
      let d = record c { codec = codec } in on_reserved d s e handler (reserve d e.message_id)

  -- `Consume`, with no other call in between.
  unfoldable pub consume :
      Json → Consumer → S → Time → Payload → (S → Envelope → S × Check) → Handled S
  consume json c s now payload handler = on_decoded c s handler (decode json c.codec now payload)
