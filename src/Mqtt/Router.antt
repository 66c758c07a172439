-- ===== src/Mqtt/Router.antt =====
-- internal/mqtt/command_router.go: a request from the broker becomes a call of `Submit`, and its
-- result a message. The decoder of commands, the encoder of results and the publication are
-- parameters.
pub mod Requests
use Prim.Native.String.{◌++◌ as text_append}
use aqua_os.Common.{
  ℕ, String, Bool, true, false, not, Option, none, some, List, [], ◌∷◌, Result, ok, err, ◌>>=◌,
  ◌>>◌, guard, Check, Error, correlation_mismatch, expiry_exceeds_envelope, result_retained,
  Context, Time, after, ◌==◌, string_eq, if◌then◌else◌,
}
use aqua_os.Output.Command.{Command, CommandResult}
use aqua_os.Output.Service.{Env, Service, Answer}
use aqua_os.Output.Submit.{submit}
use aqua_os.Mqtt.Envelope.{Payload, Envelope, Rest, ensure_eof, Json, Codec, encode}
use aqua_os.Mqtt.Consumer.{Consumer, Handled, consume}
use aqua_os.Mqtt.Topics.{Registry, Policy, command_result, topic}

pub record Publication : Type 0 where
  pub topic : String
  pub qos : ℕ
  pub retained : Bool
  pub payload : Payload
  pub expires_at : Option Time

-- What the router is built over besides the consumer and the command service.
pub record Ports : Type 0 where
  pub json : Json
  pub codec : Codec
  pub topics : Registry
  pub decode_command : Payload → Result (Command × Rest)
  pub marshal_result : Option CommandResult → Result Payload
  pub publish : Publication → Check
  pub now : Time

unfoldable pub within_envelope : Command → Option Time → Check
within_envelope c none = err expiry_exceeds_envelope
within_envelope c (some at) = guard (not (after c.expires_at at)) expiry_exceeds_envelope

-- The command of an envelope, once it is accepted.
unfoldable pub read_command : Envelope → Command × Rest → Result Command
unfolding within_envelope
read_command e (c, rest) = do
  ensure_eof rest
  guard (c.correlation_id == e.correlation_id) correlation_mismatch
  within_envelope c e.expires_at
  ok c

module _ {P : Type 0} (env : Env P) (ports : Ports) where
  unfoldable pub send : Envelope → String × Policy → Payload → Check
  send e (name, policy) response = do
    guard (not policy.retained) result_retained
    ports.publish (record {
      topic = name;
      qos = policy.qos;
      retained = false;
      payload = response;
      expires_at = e.expires_at;
    })

  -- The message with the result.
  unfoldable pub reply : String → Envelope → Command → Option CommandResult → Check
  reply target e c result = do
    named ← topic ports.topics command_result target
    response ←
        encode ports.json ports.codec ports.now (text_append "result-" c.id) "aquaos-core"
          e.correlation_id ports.now e.expires_at c.expected_revision (ports.marshal_result result)
    send e named response

  unfoldable pub on_submitted : String → Envelope → Command → Service P × Answer → Service P × Check
  on_submitted target e c (s, (result, some x)) = (s, err x)
  on_submitted target e c (s, (result, none)) = (s, reply target e c result)

  unfoldable pub on_command :
      Context → String → Service P → Envelope → Result Command → Service P × Check
  on_command ctx target s e (err x) = (s, err x)
  on_command ctx target s e (ok c) = on_submitted target e c (submit env s ctx c)

  -- The handler that `Handle` passes to the consumer.
  unfoldable pub route : Context → String → Service P → Envelope → Service P × Check
  route ctx target s e =
      on_command ctx target s e (ports.decode_command e.content >>= read_command e)

  -- `Handle`; `at` is the codec's reading of the clock.
  unfoldable pub handle :
      Consumer → Service P → Context → Time → String → Payload → Handled (Service P)
  handle consumer s ctx at target payload =
      consume ports.json consumer s at payload (route ctx target)
