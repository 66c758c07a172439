-- ===== src/Mqtt/Router/Requests.antt =====
-- internal/mqtt/command_router.go: what a message from the broker may make the executor do.
use aqua_os.Common.{
  ◌≤◌, String, ◌≡◌, refl, sym, ◌⊎◌, inl, inr, Option, none, some, ◌∷◌, Result, ok, err, ◌>>=◌,
  guard, Check, Context, Time, arith, bind-ok, guard-ok, >>-eq-ok, ok-injective, ◌==◌, string_eq,
  subst, correlation_mismatch, ◌≢◌, ap, ◌∙◌,
}
use aqua_os.Common.Map.{lookup}
use aqua_os.Output.Command.{Command}
use aqua_os.Output.Service.{Env, Service, Answer}
use aqua_os.Output.Service.Ledger.{Inv}
use aqua_os.Output.Submit.{submit}
use aqua_os.Output.Submit.Checks.{Cleared}
use aqua_os.Output.Submit.Outcome.{submit-Submitted, Submitted, SameRequest}
use aqua_os.Mqtt.Envelope.{
  Payload, Envelope, Rest, ended, more_json, broken, ensure_eof, Json, Codec, decode,
}
use aqua_os.Mqtt.Envelope.Decoding.{decode_iff}
use aqua_os.Domain.Ids.{validate_uuid, validate_codes, has_frame, strip, decodes, is_hex, dash_at}
use aqua_os.Mqtt.Consumer.{
  Consumer, consume, on_decoded, on_reserved, after_handler, reserve, reserve_new,
}
use aqua_os.Mqtt.Router.{
  Ports, within_envelope, read_command, on_submitted, on_command, route, handle,
}

-- The command carries the envelope's correlation and ends no later than the envelope.
abbrev FitsEnvelope : Envelope → Command → Type 0
FitsEnvelope e c =
    (c.correlation_id ≡ e.correlation_id)
    × (at : Time) × (e.expires_at ≡ some at)
    × (c.expires_at ≤ at)

blank_invalid : validate_uuid "" ≢ ok tt
unfolding validate_uuid validate_codes has_frame strip decodes is_hex dash_at
blank_invalid q = cc

-- An envelope that `Decode` accepts has a correlation.
decoded_traced :
    (json : Json) (c : Codec) (now : Time) (payload : Payload) (e : Envelope)
    → (decode json c now payload).1 ≡ ok e
    → e.correlation_id ≢ ""
decoded_traced json c now payload e h blank =
    let (_, _, _, sound) = (decode_iff json c now payload e).0 h in
    blank_invalid (rw blank at sound.correlated)

within-ok :
    (c : Command) (o : Option Time)
    → within_envelope c o ≡ ok tt
    → (at : Time) × (o ≡ some at) × (c.expires_at ≤ at)
unfolding within_envelope
within-ok c none h = cc
within-ok c (some at) h = (at, refl, ground arith)

read_command-FitsEnvelope :
    (e : Envelope) (r : Command × Rest) (c : Command)
    → read_command e r ≡ ok c
    → (r ≡ (c, ended)) × FitsEnvelope e c
unfolding read_command ensure_eof
read_command-FitsEnvelope e (d, more_json) c h = cc
read_command-FitsEnvelope e (d, broken x) c h = cc
read_command-FitsEnvelope e (d, ended) c h =
    let rest = ended in
    let (_, after_rest) = >>-eq-ok (ensure_eof rest) _ h in
    let (same, after_same) =
      >>-eq-ok (guard (d.correlation_id == e.correlation_id) correlation_mismatch) _ after_rest in
    let (inside, q) = >>-eq-ok (within_envelope d e.expires_at) (ok d) after_same in
    let correlated =
      (string_eq.beq_iff d.correlation_id e.correlation_id).0
        (guard-ok (d.correlation_id == e.correlation_id) correlation_mismatch same) in
    let (at, timed, ends) = within-ok d e.expires_at inside in
    (
      ap (λ (c : Command). (c, ended)) (ok-injective q),
      subst (FitsEnvelope e) (ok-injective q) (correlated, at, timed, ends),
    )

module _ {P : Type 0} (env : Env P) (ports : Ports) where
  -- The command is the content of the envelope and nothing else, and fits the envelope.
  abbrev pub Carries : Envelope → Command → Type 0
  Carries e c = (ports.decode_command e.content ≡ ok (c, ended)) × FitsEnvelope e c

  -- The executor got nothing, or one command: the one that the envelope carries, with a new identity
  -- if it left its own out, under the envelope's correlation, cleared by the checks of `Submit`.
  abbrev pub SentFor : Service P → Context → Envelope → Service P → Type 0
  SentFor s ctx e t =
      (t.sent ≡ s.sent)
      ⊎ ((c : Command) × (d : Command) × (t.sent ≡ d ∷ s.sent)
          × Carries e c
          × SameRequest env c d
          × (d.correlation_id ≡ e.correlation_id)
          × Cleared env s ctx d)

  abbrev Routed : Service P → Context → Envelope → Service P → Type 0
  Routed s ctx e t = Inv t × SentFor s ctx e t

  Submitted-Routed :
      (s t : Service P) (ctx : Context) (e : Envelope) (c : Command)
      → e.correlation_id ≢ ""
      → Carries e c
      → Submitted env s ctx c t
      → Routed s ctx e t
  Submitted-Routed s t ctx e c traced fits (d, same, outcome) =
      (outcome.inv, of_sending outcome.sending)
    where
      kept : d.correlation_id ≡ e.correlation_id
      kept =
          let correlated = fits.1.0 in
          let (_, _, _, _, _, _, _, _, own) = same in
          own (λ none. traced (sym correlated ∙ none)) ∙ correlated

      of_sending :
          (t.sent ≡ s.sent) ⊎ ((t.sent ≡ d ∷ s.sent) × Cleared env s ctx d) → SentFor s ctx e t
      of_sending (inl nothing) = inl nothing
      of_sending (inr (sent, cleared)) = inr (c, d, sent, fits, same, kept, cleared)

  on_submitted-service :
      (target : String) (e : Envelope) (c : Command) (r : Service P × Answer)
      → (on_submitted env ports target e c r).0 ≡ r.0
  unfolding on_submitted
  on_submitted-service target e c (s, (result, none)) = refl
  on_submitted-service target e c (s, (result, some x)) = refl

  on_command-Routed :
      (ctx : Context) (target : String) (s : Service P) (e : Envelope) (r : Result Command)
      → e.correlation_id ≢ ""
      → ((c : Command) → r ≡ ok c → Carries e c)
      → Inv s
      → Routed s ctx e (on_command env ports ctx target s e r).0
  unfolding on_command
  on_command-Routed ctx target s e (err x) traced fits v = (v, inl refl)
  on_command-Routed ctx target s e (ok c) traced fits v =
      subst (Routed s ctx e) (sym (on_submitted-service target e c (submit env s ctx c))) (
        Submitted-Routed s (submit env s ctx c).0 ctx e c traced (fits c refl)
          (submit-Submitted env s ctx c v))

  route-Routed :
      (ctx : Context) (target : String) (s : Service P) (e : Envelope)
      → e.correlation_id ≢ ""
      → Inv s
      → Routed s ctx e (route env ports ctx target s e).0
  unfolding route
  route-Routed ctx target s e traced v =
      on_command-Routed ctx target s e (ports.decode_command e.content >>= read_command e) traced
        (λ c h.
          let (r, found, read) = bind-ok (ports.decode_command e.content) (read_command e) h in
          let (whole, fits) = read_command-FitsEnvelope e r c read in (found ∙ ap ok whole, fits))
        v

  after_handler-service :
      (c : Consumer) (id : String) (r : Service P × Check) → (after_handler c id r).1 ≡ r.0
  unfolding after_handler
  after_handler-service c id (s, ok u) = refl
  after_handler-service c id (s, err x) = refl

  -- What the handling of a payload comes to: the service as it was, or an envelope that the codec
  -- accepted, that was not seen before, and that was routed.
  abbrev pub Handling : Consumer → Service P → Context → Time → Payload → Service P → Type 0
  Handling consumer s ctx at payload t =
      (t.sent ≡ s.sent)
      ⊎ ((e : Envelope) × ((decode ports.json consumer.codec at payload).1 ≡ ok e)
          × (lookup e.message_id consumer.seen ≡ none)
          × SentFor s ctx e t)

  on_reserved-Handling :
      (consumer : Consumer) (ctx : Context) (target : String) (s : Service P) (e : Envelope)
      (seen : Option (Unit {0}))
      → e.correlation_id ≢ ""
      → Inv s
      → let t =
          (on_reserved consumer s e
            (route env ports ctx target)
            (reserve_new consumer e.message_id seen)).1 in
        Inv t × ((t.sent ≡ s.sent) ⊎ ((seen ≡ none) × SentFor s ctx e t))
  unfolding on_reserved reserve_new
  on_reserved-Handling consumer ctx target s e (some u) traced v = (v, inl refl)
  on_reserved-Handling consumer ctx target s e none traced v =
      let (kept, sent) = route-Routed ctx target s e traced v in
      let q = after_handler-service _ e.message_id (route env ports ctx target s e) in
      subst
        (λ (t : Service P).
          Inv t × ((t.sent ≡ s.sent) ⊎ (◌≡◌ {A = Option (Unit {0})} none none × SentFor s ctx e t)))
        (sym q) (kept, inr (refl, sent))

  on_decoded-Handling :
      (consumer : Consumer) (ctx : Context) (target : String) (s : Service P)
      (r : Codec × Result Envelope)
      → ((e : Envelope) → r.1 ≡ ok e → e.correlation_id ≢ "")
      → Inv s
      → let t = (on_decoded consumer s (route env ports ctx target) r).1 in
        Inv t
        × ((t.sent ≡ s.sent)
            ⊎ ((e : Envelope) × (r.1 ≡ ok e)
                × (lookup e.message_id consumer.seen ≡ none)
                × SentFor s ctx e t))
  unfolding on_decoded reserve
  on_decoded-Handling consumer ctx target s (codec, err x) traced v = (v, inl refl)
  on_decoded-Handling consumer ctx target s (codec, ok e) traced v =
      let (kept, sent) =
        on_reserved-Handling (record consumer { codec = codec }) ctx target s e
          (lookup e.message_id consumer.seen) (traced e refl) v in
      (kept, of_sending sent)
    where
      of_sending :
          (((on_decoded consumer s (route env ports ctx target) (codec, ok e)).1).sent ≡ s.sent)
            ⊎ ((lookup e.message_id consumer.seen ≡ none)
                × SentFor s ctx e
                    (on_decoded consumer s (route env ports ctx target) (codec, ok e)).1)
          → (((on_decoded consumer s (route env ports ctx target) (codec, ok e)).1).sent ≡ s.sent)
            ⊎ ((f : Envelope) × (◌≡◌ {A = Result Envelope} (ok e) (ok f))
                × (lookup f.message_id consumer.seen ≡ none)
                × SentFor s ctx f
                    (on_decoded consumer s (route env ports ctx target) (codec, ok e)).1)
      of_sending (inl nothing) = inl nothing
      of_sending (inr (unseen, sent)) = inr (e, refl, unseen, sent)

  -- While no other call is at work on the command service, a message from the broker keeps the
  -- invariant of that service, and lets the executor have at most one command. If it has one, the
  -- codec accepted the payload as an envelope whose message was not in the window, and the command
  -- is the one that the decoder reads in the envelope's content, with a new identity if it had none:
  -- it carries the envelope's correlation, does not outlast the envelope, and passed every check of
  -- `Submit`, the safety policy's among them.
  pub handle-Handling :
      (consumer : Consumer) (s : Service P) (ctx : Context) (at : Time) (target : String)
      (payload : Payload)
      → Inv s
      → let t = (handle env ports consumer s ctx at target payload).1 in
        Inv t × Handling consumer s ctx at payload t
  unfolding handle consume
  handle-Handling consumer s ctx at target payload v =
      on_decoded-Handling consumer ctx target s (decode ports.json consumer.codec at payload)
        (λ e h. decoded_traced ports.json consumer.codec at payload e h) v
