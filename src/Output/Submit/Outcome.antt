-- ===== src/Output/Submit/Outcome.antt =====
-- internal/output/service.go: what any call of `Submit` does to the service.
use aqua_os.Common.{
  ◌≡◌, ◌≢◌, refl, ◌∙◌, String, true, Result, ok, err, string_eq, ◌==◌, if-elim, Context, ℕ, suc,
  context_cancelled, eq_iff, sym,
}
use aqua_os.Output.Command.{Command, validate_command}
use aqua_os.Output.Service.{Env, Service, Call, failure}
use aqua_os.Output.Service.Ledger.{Inv, Outcome, Outcome-refl, Outcome-touch}
use aqua_os.Output.Submit.Checks.{Cleared, at_tick, on_valid-Outcome}
use aqua_os.Output.Submit.{submit_valid, with_correlation, add_correlation, with_id, add_id, submit}

module _ {P : Type 0} (env : Env P) where
  -- The same request, with the identities that `Submit` adds where they were left out.
  abbrev pub SameRequest : Command → Command → Type 0
  SameRequest c d =
      (d.idempotency_key ≡ c.idempotency_key)
      × (d.equipment_id ≡ c.equipment_id)
      × (d.requester ≡ c.requester)
      × (d.issued_at ≡ c.issued_at)
      × (d.expires_at ≡ c.expires_at)
      × (d.expected_revision ≡ c.expected_revision)
      × (d.turn_on ≡ c.turn_on)
      × (c.id ≢ "" → d.id ≡ c.id)
      × (c.correlation_id ≢ "" → d.correlation_id ≡ c.correlation_id)

  SameRequest-refl : (c : Command) → SameRequest c c
  SameRequest-refl c = (refl, refl, refl, refl, refl, refl, refl, λ h. refl, λ h. refl)

  -- An identity that was left out is filled in.
  SameRequest-id :
      (c : Command) (id : String) → (c.id == "") ≡ true → SameRequest c (record c { id = id })
  SameRequest-id c id unnamed = (
    refl,
    refl,
    refl,
    refl,
    refl,
    refl,
    refl,
    λ h. absurd (h ((eq_iff c.id "").0 unnamed)),
    λ h. refl,
  )

  SameRequest-correlation :
      (c d : Command) (id : String)
      → (d.correlation_id == "") ≡ true
      → SameRequest c d
      → SameRequest c (record d { correlation_id = id })
  SameRequest-correlation c d id untraced (k, e, r, i, x, v, o, named, traced) = (
    k,
    e,
    r,
    i,
    x,
    v,
    o,
    named,
    λ h. absurd (h (sym (traced h) ∙ (eq_iff d.correlation_id "").0 untraced)),
  )

  -- What a call leaves, for the command that it made of the request.
  abbrev pub Submitted : Service P → Context → Command → Service P → Type 0
  Submitted s ctx c t = (d : Command) × SameRequest c d × Outcome (Cleared env s ctx d) d s t

  submit_valid-Submitted :
      (s : Service P) (n : ℕ) (ctx : Context) (c d : Command)
      → SameRequest c d
      → Inv s
      → Submitted s ctx c (submit_valid env (at_tick env s n) ctx d).0
  unfolding submit_valid
  submit_valid-Submitted s n ctx c d same v =
      (d, same, on_valid-Outcome env s n ctx d (validate_command d) refl v)

  -- Nothing but the clock's count moved.
  still :
      (s : Service P) (n : ℕ) (ctx : Context) (c d : Command)
      → SameRequest c d
      → Inv s
      → Submitted s ctx c (at_tick env s n)
  unfolding at_tick
  still s n ctx c d same v = (
    d,
    same,
    Outcome-touch (Cleared env s ctx d) d s s s.policy n (Outcome-refl (Cleared env s ctx d) d s v),
  )

  with_correlation-Submitted :
      (s : Service P) (n : ℕ) (ctx : Context) (c d : Command) (fresh : Result String)
      → (d.correlation_id == "") ≡ true
      → SameRequest c d
      → Inv s
      → Submitted s ctx c (with_correlation env (at_tick env s n) ctx d fresh).0
  unfolding with_correlation
  with_correlation-Submitted s n ctx c d (err x) untraced same v = still s n ctx c d same v
  with_correlation-Submitted s n ctx c d (ok id) untraced same v =
      submit_valid-Submitted s n ctx c (record d { correlation_id = id })
        (SameRequest-correlation c d id untraced same) v

  add_correlation-Submitted :
      (s : Service P) (n : ℕ) (ctx : Context) (c d : Command)
      → SameRequest c d
      → Inv s
      → Submitted s ctx c (add_correlation env (at_tick env s n) ctx d).0
  unfolding add_correlation at_tick
  add_correlation-Submitted s n ctx c d same v =
      if-elim (λ (out : Call env). Submitted s ctx c out.0) (d.correlation_id == "") _ _
        (λ untraced.
          with_correlation-Submitted s (suc n) ctx c d (env.new_correlation_id n) untraced same v)
        (λ _. submit_valid-Submitted s n ctx c d same v)

  with_id-Submitted :
      (s : Service P) (n : ℕ) (ctx : Context) (c : Command) (fresh : Result String)
      → (c.id == "") ≡ true
      → Inv s
      → Submitted s ctx c (with_id env (at_tick env s n) ctx c fresh).0
  unfolding with_id
  with_id-Submitted s n ctx c (err x) unnamed v = still s n ctx c c (SameRequest-refl c) v
  with_id-Submitted s n ctx c (ok id) unnamed v =
      add_correlation-Submitted s n ctx c (record c { id = id }) (SameRequest-id c id unnamed) v

  add_id-Submitted :
      (s : Service P) (ctx : Context) (c : Command)
      → Inv s
      → Submitted s ctx c (add_id env s ctx c).0
  unfolding add_id at_tick
  add_id-Submitted s ctx c v =
      if-elim (λ (out : Call env). Submitted s ctx c out.0) (c.id == "") _ _
        (λ unnamed. with_id-Submitted s (suc s.ticks) ctx c (env.new_command_id s.ticks) unnamed v)
        (λ _. add_correlation-Submitted s s.ticks ctx c c (SameRequest-refl c) v)

  -- From consistent records and with no other call at work on the service, whatever `Submit` answers,
  -- the records stay consistent and no command becomes a success. The executor gets nothing, or the
  -- request with its missing identities filled in: then it is valid, its key was not filed before, a
  -- reading of the clock was before its expiry, a revision that it asked for was the current one,
  -- and the safety policy allowed it.
  pub submit-Submitted :
      (s : Service P) (ctx : Context) (c : Command)
      → Inv s
      → Submitted s ctx c (submit env s ctx c).0
  unfolding submit at_tick
  submit-Submitted s ctx c v =
      if-elim (λ (out : Call env). Submitted s ctx c out.0) ctx.cancelled
        (s, failure context_cancelled) (add_id env s ctx c)
        (λ _. still s s.ticks ctx c c (SameRequest-refl c) v) (λ _. add_id-Submitted s ctx c v)
