-- ===== src/Bench/Coordinator/Edges.antt =====
-- internal/bench/coordinator.go: when a failure asks for the safe state.
use aqua_os.Common.{
  String, ◌≡◌, refl, sym, ap, ◌∙◌, Bool, true, false, not, ◌&&◌, ◌||◌, Option, none, some, List, [],
  ◌∷◌, Check, Context, Time, All, if-elim, if◌then◌else◌, ◌==◌, string_eq, map,
}
use aqua_os.Common.Map.{Map, lookup, insert, lookup-insert, Has}
use aqua_os.Output.Command.{Command}
use aqua_os.Bench.Coordinator.{
  ShellyEndpoint, Ports, Coordinator, flag, Outcome, safe_command, request_safe, on_observed,
  fail_known, shelly_failure,
}

if_quiet {ℓ} :
    {A : Type ℓ} (active was : Bool) (x y : A)
    → (not active || was) ≡ true
    → (if active && not was then x else y) ≡ y
if_quiet true true x y h = refl
if_quiet true false x y h = cc
if_quiet false was x y h = refl

if_edge {ℓ} :
    {A : Type ℓ} (active was : Bool) (x y : A)
    → (not active || was) ≡ false
    → (if active && not was then x else y) ≡ x
if_edge true true x y h = cc
if_edge true false x y h = refl
if_edge false was x y h = cc

-- A poll of an endpoint: what `ShellyFailure` is told.
pub record Poll : Type 0 where
  pub endpoint : ShellyEndpoint
  pub active : Bool
  pub reason : String
  pub at : Time

-- The endpoint's last poll reported a failure.
abbrev pub failing : String → List Poll → Bool
failing id [] = false
failing id (p ∷ before) = if p.endpoint.id == id then p.active else failing id before

-- What a command asks for: which equipment, the state, and when.
abbrev pub asked_of : Command → String × Bool × Time
asked_of c = (c.equipment_id, c.turn_on, c.issued_at)

-- The safe states that the polls call for: one for each poll that reports a failure of an
-- endpoint whose poll before did not.
abbrev pub edges : List Poll → List (String × Bool × Time)
edges [] = []
edges (p ∷ before) =
    if p.active && not (failing p.endpoint.id before)
    then (p.endpoint.equipment_id, p.endpoint.safe_on, p.at) ∷ edges before
    else edges before

module _ {W : Type 0} (ports : Ports W) (ctx : Context) where
  -- The polls in their order, the last one first in the list.
  unfoldable pub poll_all : Coordinator W → List Poll → Coordinator W
  poll_all c [] = c
  poll_all c (p ∷ before) =
      (shelly_failure ports (poll_all c before) ctx p.endpoint p.active p.reason p.at).0

  -- The safe commands that the polls call for.
  abbrev called_for : List Poll → List Command
  called_for [] = []
  called_for (p ∷ before) =
      if p.active && not (failing p.endpoint.id before)
      then safe_command ports p.endpoint p.at ∷ called_for before
      else called_for before

  -- A coordinator before its first poll.
  pub record IsFresh (c : Coordinator W) : Type 0 where
    pub idle : c.shelly_active ≡ []
    pub silent : c.requested ≡ []

  -- What holds after polls.
  record Tracks (rules : Map String String) (polls : List Poll) (c : Coordinator W) : Type 0 where
    ruled : c.shelly_rules ≡ rules
    flags : (id : String) → flag (lookup id c.shelly_active) ≡ failing id polls
    asked : c.requested ≡ called_for polls

  flags-after :
      (polls : List Poll) (p : Poll) (m : Map String Bool)
      → ((id : String) → flag (lookup id m) ≡ failing id polls)
      → (id : String) → flag (lookup id (insert p.endpoint.id p.active m)) ≡ failing id (p ∷ polls)
  flags-after polls p m h id = rw (lookup-insert p.endpoint.id id p.active m) (
      if-elim
        (λ (b : Option Bool). flag b ≡ (if p.endpoint.id == id then p.active else failing id polls))
        (p.endpoint.id == id) (some p.active) (lookup id m) (λ hit. rw hit refl)
        (λ miss. rw miss (h id)))

  on_observed-Tracks :
      (rules : Map String String) (before : List Poll) (p : Poll) (c : Coordinator W)
      (r : W × Check)
      → Tracks rules before c
      → Tracks rules (p ∷ before) (on_observed ports c ctx p.endpoint p.active p.at r).0
  unfolding on_observed request_safe
  on_observed-Tracks rules before p c (world, answer) t =
      let later = flags-after before p c.shelly_active t.flags in
      let was = t.flags p.endpoint.id in
      if-elim (λ (o : Outcome ports). Tracks rules (p ∷ before) o.0)
        (not p.active || flag (lookup p.endpoint.id c.shelly_active)) _ _
        (λ quiet. record {
          ruled = t.ruled;
          flags = later;
          asked =
              t.asked
              ∙ sym (if_quiet p.active (failing p.endpoint.id before) _ _ (rw was at quiet));
        })
        (λ edge. record {
          ruled = t.ruled;
          flags = later;
          asked =
              ap (λ cs. safe_command ports p.endpoint p.at ∷ cs) t.asked
              ∙ sym (if_edge p.active (failing p.endpoint.id before) _ _ (rw was at edge));
        })

  fail_known-Tracks :
      (rules : Map String String) (before : List Poll) (p : Poll) (c : Coordinator W)
      (found : Option String) (rule_id : String)
      → found ≡ some rule_id
      → Tracks rules before c
      → Tracks rules (p ∷ before) (fail_known ports c ctx p.endpoint p.active p.reason p.at found).0
  unfolding fail_known
  fail_known-Tracks rules before p c none rule_id q t = cc
  fail_known-Tracks rules before p c (some id) rule_id q t =
      on_observed-Tracks rules before p c (ports.observe c.world ctx _) t

  poll_all-Tracks :
      (c : Coordinator W) (polls : List Poll)
      → IsFresh c
      → All (λ (p : Poll). Has c.shelly_rules p.endpoint.id) polls
      → Tracks c.shelly_rules polls (poll_all c polls)
  unfolding poll_all shelly_failure lookup
  poll_all-Tracks c [] fresh known = record {
    ruled = refl;
    flags = λ id. rw fresh.idle refl;
    asked = fresh.silent;
  }
  poll_all-Tracks c (p ∷ before) fresh ((rule_id, ruled), known) =
      let t = poll_all-Tracks c before fresh known in
      fail_known-Tracks c.shelly_rules before p (poll_all c before) _ rule_id
        (ap (lookup p.endpoint.id) t.ruled ∙ ruled) t

  called_for-edges : (polls : List Poll) → map asked_of (called_for polls) ≡ edges polls
  unfolding safe_command
  called_for-edges [] = refl
  called_for-edges (p ∷ before) =
      if-elim (λ (cs : List Command). map asked_of cs ≡ edges (p ∷ before))
        (p.active && not (failing p.endpoint.id before)) _ _
        (λ edge. rw edge (
          ap
            (λ (rs : List (String × Bool × Time)).
              (p.endpoint.equipment_id, p.endpoint.safe_on, p.at) ∷ rs)
            (called_for-edges before)))
        (λ quiet. rw quiet (called_for-edges before))

  -- Whatever the alarm engine and the command service answer, polls of configured endpoints ask for
  -- exactly one safe command at each poll that reports a failure of an endpoint whose poll before
  -- did not report one, in the order of the polls, and for none at any other poll. The command sets
  -- the endpoint's equipment to the endpoint's safe state, and is issued at the time of the poll.
  pub poll_all-edges :
      (c : Coordinator W) (polls : List Poll)
      → IsFresh c
      → All (λ (p : Poll). Has c.shelly_rules p.endpoint.id) polls
      → map asked_of (poll_all c polls).requested ≡ edges polls
  poll_all-edges c polls fresh known =
      ap (map asked_of) (poll_all-Tracks c polls fresh known).asked ∙ called_for-edges polls
