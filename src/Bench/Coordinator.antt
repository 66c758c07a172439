-- ===== src/Bench/Coordinator.antt =====
-- internal/bench/coordinator.go: adapter observations become canonical state, alarm observations and
-- safe commands. The state writer, the alarm engine and the command service are the ports of a world
-- `W`; the commands that were asked for are recorded, newest first. Go's maps may be walked in any
-- order: here it is that of the registration. Endpoints are the policies' parts that this code
-- reads (internal/adapters/shelly/adapter.go and esp32/adapter.go).
pub mod Edges
use Prim.Native.String.{◌++◌ as text_append}
use aqua_os.Common.{
  ℕ, String, Bool, true, false, not, ◌&&◌, ◌||◌, Option, none, some, List, [], ◌∷◌, ◌++◌, Result,
  ok, err, ◌>>=◌, ◌>>◌, Check, Error, duplicate_policy, unknown_endpoint, Context, Time, Duration,
  pos, add_time, add_duration, if◌then◌else◌, ◌==◌, string_eq,
}
use aqua_os.Common.Map.{Map, lookup, insert}
use aqua_os.Domain.Ids.{validate_uuid}
use aqua_os.Domain.Float.{Float64}
use aqua_os.Domain.Measurement.{
  QuantityKind, power, voltage, current, temperature, QuantityUnit, watts, volts, amperes, celsius,
  Quantity, validate_quantity, Measurement, Quality, good, unavailable,
}
use aqua_os.Domain.Value.{Value, new_boolean_value, new_quantity_value}
use aqua_os.State.Key.{Key, EntityKind, equipment, sensor, Plane, reported, observation}
use aqua_os.State.Entry.{Entry}
use aqua_os.Events.Event.{critical, other_severity}
use aqua_os.Alarms.Alarm.{Rule, Observation}
use aqua_os.Output.Command.{Command}

pub record ShellyEndpoint : Type 0 where
  pub id : String
  pub equipment_id : String
  pub poll_interval : Duration
  pub request_timeout : Duration
  pub safe_on : Bool

pub record ShellyReport : Type 0 where
  pub endpoint_id : String
  pub equipment_id : String
  pub on : Bool
  pub active_power : Float64
  pub line_voltage : Float64
  pub line_current : Float64
  pub observed_at : Time
  pub desired_on : Option Bool
  pub pending : Bool
  pub errors : List String

pub record EspEndpoint : Type 0 where
  pub id : String
  pub device_id : String
  pub first_probe : String
  pub second_probe : String
  pub fresh_for : Duration

pub record ShellyPolicy : Type 0 where
  pub endpoint : ShellyEndpoint
  pub rule_id : String

pub record EspPolicy : Type 0 where
  pub endpoint : EspEndpoint
  pub rule_id : String

-- The ports, with the decimal text of a time in nanoseconds since 1970.
pub record Ports (W : Type 0) : Type 0 where
  pub set : W → Context → Entry → W × Check
  pub register_rule : W → Context → Rule → W × Check
  pub observe : W → Context → Observation → W × Check
  pub submit : W → Context → Command → W × Check
  pub unix_nano : Time → String

pub record Coordinator (W : Type 0) : Type 0 where
  pub world : W
  pub shelly_rules : Map String String
  pub shelly_endpoints : Map String ShellyEndpoint
  pub shelly_active : Map String Bool
  pub esp_rules : Map String String
  pub esp_endpoints : Map String EspEndpoint
  pub requested : List Command

-- `v, exists := m[k]` and the zero value of a missing flag.
abbrev pub flag : Option Bool → Bool
flag none = false
flag (some b) = b

-- `2 * d` on int64.
abbrev twice : Duration → Duration
twice d = add_duration d d

abbrev failed : Check → List Error
failed (ok _) = []
failed (err x) = x ∷ []

module _ {W : Type 0} where
  abbrev empty : W → Coordinator W
  empty world = record {
    world = world;
    shelly_rules = [];
    shelly_endpoints = [];
    shelly_active = [];
    esp_rules = [];
    esp_endpoints = [];
    requested = [];
  }

  unfoldable pub add_shelly :
      Coordinator W → ShellyPolicy → Check → Option String → Result (Coordinator W)
  add_shelly c p (err x) found = err x
  add_shelly c p (ok _) (some old) = err duplicate_policy
  add_shelly c p (ok _) none = ok (record c {
    shelly_rules = insert p.endpoint.id p.rule_id c.shelly_rules;
    shelly_endpoints = insert p.endpoint.id p.endpoint c.shelly_endpoints;
  })

  unfoldable pub add_shellies : Coordinator W → List ShellyPolicy → Result (Coordinator W)
  add_shellies c [] = ok c
  add_shellies c (p ∷ ps) = do
    d ← add_shelly c p (validate_uuid p.rule_id) (lookup p.endpoint.id c.shelly_rules)
    add_shellies d ps

  unfoldable pub add_esp :
      Coordinator W → EspPolicy → Check → Option String → Result (Coordinator W)
  add_esp c p (err x) found = err x
  add_esp c p (ok _) (some old) = err duplicate_policy
  add_esp c p (ok _) none = ok (record c {
    esp_rules = insert p.endpoint.id p.rule_id c.esp_rules;
    esp_endpoints = insert p.endpoint.id p.endpoint c.esp_endpoints;
  })

  unfoldable pub add_esps : Coordinator W → List EspPolicy → Result (Coordinator W)
  add_esps c [] = ok c
  add_esps c (p ∷ ps) = do
    d ← add_esp c p (validate_uuid p.rule_id) (lookup p.endpoint.id c.esp_rules)
    add_esps d ps

  -- `NewCoordinator`.
  unfoldable pub new_coordinator : W → List ShellyPolicy → List EspPolicy → Result (Coordinator W)
  new_coordinator world shellies esps = do c ← add_shellies (empty world) shellies; add_esps c esps

module _ {W : Type 0} (ports : Ports W) where
  abbrev pub Outcome : Type 0
  Outcome = Coordinator W × List Error

  unfoldable pub fault_observation : String → Bool → String → String → Time → Observation
  fault_observation rule_id active reason message at = record {
    rule_id = rule_id;
    active = active;
    severity = other_severity "";
    observed_at = at;
    evidence = record { code = reason; message = message };
    correlation_id = "";
  }

  -- The safe command of a failure.
  unfoldable pub safe_command : ShellyEndpoint → Time → Command
  safe_command e at = record {
    id = "";
    idempotency_key =
        text_append "adapter-failure/" (text_append e.id (text_append "/" (ports.unix_nano at)));
    correlation_id = "";
    equipment_id = e.equipment_id;
    requester = "adapter-failure-policy";
    issued_at = at;
    expires_at = add_time at (twice e.request_timeout);
    expected_revision = none;
    turn_on = e.safe_on;
  }

  unfoldable pub request_safe :
      Coordinator W → Context → ShellyEndpoint → Time → List Error → Outcome
  request_safe c ctx e at errors =
      let command = safe_command e at in
      let (world, answer) = ports.submit c.world ctx command in
      (record c { world = world; requested = command ∷ c.requested }, errors ++ failed answer)

  -- After the alarm engine's answer.
  unfoldable pub on_observed :
      Coordinator W → Context → ShellyEndpoint → Bool → Time → W × Check → Outcome
  on_observed c ctx e active at (world, answer) =
      let was_active = flag (lookup e.id c.shelly_active) in
      let d = record c { world = world; shelly_active = insert e.id active c.shelly_active } in
      if not active || was_active
      then (d, failed answer)
      else request_safe d ctx e at (failed answer)

  unfoldable pub fail_known :
      Coordinator W → Context → ShellyEndpoint → Bool → String → Time → Option String → Outcome
  fail_known c ctx e active reason at none = (c, unknown_endpoint ∷ [])
  fail_known c ctx e active reason at (some rule_id) = on_observed c ctx e active at (
      ports.observe c.world ctx (
        fault_observation rule_id active reason "Shelly reported a protection or connection fault"
          at))

  -- `ShellyFailure`.
  unfoldable pub shelly_failure :
      Coordinator W → Context → ShellyEndpoint → Bool → String → Time → Outcome
  shelly_failure c ctx e active reason at =
      fail_known c ctx e active reason at (lookup e.id c.shelly_rules)

  -- `NewQuantity`.
  unfoldable pub new_quantity : QuantityKind → Float64 → QuantityUnit → Result Quantity
  new_quantity kind value units = do
    let q : Quantity = record { kind = kind; value = value; units = units }
    validate_quantity q
    ok q

  -- The attributes of a report with their values, or the refusal of one.
  unfoldable pub report_values : ShellyReport → Result (List (String × Value))
  unfolding new_quantity
  report_values r = do
    p ← new_quantity power r.active_power watts
    v ← new_quantity voltage r.line_voltage volts
    a ← new_quantity current r.line_current amperes
    ok (
        ("on", new_boolean_value r.on)
        ∷ ("power", new_quantity_value p)
        ∷ ("voltage", new_quantity_value v)
        ∷ ("current", new_quantity_value a)
        ∷ [])

  abbrev report_entry : ShellyReport → Duration → String → Value → Entry
  report_entry r fresh_for attribute value = record {
    key = record {
      entity_kind = equipment;
      entity_id = r.equipment_id;
      plane = reported;
      attribute = attribute;
    };
    value = value;
    quality = good;
    observed_at = r.observed_at;
    received_at = r.observed_at;
    fresh_for = fresh_for;
    source = r.endpoint_id;
    revision = 0;
  }

  abbrev next_write : W × Check → (W → W × Check) → W × Check
  next_write (w, err x) rest = (w, err x)
  next_write (w, ok _) rest = rest w

  -- The loop over the values, up to the first refusal.
  unfoldable pub write_each :
      W → Context → ShellyReport → Duration → List (String × Value) → W × Check
  write_each w ctx r fresh_for [] = (w, ok tt)
  write_each w ctx r fresh_for ((attribute, value) ∷ values) =
      next_write (ports.set w ctx (report_entry r fresh_for attribute value))
        (λ w'. write_each w' ctx r fresh_for values)

  -- `strings.Join(errors, "+")`.
  unfoldable pub join_plus : List String → String
  join_plus [] = ""
  join_plus (s ∷ []) = s
  join_plus (s ∷ t ∷ ss) = text_append s (text_append "+" (join_plus (t ∷ ss)))

  abbrev or_safe : Option Bool → Bool → Bool
  or_safe none safe = safe
  or_safe (some on) safe = on

  abbrev same : Bool → Bool → Bool
  same true b = b
  same false b = not b

  -- What a report says of the endpoint once its values are written.
  unfoldable pub compare_report :
      Coordinator W → Context → ShellyEndpoint → ShellyReport → List String → Outcome
  compare_report c ctx e r (x ∷ xs) =
      shelly_failure c ctx e true (text_append "shelly.protection." (join_plus (x ∷ xs)))
        r.observed_at
  compare_report c ctx e r [] =
      let desired = or_safe r.desired_on e.safe_on in
      if not r.pending && not (same r.on desired)
      then shelly_failure c ctx e true "shelly.reported_divergence" r.observed_at
      else if same r.on desired
      then shelly_failure c ctx e false "shelly.reported_converged" r.observed_at
      else (c, [])

  unfoldable pub on_written :
      Coordinator W → Context → ShellyEndpoint → ShellyReport → W × Check → Outcome
  on_written c ctx e r (world, err x) = (record c { world = world }, x ∷ [])
  on_written c ctx e r (world, ok _) = compare_report (record c { world = world }) ctx e r r.errors

  unfoldable pub write_values :
      Coordinator W
      → Context
      → ShellyEndpoint
      → ShellyReport
      → Result (List (String × Value))
      → Outcome
  write_values c ctx e r (err x) = (c, x ∷ [])
  write_values c ctx e r (ok values) =
      on_written c ctx e r (write_each c.world ctx r (twice e.poll_interval) values)

  unfoldable pub report_known :
      Coordinator W → Context → ShellyReport → Option ShellyEndpoint → Outcome
  report_known c ctx r none = (c, unknown_endpoint ∷ [])
  report_known c ctx r (some e) =
      if not (e.equipment_id == r.equipment_id)
      then (c, unknown_endpoint ∷ [])
      else write_values c ctx e r (report_values r)

  -- `ReportShelly`.
  unfoldable pub report_shelly : Coordinator W → Context → ShellyReport → Outcome
  report_shelly c ctx r = report_known c ctx r (lookup r.endpoint_id c.shelly_endpoints)

  -- `RegisterRules`: the rules of the two kinds of endpoint, up to the first refusal.
  abbrev latching_rule : String → String → String → String → String → Rule
  latching_rule id code name kind entity = record {
    id = id;
    code = code;
    name = name;
    subject = record { kind = kind; id = entity };
    severity = critical;
    debounce = pos 0;
    hysteresis = pos 0;
    latching = true;
  }

  abbrev equipment_of : Option ShellyEndpoint → String
  equipment_of none = ""
  equipment_of (some e) = e.equipment_id

  abbrev device_of : Option EspEndpoint → String
  device_of none = ""
  device_of (some e) = e.device_id

  unfoldable pub register_shellies :
      W → Context → Map String ShellyEndpoint → Map String String → W × Check
  register_shellies w ctx endpoints [] = (w, ok tt)
  register_shellies w ctx endpoints ((id, rule_id) ∷ rules) =
      next_write
        (ports.register_rule w ctx (
          latching_rule rule_id "shelly.protection_or_connection_fault"
            "Shelly protection or connection fault" "equipment"
            (equipment_of (lookup id endpoints))))
        (λ w'. register_shellies w' ctx endpoints rules)

  unfoldable pub register_esps :
      W → Context → Map String EspEndpoint → Map String String → W × Check
  register_esps w ctx endpoints [] = (w, ok tt)
  register_esps w ctx endpoints ((id, rule_id) ∷ rules) =
      next_write
        (ports.register_rule w ctx (
          latching_rule rule_id "esp32.node_unhealthy" "ESP32 sensor node unhealthy" "device"
            (device_of (lookup id endpoints))))
        (λ w'. register_esps w' ctx endpoints rules)

  unfoldable pub register_rules : Coordinator W → Context → Coordinator W × Check
  register_rules c ctx =
      let (world, answer) =
        next_write (register_shellies c.world ctx c.shelly_endpoints c.shelly_rules)
          (λ w. register_esps w ctx c.esp_endpoints c.esp_rules) in
      (record c { world = world }, answer)

  abbrev probe_entry : String → Value → Quality → Time → Time → Duration → String → Entry
  probe_entry sensor_id value quality observed_at received_at fresh_for source = record {
    key = record {
      entity_kind = sensor;
      entity_id = sensor_id;
      plane = observation;
      attribute = "measurement";
    };
    value = value;
    quality = quality;
    observed_at = observed_at;
    received_at = received_at;
    fresh_for = fresh_for;
    source = source;
    revision = 0;
  }

  unfoldable pub measure_known :
      Coordinator W → Context → String → Measurement → Option EspEndpoint → Coordinator W × Check
  measure_known c ctx id m none = (c, err unknown_endpoint)
  measure_known c ctx id m (some e) =
      let (world, answer) = ports.set c.world ctx (
        probe_entry m.sensor_id (new_quantity_value m.value) m.quality m.observed_at m.received_at
          m.fresh_for id) in
      (record c { world = world }, answer)

  -- `ReportESP32`.
  unfoldable pub report_esp : Coordinator W → Context → String → Measurement → Coordinator W × Check
  report_esp c ctx id m = measure_known c ctx id m (lookup id c.esp_endpoints)

  -- The loop over the two probes, whose errors are joined.
  unfoldable pub mark_probes :
      W → Context → EspEndpoint → Quantity → Time → List String → W × List Error
  mark_probes w ctx e q at [] = (w, [])
  mark_probes w ctx e q at (probe ∷ probes) =
      let (w', answer) =
        ports.set w ctx
          (probe_entry probe (new_quantity_value q) unavailable at at e.fresh_for e.id) in
      let (last, errors) = mark_probes w' ctx e q at probes in (last, failed answer ++ errors)

  unfoldable pub mark_with : W → Context → EspEndpoint → Time → Result Quantity → W × List Error
  mark_with w ctx e at (err x) = (w, x ∷ [])
  mark_with w ctx e at (ok q) = mark_probes w ctx e q at (e.first_probe ∷ e.second_probe ∷ [])

  -- The zero of float64.
  abbrev zero_float : Float64
  zero_float = 0

  unfoldable pub esp_known :
      Coordinator W → Context → EspEndpoint → Bool → String → Time → Option String → Outcome
  esp_known c ctx e active reason at none = (c, unknown_endpoint ∷ [])
  esp_known c ctx e active reason at (some rule_id) =
      let (marked, errors) =
        if active
        then mark_with c.world ctx e at (new_quantity temperature zero_float celsius)
        else (c.world, []) in
      let (world, answer) =
        ports.observe marked ctx
          (fault_observation rule_id active reason "ESP32 node or probe condition" at) in
      (record c { world = world }, errors ++ failed answer)

  -- `ESP32Failure`.
  unfoldable pub esp_failure :
      Coordinator W → Context → EspEndpoint → Bool → String → Time → Outcome
  esp_failure c ctx e active reason at =
      esp_known c ctx e active reason at (lookup e.id c.esp_rules)
