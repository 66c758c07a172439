-- ===== src/Scenarios/Bench.antt =====
-- A Shelly plug that fails, stays failed, recovers and fails again.
use aqua_os.Common.{◌≡◌, refl, true, false, Bool, Time, List, [], ◌∷◌, map, ok, pos, string_eq}
use aqua_os.Common.Map.{lookup}
use aqua_os.Bench.Coordinator.{ShellyEndpoint, Ports, Coordinator}
use aqua_os.Bench.Coordinator.Edges.{Poll, poll_all, edges, asked_of, poll_all-edges}
use aqua_os.Scenarios.Data.{heater_id, source_id, live_context}

abbrev plug : ShellyEndpoint
plug = record {
  id = source_id;
  equipment_id = heater_id;
  poll_interval = pos 100;
  request_timeout = pos 50;
  safe_on = false;
}

abbrev ports : Ports (Unit {0})
ports = record {
  set = λ w c e. (tt, ok tt);
  register_rule = λ w c r. (tt, ok tt);
  observe = λ w c o. (tt, ok tt);
  submit = λ w c d. (tt, ok tt);
  unix_nano = λ t. "0";
}

abbrev bench : Coordinator (Unit {0})
bench = record {
  world = tt;
  shelly_rules = (source_id, "rule") ∷ [];
  shelly_endpoints = (source_id, plug) ∷ [];
  shelly_active = [];
  esp_rules = [];
  esp_endpoints = [];
  requested = [];
}

abbrev poll : Bool → Time → Poll
poll active at = record { endpoint = plug; active = active; reason = "fault"; at = at }

abbrev polls : List Poll
polls = poll true 50 ∷ poll false 40 ∷ poll true 30 ∷ poll true 20 ∷ poll false 10 ∷ []

edges_of_polls : edges polls ≡ (heater_id, false, 50) ∷ (heater_id, false, 20) ∷ []
edges_of_polls = refl

poll_all-edges_example :
    map asked_of (poll_all ports live_context bench polls).requested ≡ edges polls
unfolding lookup
poll_all-edges_example =
    poll_all-edges ports live_context bench polls (record { idle = refl; silent = refl })
      (("rule", refl), (("rule", refl), (("rule", refl), (("rule", refl), (("rule", refl), tt)))))
