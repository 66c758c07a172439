-- ===== src/Scenarios/Health.antt =====
-- A controller whose optional camera is out of order.
use aqua_os.Common.{◌≡◌, refl, true, false, [], ◌∷◌, All}
use aqua_os.Health.Report.{
  healthy_state, degraded, unhealthy, Registration, Manager, normalize, assess, assess_all, report,
}
use aqua_os.Health.Report.Ready.{IsServing, report-ready_iff}

abbrev camera : Registration
camera = record {
  health = record {
    name = "camera";
    state = unhealthy;
    healthy = false;
    message = "";
    checked_at = 5;
  };
  required = false;
}

abbrev engine : Registration
engine = record {
  health = record {
    name = "safety";
    state = healthy_state;
    healthy = true;
    message = "";
    checked_at = 5;
  };
  required = true;
}

abbrev controller : Manager
controller = record { components = camera ∷ engine ∷ []; started = true }

camera_degrades : (report controller 9).state ≡ degraded
unfolding report assess_all assess normalize
camera_degrades = refl

report-ready_iff_example : (true ≡ true) × All IsServing (camera ∷ engine ∷ [])
unfolding report assess_all assess normalize
report-ready_iff_example = (report-ready_iff controller 9).0 refl
