-- ===== src/Scenarios/Data.antt =====
-- The data of the runs: a hazardous heater that needs water, its profile, and the sensor's answers.
use aqua_os.Common.{
  String, true, false, none, some, List, [], ◌∷◌, ok, err, Context, Duration, pos, state_not_found,
}
use aqua_os.Domain.Entity.{Capability, switch, command_acknowledgement, reported_state}
use aqua_os.Domain.Measurement.{good}
use aqua_os.Domain.Value.{Value, boolean_kind}
use aqua_os.State.Key.{Key, sensor, observation}
use aqua_os.State.Entry.{Entry, StateReader}
use aqua_os.Equipment.Profile.{Profile, InputRequirement, heater}
use aqua_os.Safety.Engine.{Engine, Intent, normal}

abbrev pub heater_id : String
heater_id = "00000000-0000-4000-8000-000000000001"

abbrev pub float_id : String
float_id = "00000000-0000-4000-8000-000000000002"

abbrev pub source_id : String
source_id = "00000000-0000-4000-8000-000000000003"

abbrev pub command_id : String
command_id = "00000000-0000-4000-8000-000000000004"

abbrev pub correlation : String
correlation = "00000000-0000-4000-8000-000000000005"

abbrev pub live_context : Context
live_context = record { cancelled = false }

abbrev pub minute : Duration
minute = pos 60000000000

abbrev pub controls : List Capability
controls = switch ∷ command_acknowledgement ∷ reported_state ∷ []

abbrev pub water : Key
water = record {
  entity_kind = sensor;
  entity_id = float_id;
  plane = observation;
  attribute = "level";
}

abbrev pub needs_water : InputRequirement
needs_water = record { key = water; require_boolean = some true }

abbrev pub heater_profile : Profile
heater_profile = record {
  equipment_id = heater_id;
  kind = heater;
  hazardous = true;
  fail_safe_on = false;
  capabilities = controls;
  limits = record { maximum_on = minute; maximum_daily_on = minute; minimum_off = pos 5 };
  required_inputs = needs_water ∷ [];
}

abbrev pub wet : Value
wet = record { kind = boolean_kind; quantity = none; boolean = some true; text = none }

abbrev pub water_entry : Entry
water_entry = record {
  key = water;
  value = wet;
  quality = good;
  observed_at = 10;
  received_at = 11;
  fresh_for = minute;
  source = source_id;
  revision = 1;
}

-- Every sensor answers that there is water.
abbrev pub flooded : StateReader
flooded key = ok water_entry

-- No sensor has reported.
abbrev pub silent : StateReader
silent key = err state_not_found

abbrev pub controller : Engine
controller = record {
  mode = normal;
  profiles = (heater_id, heater_profile) ∷ [];
  overrides = [];
  runtime = [];
  started = true;
}

abbrev pub switch_on : Intent
switch_on = record { equipment_id = heater_id; turn_on = true; issued_at = 100 }
