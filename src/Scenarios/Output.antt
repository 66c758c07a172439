-- ===== src/Scenarios/Output.antt =====
-- A command for the heater, through the service over the heater's controller.
use aqua_os.Common.{arith, unequal, ◌≡◌, refl, true, none, some, ok, string_eq}
use aqua_os.Common.Map.{lookup, insert}
use aqua_os.Domain.Ids.{is_hex, dash_at, strip, decodes, has_frame, validate_codes, validate_uuid}
use aqua_os.Events.Event.{validate_event, factory_new}
use aqua_os.Safety.Engine.{Engine}
use aqua_os.Safety.Accounting.{
  roll_date, add_elapsed, account_runtime, get_runtime, put_runtime, account, report,
  record_reported,
}
use aqua_os.Safety.Evaluate.{
  allow, judge_input, hard_limit_hit, hazard_check, decide, evaluate_known, evaluate,
  validate_inputs,
}
use aqua_os.Safety.Watchdog.{check_watchdogs}
use aqua_os.Output.Command.{
  Acknowledgement, acknowledged, succeeded, acknowledged_reason, reconciled, Command, CommandResult,
  validate_command,
}
use aqua_os.Output.Service.{
  Env, Service, deliver, publish_with, emit, record_result, move, transition,
}
use aqua_os.Output.Service.Ledger.{Inv}
use aqua_os.Output.Submit.{
  settle, hand_over, execute, on_decision, authorise, on_revision, check_revision, submit_new,
  by_key, on_valid, submit_valid, with_correlation, add_correlation, with_id, add_id, submit,
}
use aqua_os.Output.Submit.Outcome.{Submitted, submit-Submitted}
use aqua_os.Output.Submit.Delivery.{IsClear, Delivered, submit_again, submit_delivers}
use aqua_os.Output.Reconcile.{on_reported, reconcile_found, reconcile}
use aqua_os.Output.Reconcile.Success.{Confirms, reconcile-Settles}
use aqua_os.Output.Reach.{
  new_service, Reach, here, next, submits, reconciles, Succeeds, Step-Succeeds,
  reachable_service-Inv,
}
use aqua_os.Common.{[], ◌∷◌}
use aqua_os.Scenarios.Data.{heater_id, command_id, correlation, live_context, flooded, controller}

-- The clock stands at 120, the executor accepts at 150, the publisher takes every event.
abbrev pub env : Env Engine
env = record {
  evaluate = evaluate flooded;
  record_reported = record_reported;
  check_watchdogs = check_watchdogs;
  revision = λ n. ok 7;
  dispatch = λ n c. ok (record { accepted = true; reason = ""; acknowledged_at = 150 });
  publish = some (λ n e. ok tt);
  clock = λ n. 120;
  new_command_id = λ n. ok command_id;
  new_correlation_id = λ n. ok correlation;
  encode = λ r. ok "{}";
  json_valid = λ text. true;
}

abbrev pub warm_up : Command
warm_up = record {
  id = "";
  idempotency_key = "warm-1";
  correlation_id = "";
  equipment_id = heater_id;
  requester = "keeper";
  issued_at = 100;
  expires_at = 1000;
  expected_revision = some 7;
  turn_on = true;
}

abbrev pub start : Service Engine
start = new_service controller

pub start_holds : Inv start
start_holds = reachable_service-Inv env controller here

abbrev submitted : Service Engine
submitted = (submit env start live_context warm_up).0

abbrev pub named : Command
named = record warm_up { id = command_id; correlation_id = correlation }

abbrev acknowledged_result : CommandResult
acknowledged_result = record {
  command = named;
  status = acknowledged;
  reason = acknowledged_reason;
  updated_at = 120;
  acknowledged_at = some 150;
  reconciled_at = none;
}

warm_up_acknowledged : lookup command_id submitted.results ≡ some acknowledged_result
unfolding submit add_id with_id add_correlation with_correlation submit_valid on_valid by_key
    submit_new check_revision on_revision authorise on_decision execute hand_over settle
    record_result transition move emit publish_with deliver lookup insert validate_command
    validate_uuid validate_codes has_frame strip decodes is_hex dash_at validate_event factory_new
    evaluate evaluate_known account account_runtime roll_date add_elapsed get_runtime put_runtime
    decide hard_limit_hit hazard_check validate_inputs judge_input
warm_up_acknowledged = refl

warm_up_filed : lookup "warm-1" submitted.idempotency ≡ some command_id
unfolding submit add_id with_id add_correlation with_correlation submit_valid on_valid by_key
    submit_new check_revision on_revision authorise on_decision execute hand_over settle
    record_result transition move emit publish_with deliver lookup insert validate_command
    validate_uuid validate_codes has_frame strip decodes is_hex dash_at validate_event factory_new
    evaluate evaluate_known account account_runtime roll_date add_elapsed get_runtime put_runtime
    decide hard_limit_hit hazard_check validate_inputs judge_input
warm_up_filed = refl

submitted_reached : Reach env start submitted
submitted_reached = next here (submits live_context warm_up)

submitted_holds : Inv submitted
submitted_holds = reachable_service-Inv env controller submitted_reached

-- The heater reports that it is on.
abbrev confirmed : Service Engine
confirmed = (reconcile env submitted live_context command_id true 200).0

abbrev succeeded_result : CommandResult
succeeded_result = record acknowledged_result {
  status = succeeded;
  reason = reconciled;
  reconciled_at = some 200;
}

warm_up_succeeded : lookup command_id confirmed.results ≡ some succeeded_result
unfolding submit add_id with_id add_correlation with_correlation submit_valid on_valid by_key
    submit_new check_revision on_revision authorise on_decision execute hand_over settle
    record_result transition move emit publish_with deliver lookup insert validate_command
    validate_uuid validate_codes has_frame strip decodes is_hex dash_at validate_event factory_new
    evaluate evaluate_known account account_runtime roll_date add_elapsed get_runtime put_runtime
    decide hard_limit_hit hazard_check validate_inputs judge_input reconcile reconcile_found
    on_reported record_reported report
warm_up_succeeded = refl

submit-Submitted_example : Submitted env start live_context warm_up submitted
submit-Submitted_example = submit-Submitted env start live_context warm_up start_holds

reachable_service-Inv_example : Inv confirmed
reachable_service-Inv_example =
    reachable_service-Inv env controller
      (next submitted_reached (reconciles live_context command_id true 200))

reconcile-Settles_example :
    Inv confirmed
    × Confirms env submitted command_id true 200 confirmed
    × (confirmed.sent ≡ submitted.sent)
reconcile-Settles_example =
    reconcile-Settles env submitted live_context command_id true 200 submitted_holds

Step-Succeeds_example : Succeeds env submitted confirmed command_id succeeded_result
Step-Succeeds_example =
    Step-Succeeds env (reconciles live_context command_id true 200) command_id succeeded_result
      submitted_holds warm_up_succeeded refl

submit_again_example :
    submit env submitted live_context named ≡ (submitted, (some acknowledged_result, none))
submit_again_example =
    (submit_again env submitted live_context named command_id acknowledged_result refl
        (unequal command_id "" refl) (unequal correlation "" refl)
        (unfold validate_command validate_uuid validate_codes has_frame strip decodes is_hex
            dash_at in
          refl)
        warm_up_filed warm_up_acknowledged).0
      (record { key = refl; equipment = refl; requester = refl; on = refl })

-- Two calls that overlap, with one key: each looked the key up before the other one filed it. What is
-- left of the second call hands its command over as well.
overlap_sends_twice :
    (submit_new env (submit_new env start live_context named).0 live_context named).0.sent
    ≡ named ∷ named ∷ []
unfolding submit_new check_revision on_revision authorise on_decision execute hand_over settle
    record_result transition move emit publish_with deliver lookup insert validate_command
    validate_uuid validate_codes has_frame strip decodes is_hex dash_at validate_event factory_new
    evaluate evaluate_known account account_runtime roll_date add_elapsed get_runtime put_runtime
    decide hard_limit_hit hazard_check validate_inputs judge_input
overlap_sends_twice = refl

-- The same service without a publisher, for a request that asks for no revision.
abbrev quiet_env : Env Engine
quiet_env = record env { publish = none }

abbrev plain : Command
plain = record named { expected_revision = none }

abbrev accepted : Acknowledgement
accepted = record { accepted = true; reason = ""; acknowledged_at = 150 }

plain-IsClear : IsClear quiet_env start live_context plain
unfolding validate_command validate_uuid validate_codes has_frame strip decodes is_hex dash_at
    evaluate evaluate_known account account_runtime roll_date add_elapsed get_runtime put_runtime
    decide hard_limit_hit hazard_check validate_inputs judge_input lookup insert
plain-IsClear = record {
  live_context = refl;
  named = unequal command_id "" refl;
  traced = unequal correlation "" refl;
  valid = refl;
  unseen = refl;
  in_time = λ n. refl;
  unconditional = refl;
  permitted = λ n. (allow "", refl, refl);
}

submit_delivers_example :
    Delivered quiet_env start plain 150 (submit quiet_env start live_context plain)
submit_delivers_example =
    submit_delivers quiet_env start live_context plain accepted plain-IsClear refl
      (λ n. refl, refl, λ e. ground arith)
