-- ===== src/Tests/Service.antt =====
-- The service over time: the demo data and two critical events, and what holds then.
use mathlib.Core.List.{Perm, Pairwise}
use support_operations_intel.Models.States.{succeeded}
use support_operations_intel.Prelude.{
  [], arith, none, some, refl, ◌≡◌, true, false, text_le, leb, List, map,
}
use support_operations_intel.Samples.{clock_at, sqlite, sqlite-IsEngine}
use support_operations_intel.Models.Database.{
  session_scope_from, Database, empty_database, ok, session_scope,
}
use support_operations_intel.Models.Engine.{Clock}
use support_operations_intel.Models.Tables.{Action}
use support_operations_intel.Schemas.{EventCreate, event_is_valid}
use support_operations_intel.Schemas.Responses.{action_read, asset_read, incident_read, rule_read}
use support_operations_intel.Idempotency.{released, left_by, Others, process_with_idempotency}
use support_operations_intel.Idempotency.Outcomes.{Refines, outcome_for, IsSettled}
use support_operations_intel.Idempotency.Refines.{process_with_idempotency-Refines}
use support_operations_intel.Integrity.Events.{HasUuids}
use support_operations_intel.Integrity.Fits.{IsFit}
use support_operations_intel.Integrity.Sound.{IsSound}
use support_operations_intel.Service.{Reach, fresh, posts_event, seeds}
use support_operations_intel.Service.Invariant.{Reach-IsFit, Reach-IsSound}
use support_operations_intel.Api.Listings.{Lists, list_routes-Lists}
use support_operations_intel.Api.Reads.{list_actions, list_assets, list_incidents, list_rules}
use support_operations_intel.Api.Desk.{post_event, seed}
use support_operations_intel.Seed.{seed_demo_data}
use support_operations_intel.Prelude.{All}
use support_operations_intel.Actions.{Policy, execute_action_with_retry}
use support_operations_intel.Actions.Retries.{Ends}
use support_operations_intel.Service.Liveness.{Reach-Ends}
use support_operations_intel.Service.History.{KeepsHistory, requests-KeepHistory}
use support_operations_intel.Schemas.{check_is_valid, CheckCreate, CheckTransition}
use support_operations_intel.Worker.{run_once}
use support_operations_intel.Api.{transition_check_run}
use support_operations_intel.Api.Desk.{create_check_run, expire_check_timeouts, health_sweep}
use support_operations_intel.Cli.{demo_policy, run_demo}
use support_operations_intel.Cli.Shows.{run_demo_lem}

abbrev payload : EventCreate
payload = record {
  asset_external_id = "PUMP-101";
  source = "north-gateway";
  category = "offline";
  severity = 92;
  message = "Synthetic heartbeat failure detected";
  executor_mode = "success";
  idempotency_key = some "intent-demo-0001";
  correlation_id = none;
}

abbrev clock : Clock
clock = clock_at 2_000_000_000

abbrev alone : Others
alone = record { claimed = λ key. false; seen = λ n. empty_database }

uuids : HasUuids sqlite
uuids = λ n. refl

valid : event_is_valid payload ≡ true
unfolding event_is_valid
valid = refl

demo : Database
unfolding seed session_scope seed_demo_data
demo = (session_scope (seed sqlite) empty_database).1

after_event : Database
unfolding demo post_event
after_event =
    (session_scope_from (left_by sqlite clock alone payload.idempotency_key demo)
      (post_event sqlite clock alone 10 payload) demo).1

reached : Reach sqlite after_event
unfolding after_event demo
reached = posts_event (seeds fresh) clock alone 10 payload valid (λ n. fresh)

Reach-IsSound_example : IsSound after_event
Reach-IsSound_example = Reach-IsSound sqlite sqlite-IsEngine uuids reached

Reach-IsFit_example : IsFit after_event
Reach-IsFit_example = Reach-IsFit sqlite sqlite-IsEngine uuids reached

abbrev policy : Policy
policy = demo_policy

Reach-Ends_example :
    All
      (λ action.
        Ends policy action (execute_action_with_retry sqlite policy 5 clock action after_event))
      after_event.actions
Reach-Ends_example =
    Reach-Ends sqlite policy 5 clock sqlite-IsEngine uuids (omega arith) (omega arith) reached

demo-IsSound : IsSound demo
unfolding demo
demo-IsSound = Reach-IsSound sqlite sqlite-IsEngine uuids (seeds fresh)

demo-IsSettled : IsSettled alone "intent-demo-0001" demo
unfolding demo session_scope seed seed_demo_data
demo-IsSettled = (refl, refl)

process_with_idempotency-Refines_example : Refines "intent-demo-0001" (outcome_for demo) (
    session_scope_from
      (released sqlite clock alone "intent-demo-0001" demo)
      (process_with_idempotency sqlite clock alone 10 "intent-demo-0001" payload)
      demo)
process_with_idempotency-Refines_example =
    process_with_idempotency-Refines sqlite clock alone 10 payload sqlite-IsEngine uuids valid
      "intent-demo-0001" demo (omega arith) demo-IsSettled demo-IsSound

abbrev check : CheckCreate
check = record { name = "valve"; asset_external_id = "PUMP-101"; detail = "" }

check_valid : check_is_valid check ≡ true
unfolding check_is_valid
check_valid = refl

abbrev move : CheckTransition
move = record { target_state = "started"; detail = ""; timeout_seconds = none }

-- Other sessions that commit nothing.
abbrev watching : Others
watching = record { claimed = λ key. false; seen = λ n. after_event }

still : KeepsHistory after_event after_event
still = record { entries = ([], refl); events = ([], refl); incidents = ([], refl) }

requests-KeepHistory_example :
    KeepsHistory after_event
      (session_scope_from
        (left_by sqlite clock watching payload.idempotency_key after_event)
        (post_event sqlite clock watching 10 payload)
        after_event).1
    × KeepsHistory after_event (run_once sqlite policy 100 60 clock none after_event).1
    × KeepsHistory after_event (session_scope (create_check_run sqlite clock check) after_event).1
    × KeepsHistory after_event
        (session_scope (transition_check_run sqlite clock 1 move) after_event).1
    × KeepsHistory after_event (session_scope (expire_check_timeouts sqlite clock) after_event).1
    × KeepsHistory after_event (session_scope (health_sweep sqlite clock) after_event).1
requests-KeepHistory_example =
    requests-KeepHistory sqlite clock watching 10 payload policy 100 60 none check 1 move
      after_event sqlite-IsEngine uuids valid check_valid (λ n. still)
      (Reach-IsSound sqlite sqlite-IsEngine uuids reached)
      (Reach-IsFit sqlite sqlite-IsEngine uuids reached)

list_routes-Lists_example :
    Lists asset_read
      (λ a b. text_le a.external_id b.external_id)
      after_event.assets
      (list_assets sqlite after_event)
    × Lists rule_read
        (λ a b. text_le a.name b.name)
        after_event.automation_rules
        (list_rules sqlite after_event)
    × Lists incident_read
        (λ a b. leb b.created_at a.created_at)
        after_event.incidents
        (list_incidents sqlite after_event)
    × (rows : List Action) × (list_actions sqlite after_event ≡ map action_read rows)
    × Perm rows after_event.actions
    × Pairwise (λ a b. leb b.created_at a.created_at ≡ true) rows
list_routes-Lists_example = list_routes-Lists sqlite after_event sqlite-IsEngine

run_demo_lem_example :
    run_demo sqlite clock alone 10 5
    ≡ some (ok (record { assets = 3; incidents = 1; actions = 1; action_state = some succeeded }))
run_demo_lem_example =
    run_demo_lem sqlite clock alone 10 5 sqlite-IsEngine (omega arith) (omega arith)
