-- ===== src/Tests/Rest.antt =====
-- Checks, assets, the schema, the contract run and the synthetic workload.
use support_operations_intel.Rules.{match}
use support_operations_intel.Processor.{settle, process_new}
use support_operations_intel.Idempotency.{process}
use support_operations_intel.Prelude.Sort.{sort}
use support_operations_intel.Seed.Once.{seed_demo_data-Seeds, Seeds}
use support_operations_intel.Seed.{add_demo_rows, seed_demo_data}
use support_operations_intel.Workload.Counters.{expected_counters-generate_events}
use support_operations_intel.Actions.{Policy, default_transport}
use support_operations_intel.Samples.{clock_at, sqlite}
use support_operations_intel.Api.{create_rule, create_asset}
use support_operations_intel.Models.States.{confirmed, waiting_confirmation, pending, started}
use support_operations_intel.Checks.Deadline.{
  call, here, next, Reach-IsLimited, HasDeadlineInWait, Reach,
}
use support_operations_intel.Contract.Seeding.{Seeded, seed_assets_from_events-Seeded}
use support_operations_intel.Contract.{
  add_new_assets, distinct, asset_ids_of, process_contract_events, Rows, seed_assets_from_events,
}
use support_operations_intel.Checks.Moves.{transition_check-Moves, Moves}
use support_operations_intel.Migrations.{Schema}
use support_operations_intel.Workload.{generate_events, padded, expected_counters, event_at}
use support_operations_intel.Contract.Unpacking.{
  process_contract_events-EndsByRaising, EndsByRaising,
}
use support_operations_intel.Api.Requests.{
  create_rule-Stores, Stores, create_asset-Creates, Creates,
}
use support_operations_intel.Prelude.{
  if◌then◌else◌, not, true, ◌+◌, str_eq, f_string, refl, false, [], count, str, none, some, String,
  ◌∷◌, ◌≡◌, ◌≤◌,
}
use support_operations_intel.Models.Tables.{CheckRun}
use support_operations_intel.Schemas.{RuleCreate, AssetCreate}
use support_operations_intel.Checks.{expire_waiting_checks, transition_check}
use support_operations_intel.Models.Database.{unpack_error, ok, empty_database, Result, Database}
use support_operations_intel.Checks.Expiry.{expire_waiting_checks-Expires, Expires}

abbrev fresh_check : CheckRun
fresh_check = record {
  id = 1;
  name = "synthetic phase check";
  asset_external_id = "PUMP-101";
  state = pending;
  detail = "";
  confirmation_due_at = none;
  created_at = 10;
  updated_at = 10;
}

abbrev waiting_check : CheckRun
waiting_check = record fresh_check {
  state = waiting_confirmation;
  confirmation_due_at = some 30_000_010;
}

abbrev checks : Database
checks = record empty_database { check_runs = waiting_check ∷ [] }

transition_check-Moves_example :
    Moves waiting_check "CONFIRMED" checks
      (transition_check sqlite (clock_at 20) none waiting_check "CONFIRMED" "" none checks)
transition_check-Moves_example =
    transition_check-Moves sqlite (clock_at 20) none waiting_check "CONFIRMED" "" none checks

confirmed_in_capitals :
    (transition_check sqlite (clock_at 20) none waiting_check "CONFIRMED" "" none checks).0
    ≡ ok (record waiting_check { state = confirmed; confirmation_due_at = none; updated_at = 20 })
unfolding transition_check
confirmed_in_capitals = refl

expire_waiting_checks-Expires_example :
    Expires 31_000_010 checks (expire_waiting_checks sqlite (clock_at 40) (some 31_000_010) checks)
expire_waiting_checks-Expires_example =
    expire_waiting_checks-Expires sqlite (clock_at 40) (some 31_000_010) checks

abbrev started_check : CheckRun
started_check = record fresh_check { state = started; updated_at = 20 }

after_start : Result CheckRun × Database
after_start = transition_check sqlite (clock_at 20) none fresh_check "started" "" none checks

first_move : Reach sqlite fresh_check 1 started_check
unfolding transition_check
first_move = next here (
    call (clock_at 20) none "started" "" none checks
      (transition_check sqlite (clock_at 20) none fresh_check "started" "" none checks).1 refl)

Reach-IsLimited_example : (1 ≤ 3) × HasDeadlineInWait started_check
Reach-IsLimited_example = Reach-IsLimited sqlite refl first_move

abbrev new_pump : AssetCreate
new_pump = record { external_id = "PUMP-101"; name = "North pump"; group = "water" }

create_asset-Creates_example :
    Creates new_pump checks (create_asset sqlite (clock_at 5) new_pump checks)
create_asset-Creates_example = create_asset-Creates sqlite (clock_at 5) new_pump checks tt

abbrev offline_rule : RuleCreate
offline_rule = record {
  name = "Second triage";
  category = "offline";
  minimum_severity = 50;
  cooldown_minutes = 5;
  action_type = "create_ticket";
  enabled = true;
}

demo_rows : Database
unfolding seed_demo_data
demo_rows = (seed_demo_data sqlite empty_database).1

create_rule-Stores_example :
    Stores offline_rule demo_rows (create_rule sqlite (clock_at 5) offline_rule demo_rows)
unfolding demo_rows seed_demo_data add_demo_rows
create_rule-Stores_example =
    create_rule-Stores sqlite (clock_at 5) offline_rule demo_rows (refl, (refl, tt))

seed_demo_data-Seeds_example : Seeds sqlite checks (seed_demo_data sqlite checks)
seed_demo_data-Seeds_example = seed_demo_data-Seeds sqlite checks tt

-- Before the first version, where one of the columns is there already.
abbrev old_schema : Schema
old_schema = record {
  tables = λ name.
      if str_eq "actions" name
      then some ("id" ∷ "state" ∷ "lease_id" ∷ [])
      else if str_eq "operational_events" name
      then some ("id" ∷ [])
      else none;
  version = none;
}

abbrev texts : Rows String
texts = record { asset_id = λ row. some row; event_create = λ row. none }

-- A row that FastAPI's schema takes, of an asset that the run seeds.
abbrev valid_rows : Rows String
valid_rows = record {
  asset_id = λ row. some row;
  event_create = λ row. some (record {
    asset_external_id = row;
    source = "sensor";
    category = "normal";
    severity = 10;
    message = "all well";
    executor_mode = "success";
    idempotency_key = none;
    correlation_id = none;
  });
}

abbrev contract_policy : Policy
contract_policy = record {
  max_attempts = 3;
  timeout_seconds = 1;
  retry_delay_seconds = 0;
  transport = default_transport;
}

-- The first row is processed, and its reply does not unpack.
process_contract_events-EndsByRaising_example : EndsByRaising unpack_error (
    process_contract_events valid_rows sqlite
      (clock_at 5)
      (record { claimed = λ key. false; seen = λ n. checks })
      10_000
      contract_policy
      5
      true
      ("ASSET-0001" ∷ [])
      checks)
unfolding seed_assets_from_events distinct add_new_assets sort process process_new match settle
process_contract_events-EndsByRaising_example =
    process_contract_events-EndsByRaising valid_rows sqlite (clock_at 5)
      (record { claimed = λ key. false; seen = λ n. checks }) 10_000 contract_policy 5 true
      "ASSET-0001" [] checks

expected_counters-generate_events_example :
    let c = expected_counters 45 in
    let events = generate_events 45 424_242 in
    (c.permanent_failures ≡ count (λ e. str_eq e.executor_mode "permanent_failure") events)
    × (c.retry_attempts ≡ count (λ e. str_eq e.executor_mode "transient_then_success") events)
    × (c.incidents + c.cooldown_suppressions
        ≡ count (λ e. not (str_eq e.category "heartbeat")) events)
    × (c.succeeded_actions + c.failed_actions ≡ c.actions)
    × (c.events ≡ 45)
expected_counters-generate_events_example = expected_counters-generate_events 45 424_242

event_at-44 : event_at 44 7 ≡ record {
  asset_id = "SYN-7-000002-permanent";
  source = "synthetic-source-7";
  category = "offline";
  severity = 94;
  occurred_at = 44;
  message = "permanent synthetic event 44";
  executor_mode = "permanent_failure";
}
unfolding event_at padded str f_string
event_at-44 = refl

seed_assets_from_events-Seeded_example :
    Seeded demo_rows
      (some ("PUMP-101" ∷ "ASSET-0001" ∷ []))
      (seed_assets_from_events texts sqlite ("PUMP-101" ∷ "ASSET-0001" ∷ []) demo_rows)
unfolding asset_ids_of
seed_assets_from_events-Seeded_example =
    seed_assets_from_events-Seeded texts sqlite ("PUMP-101" ∷ "ASSET-0001" ∷ []) demo_rows
