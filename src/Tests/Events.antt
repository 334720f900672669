-- ===== src/Tests/Events.antt =====
-- Events: the demo data, one critical event, and its repetition.
use support_operations_intel.Idempotency.Held.{Replays}
use mathlib.Core.List.{mem-cons_self}
use support_operations_intel.Idempotency.Waiting.{wait_out, wait_from, IsPending}
use support_operations_intel.Api.Claims.{with_claim}
use support_operations_intel.Models.States.{acknowledged}
use support_operations_intel.Samples.{sqlite-IsEngine, clock_at, sqlite}
use support_operations_intel.Seed.{seed_demo_data}
use support_operations_intel.Rules.Best.{match-Picks, Picks}
use support_operations_intel.Processor.Limits.{process_new_backlog, process_new_cooldown, IsQuiet}
use support_operations_intel.Prelude.{
  refl, ◌<◌, arith, ℕ, [], ◌∷◌, ltb, ◌≤◌, some, if◌then◌else◌, none, true, false, ◌≡◌,
}
use support_operations_intel.Idempotency.Once.{process_call, after_calls, Call, process-Replays}
use support_operations_intel.Processor.Outcome.{process_new-Records, Records}
use support_operations_intel.Processor.{settle, process_new, Processed, queue_backlog}
use support_operations_intel.Models.Tables.{
  Incident, AutomationRule, IdempotencyRecord, Asset, OperationalEvent,
}
use support_operations_intel.Models.Engine.{Clock}
use support_operations_intel.Models.Database.{
  idempotency_timeout, raised, ok, empty_database, Result, Database,
}
use support_operations_intel.Schemas.{EventCreate}
use support_operations_intel.Idempotency.{
  record_of, replay, own_or_wait, replay_or, wait, process_with_idempotency, Others, Reply, process,
}
use support_operations_intel.Rules.{match}
use support_operations_intel.Prelude.Sort.{sort}

abbrev payload : EventCreate
payload = record {
  asset_external_id = "PUMP-101";
  source = "north-gateway";
  category = "offline";
  severity = 92;
  message = "Synthetic heartbeat failure detected";
  executor_mode = "success";
  idempotency_key = some "intent-demo-0001";
  correlation_id = none;
}

abbrev stranger : EventCreate
stranger = record payload { asset_external_id = "PUMP-999" }

abbrev clock : Clock
clock = clock_at 2_000_000_000

abbrev alone : Others
alone = record { claimed = λ key. false; seen = λ n. empty_database }

demo : Database
unfolding seed_demo_data
demo = (seed_demo_data sqlite empty_database).1

code : Unit {0}
unfolding demo process process_with_idempotency replay_or own_or_wait process_new settle sort
code = tt

first_call : Result Reply × Database
first_call = process sqlite clock alone 10_000 payload demo

abbrev none_processed : Processed
none_processed = record {
  event = record {
    id = 0;
    asset_id = 0;
    source = "";
    category = "";
    severity = 0;
    message = "";
    correlation_id = "";
    created_at = 0;
  };
  incident = none;
  action = none;
  skipped_reason = none;
}

done_of : Result Reply × Database → Processed
done_of (ok (done, replayed), db) = done
done_of (raised e, db) = none_processed

first_call_new : first_call ≡ (ok (done_of first_call, false), first_call.1)
unfolding code first_call done_of
first_call_new = refl

first_call_action : queue_backlog first_call.1 ≡ 1
unfolding code first_call
first_call_action = refl

abbrev early : Call
early = record { clock = clock; others = alone; max = 10_000; payload = payload }

abbrev late : Call
late = record { clock = clock_at 2_100_000_000; others = alone; max = 10_000; payload = payload }

process-Replays_example :
    Replays "intent-demo-0001"
      (done_of first_call)
      (after_calls sqlite (late ∷ []) first_call.1)
      (process_call sqlite late (after_calls sqlite (late ∷ []) first_call.1))
unfolding first_call
process-Replays_example =
    process-Replays sqlite early late (late ∷ []) "intent-demo-0001" (done_of first_call) demo
      first_call.1 sqlite-IsEngine refl refl refl (refl, tt) first_call_new

process_new-Records_example : Records payload demo (process_new sqlite clock 10_000 payload demo)
process_new-Records_example = process_new-Records sqlite clock 10_000 payload demo

process_new_backlog_example : queue_backlog (process_new sqlite clock 1 payload demo).1 ≤ 1
process_new_backlog_example =
    process_new_backlog sqlite clock 1 payload demo (unfold demo in omega arith)

-- Other sessions that see the claim.
watching : Others
watching = record {
  claimed = λ key. false;
  seen = λ n. with_claim sqlite clock (some "intent-demo-0001") demo;
}

abbrev event : OperationalEvent
event = record none_processed.event { category = "offline"; severity = 92 }

match-Picks_example : Picks event demo (match sqlite event demo)
match-Picks_example = match-Picks sqlite event demo sqlite-IsEngine

abbrev rule_offline : AutomationRule
rule_offline = record {
  id = 1;
  name = "Offline device triage";
  category = "offline";
  minimum_severity = 70;
  cooldown_minutes = 20;
  action_type = "create_ticket";
  enabled = true;
}

abbrev pump : Asset
pump = record {
  id = 1;
  external_id = "PUMP-101";
  name = "North pump controller";
  group = "water-treatment";
  status = "offline";
}

abbrev live_incident : Incident
live_incident = record {
  id = 1;
  asset_id = 1;
  rule_id = 1;
  event_id = 1;
  state = acknowledged;
  summary = "offline";
  created_at = 1_000_000_000;
  updated_at = 1_000_000_000;
}

abbrev busy : Database
busy = record empty_database {
  assets = pump ∷ [];
  automation_rules = rule_offline ∷ [];
  incidents = live_incident ∷ [];
}

process_new_cooldown_example : IsQuiet busy (process_new sqlite clock 10_000 payload busy)
process_new_cooldown_example =
    process_new_cooldown sqlite clock 10_000 20 payload live_incident pump busy sqlite-IsEngine refl
      (omega arith) mem-cons_self refl refl (omega arith) (omega arith)

-- Another session's result, committed at the third look.
abbrev foreign : IdempotencyRecord
foreign = record {
  id = 1;
  key = "intent-demo-0001";
  event_id = some 7;
  incident_id = none;
  action_id = none;
  skipped_reason = some "cooldown";
  hits = 0;
  created_at = 0;
  updated_at = 0;
}

abbrev slow : Others
slow = record {
  claimed = λ key. true;
  seen = λ n.
      if ltb n 2
      then empty_database
      else record empty_database { idempotency_records = foreign ∷ [] };
}

wait_from_example :
    wait sqlite clock slow "intent-demo-0001" 100 0 (slow.seen 0)
    ≡ replay sqlite clock foreign 7 (slow.seen 2)
wait_from_example =
    wait_from sqlite clock slow "intent-demo-0001" 100 0 2 foreign 7 (λ i le lt. slow_pending i lt)
      (omega arith) (omega arith) refl refl
  where
    slow_pending : (i : ℕ) → i < 2 → IsPending (record_of "intent-demo-0001" (slow.seen i))
    slow_pending i lt = ground arith

abbrev stuck : Others
stuck = record {
  claimed = λ key. true;
  seen =
      λ n. record empty_database { idempotency_records = record foreign { event_id = none } ∷ [] };
}

wait_out_example :
    wait sqlite clock stuck "intent-demo-0001" 100 0 (stuck.seen 0)
    ≡ (raised idempotency_timeout, stuck.seen 100)
wait_out_example = wait_out sqlite clock stuck "intent-demo-0001" 100 0 (λ i lt. refl)
