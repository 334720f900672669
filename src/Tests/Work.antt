-- ===== src/Tests/Work.antt =====
-- Actions and the worker.
use support_operations_intel.Jobs.{run_health_sweep}
use support_operations_intel.Prelude.Sort.{sort}
use support_operations_intel.Processor.{minute}
use support_operations_intel.Api.Gauges.{metrics_sums, is_skipped}
use support_operations_intel.Samples.{sqlite-IsEngine, clock_at, sqlite}
use support_operations_intel.Prelude.{
  refl, ◌≤◌, arith, ◌≡◌, ◌*◌, ◌-◌, count, [], none, ◌+◌, ◌∷◌, some,
}
use support_operations_intel.Models.States.{skipped, opened, queued, succeeded}
use support_operations_intel.Worker.Totals.{process_due_actions-Works, Works}
use support_operations_intel.Actions.Attempts.{execute_action_once-Attempts, Attempts}
use support_operations_intel.Jobs.Sweep.{run_health_sweep-Sweeps, Sweeps}
use support_operations_intel.Actions.{
  conclude, save, execute_action_once, default_transport, execute_action_with_retry, Policy,
}
use support_operations_intel.Actions.Modes.{execute_action_once-EndsIn, EndsIn}
use support_operations_intel.Actions.Retries.{
  execute_action_with_retry_skipped, execute_action_with_retry-Ends, Ends,
}
use support_operations_intel.Worker.{
  work, by_due, is_due, Summary, due_actions, process_due_actions,
}
use support_operations_intel.Models.Database.{ok, empty_database, Result, Database}
use support_operations_intel.Api.{metrics}
use support_operations_intel.Models.Tables.{Incident, Action}

abbrev job : Action
job = record {
  id = 4;
  incident_id = 1;
  action_type = "create_ticket";
  state = queued;
  attempts = 0;
  detail = "transient_then_success";
  next_attempt_at = some 100;
  lease_id = none;
  leased_at = none;
  created_at = 90;
  updated_at = 90;
}

abbrev other_job : Action
other_job = record job {
  id = 5;
  detail = "transient_failure";
  lease_id = some "dead-worker";
  leased_at = some 10;
}

abbrev skipped_job : Action
skipped_job = record job { state = skipped }

abbrev standard : Policy
standard = record {
  max_attempts = 3;
  timeout_seconds = 200_000;
  retry_delay_seconds = 0;
  transport = default_transport;
}

abbrev store : Database
store = record empty_database { actions = job ∷ other_job ∷ [] }

execute_action_once-Attempts_example :
    Attempts sqlite standard 500 job store
      (execute_action_once sqlite standard (clock_at 500) (some 500) job store)
execute_action_once-Attempts_example =
    execute_action_once-Attempts sqlite standard (clock_at 500) (some 500) job store

execute_action_once-EndsIn_example :
    EndsIn succeeded (execute_action_once sqlite standard (clock_at 500) none other_job store)
execute_action_once-EndsIn_example =
    execute_action_once-EndsIn sqlite (clock_at 500) none 3 200_000 0 other_job store (omega arith)
      (omega arith) refl

execute_action_with_retry-Ends_example :
    Ends standard job (execute_action_with_retry sqlite standard 5 (clock_at 500) job store)
execute_action_with_retry-Ends_example =
    execute_action_with_retry-Ends sqlite standard 5 (clock_at 500) job store (omega arith)
      (λ e. cc) (omega arith)

execute_action_with_retry_skipped_example :
    execute_action_with_retry sqlite standard 1_000 (clock_at 500) skipped_job store ≡ none
execute_action_with_retry_skipped_example =
    execute_action_with_retry_skipped sqlite standard 1_000 (clock_at 500) skipped_job store
      (omega arith) refl

process_due_actions-Works_example :
    Works standard 1 1_000 940 store
      (process_due_actions sqlite standard 1 60 (clock_at 1_000) (some 1_000) store)
process_due_actions-Works_example =
    process_due_actions-Works sqlite standard 1 60 (clock_at 1_000) (some 1_000) store
      sqlite-IsEngine

-- Both jobs are due, the stale lease included: one succeeds at once, the other is tried again.
worked : Result Summary × Database
worked = process_due_actions sqlite standard 100 60 (clock_at 1_000) (some 1_000) store

worked_totals : worked.0 ≡ ok (record { processed = 2; succeeded = 1; failed = 0; retried = 1 })
unfolding worked process_due_actions due_actions is_due by_due sort work save execute_action_once
    default_transport conclude
worked_totals = refl

metrics_sums_example :
    let m = metrics sqlite 2_000 store in
    (m.queue_backlog + m.actions_processed + count (λ a. is_skipped a.state) store.actions
      ≡ m.actions)
    × (m.queued_actions + m.retry_actions ≡ m.queue_backlog)
    × (m.succeeded_actions + m.failed_actions ≡ m.actions_processed)
    × (m.permanent_failures ≤ m.failed_actions)
    × (m.cooldown_suppressions + m.idempotency_hits ≤ m.audit_entries)
metrics_sums_example = metrics_sums sqlite 2_000 store

abbrev old_incident : Incident
old_incident = record {
  id = 1;
  asset_id = 1;
  rule_id = 1;
  event_id = 1;
  state = opened;
  summary = "offline";
  created_at = 100;
  updated_at = 100;
}

abbrev watched : Database
watched = record store { incidents = old_incident ∷ [] }

run_health_sweep-Sweeps_example :
    Sweeps
      (3_000_000_000 + 0 - 30 * minute)
      watched
      (run_health_sweep sqlite (clock_at 3_000_000_000) 30 watched)
run_health_sweep-Sweeps_example = run_health_sweep-Sweeps sqlite (clock_at 3_000_000_000) 30 watched
