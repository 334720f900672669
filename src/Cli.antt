-- ===== src/Cli.antt =====
-- cli.py: the demo, one event on a database in memory. The service's settings give the backlog
-- limit; the retry has the defaults of `execute_action_with_retry`.
pub mod Shows
use support_operations_intel.Prelude.{Option, none, some, ℕ, length}
use support_operations_intel.Models.Database.{ok, raised, Result, Database, empty_database, ◌>>◌}
use support_operations_intel.Models.Engine.{Clock, Engine, after_reads}
use support_operations_intel.Models.States.{ActionState}
use support_operations_intel.Models.Tables.{Incident}
use support_operations_intel.Schemas.{EventCreate}
use support_operations_intel.Seed.{seed_demo_data}
use support_operations_intel.Idempotency.{Others, Reply, process}
use support_operations_intel.Actions.{default_transport, execute_action_with_retry, Policy}

-- The dict that the demo prints.
pub record Shown : Type 0 where
  pub assets : ℕ
  pub incidents : ℕ
  pub actions : ℕ
  pub action_state : Option ActionState

abbrev pub demo_event : EventCreate
demo_event = record {
  asset_external_id = "PUMP-101";
  source = "north-gateway";
  category = "offline";
  severity = 88;
  message = "Heartbeat missing for the synthetic pump controller";
  executor_mode = "success";
  idempotency_key = none;
  correlation_id = none;
}

-- The defaults of `execute_action_with_retry`, in microseconds.
abbrev pub demo_policy : Policy
demo_policy = record {
  max_attempts = 3;
  timeout_seconds = 200_000;
  retry_delay_seconds = 0;
  transport = default_transport;
}

abbrev shown : Option Incident → ℕ → Option ActionState → Database → Shown
shown incident actions action_state db = record {
  assets = length db.assets;
  incidents = elim incident [ none ↦ 0 | some i ↦ 1 ];
  actions = actions;
  action_state = action_state;
}

-- The retry of the action that the event queued: none if it does not end within the fuel.
unfoldable pub finish_demo : Engine → ℕ → Clock → Result Reply × Database → Option (Result Shown)
unfolding execute_action_with_retry
finish_demo engine fuel clock (raised e, db) = some (raised e)
finish_demo engine fuel clock (ok (done, replayed), db) = elim done.action [
  | none ↦ some (ok (shown done.incident 0 none db))
  | some action ↦ elim (execute_action_with_retry engine demo_policy fuel clock action db) [
    | none ↦ none
    | some (raised e, db') ↦ some (raised e)
    | some (ok action', db') ↦ some (ok (shown done.incident 1 (some action'.state) db'))
  ]
]

-- `run_demo`
unfoldable pub run_demo : Engine → Clock → Others → ℕ → ℕ → Option (Result Shown)
unfolding seed_demo_data process finish_demo
run_demo engine clock others max_queue_backlog fuel =
    finish_demo engine fuel (after_reads clock 12) (
      (seed_demo_data engine >> process engine clock others max_queue_backlog demo_event)
        empty_database)
