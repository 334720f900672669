-- ===== src/Api/Desk.antt =====
-- api/app.py: the routes that only pass their body on, with what they answer.
use mathlib.Core.Option
use support_operations_intel.Api.{ingest_event}
use support_operations_intel.Seed.{seed_demo_data}
use support_operations_intel.Jobs.{run_health_sweep}
use support_operations_intel.Checks.{create_check, expire_waiting_checks}
use support_operations_intel.Schemas.{EventCreate, CheckCreate}
use support_operations_intel.Schemas.Responses.{
  action_read, incident_read, event_read, check_read, ProcessResult, CheckRead, JobResult,
}
use support_operations_intel.Prelude.{none, String, Option, ℕ}
use support_operations_intel.Models.Engine.{Clock, Engine}
use support_operations_intel.Models.Database.{pure, ◌>>=◌, Session}
use support_operations_intel.Idempotency

abbrev pub map_ok : {A B : Type 0} → (A → B) → Session A → Session B
map_ok f body = body >>= λ a. pure (f a)

-- POST /demo/seed
unfoldable pub seed : Engine → Session String
seed engine = map_ok (λ _. "seeded") (seed_demo_data engine)

-- What POST /events answers.
abbrev pub process_result : Option String → Idempotency.Reply → ProcessResult
process_result key (done, replayed) = record {
  event = event_read done.event;
  incident = Option.map incident_read done.incident;
  action = Option.map action_read done.action;
  skipped_reason = done.skipped_reason;
  idempotency_key = key;
  idempotent_replay = replayed;
}

module _ (engine : Engine) (clock : Clock) where
  -- POST /events
  unfoldable pub post_event : Idempotency.Others → ℕ → EventCreate → Session ProcessResult
  post_event others max_queue_backlog payload =
      map_ok (process_result payload.idempotency_key)
        (ingest_event engine clock others max_queue_backlog payload)

  -- POST /checks
  unfoldable pub create_check_run : CheckCreate → Session CheckRead
  create_check_run payload =
      map_ok check_read
        (create_check engine clock none payload.name payload.asset_external_id payload.detail)

  -- POST /checks/expire-timeouts
  unfoldable pub expire_check_timeouts : Session ℕ
  expire_check_timeouts = expire_waiting_checks engine clock none

  -- POST /jobs/health-sweep, at the default threshold of 30 minutes
  unfoldable pub health_sweep : Session JobResult
  health_sweep =
      map_ok (λ n. record { job_name = "health_sweep"; status = "succeeded"; actions_created = n })
        (run_health_sweep engine clock 30)
