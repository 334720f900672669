-- ===== src/Service.antt =====
-- The service over time: any number of requests of api/app.py and runs of the worker, in any order,
-- each in its session. FastAPI lets a body through where schemas.py does. While a request waits for
-- another session, it sees databases that the service commits.
pub mod Scopes
pub mod Served
pub mod Invariant
pub mod Liveness
pub mod History
use support_operations_intel.Worker.{run_once}
use support_operations_intel.Actions.{Policy}
use support_operations_intel.Idempotency.{Others, left_by}
use support_operations_intel.Api.{
  reset_workload, transition_check_run, process_actions, Settings, create_rule, create_asset,
}
use support_operations_intel.Prelude.{Option, ℕ, true, ◌≡◌}
use support_operations_intel.Schemas.{
  CheckTransition, check_is_valid, CheckCreate, event_is_valid, EventCreate, rule_is_valid,
  RuleCreate, asset_is_valid, AssetCreate,
}
use support_operations_intel.Api.Desk.{
  health_sweep, expire_check_timeouts, create_check_run, post_event, seed,
}
use support_operations_intel.Models.Database.{
  session_scope, session_scope_from, empty_database, Database,
}
use support_operations_intel.Models.Engine.{Clock, Engine}

pub data Reach (engine : Engine) : Database → Type 0 where
  fresh : Reach engine empty_database
  seeds : {db : Database} → Reach engine db → Reach engine (session_scope (seed engine) db).1
  posts_asset :
      {db : Database}
      → Reach engine db
      → (clock : Clock) (payload : AssetCreate) → asset_is_valid payload ≡ true
      → Reach engine (session_scope (create_asset engine clock payload) db).1
  posts_rule :
      {db : Database}
      → Reach engine db
      → (clock : Clock) (payload : RuleCreate) → rule_is_valid payload ≡ true
      → Reach engine (session_scope (create_rule engine clock payload) db).1
  posts_event :
      {db : Database}
      → Reach engine db
      → (clock : Clock) (others : Others) (max_queue_backlog : ℕ) (payload : EventCreate)
      → event_is_valid payload ≡ true
      → ((n : ℕ) → Reach engine (others.seen n))
      → Reach engine
          (session_scope_from
            (left_by engine clock others payload.idempotency_key db)
            (post_event engine clock others max_queue_backlog payload)
            db).1
  works :
      {db : Database}
      → Reach engine db
      → (policy : Policy) (limit lease_seconds : ℕ) (clock : Clock) (now : Option ℕ)
      → Reach engine (run_once engine policy limit lease_seconds clock now db).1
  processes_actions :
      {db : Database}
      → Reach engine db
      → (clock : Clock) (settings : Settings)
      → Reach engine (session_scope (process_actions engine clock settings) db).1
  posts_check :
      {db : Database}
      → Reach engine db
      → (clock : Clock) (payload : CheckCreate) → check_is_valid payload ≡ true
      → Reach engine (session_scope (create_check_run engine clock payload) db).1
  moves_check :
      {db : Database}
      → Reach engine db
      → (clock : Clock) (check_id : ℕ) (payload : CheckTransition)
      → Reach engine (session_scope (transition_check_run engine clock check_id payload) db).1
  expires_checks :
      {db : Database}
      → Reach engine db
      → (clock : Clock) → Reach engine (session_scope (expire_check_timeouts engine clock) db).1
  sweeps :
      {db : Database}
      → Reach engine db
      → (clock : Clock) → Reach engine (session_scope (health_sweep engine clock) db).1
  resets : {db : Database} → Reach engine db → Reach engine (reset_workload db)
