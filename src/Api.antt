-- ===== src/Api.antt =====
-- api/app.py: the routes that change state, and the metrics. A request runs in a session that
-- `session_scope` commits or rolls back. FastAPI validates the bodies, by the bounds in Schemas.
pub mod Requests
pub mod Claims
pub mod Gauges
pub mod Reads
pub mod Listings
pub mod Desk
use support_operations_intel.Checks.{transition_check}
use support_operations_intel.Actions.{Policy, default_transport}
use support_operations_intel.Worker.{process_due_actions, Summary}
use support_operations_intel.Schemas.{EventCreate, RuleCreate, CheckTransition, AssetCreate}
use support_operations_intel.Models.Tables.{CheckRun, AutomationRule, Asset, AuditLog, Action}
use support_operations_intel.Models.Database.{
  integrity_error, raised, invalid_check_transition, ok, unknown_asset, http_error, Session,
  Database, Exception,
}
use support_operations_intel.Models.Engine.{Clock, Engine}
use support_operations_intel.Models.States.{
  is_waiting, is_processed, is_failed, is_succeeded, is_retry, is_queued, ActionState,
}
use support_operations_intel.Prelude.{
  sum_of, ◌-◌, contains, some, select, ◌&&◌, none, ◌==◌, is_some, leb, find, any, if◌then◌else◌,
  map, take, ◌+◌, max, str_eq, ◌∷◌, Bool, [], count, length, List, String, ℕ,
}
use support_operations_intel.Idempotency

-- The settings that the routes read (core/settings.py).
pub record Settings : Type 0 where
  pub action_timeout_seconds : ℕ
  pub action_max_attempts : ℕ
  pub action_retry_delay_seconds : ℕ
  pub action_lease_seconds : ℕ
  pub max_queue_backlog : ℕ

abbrev pub default_settings : Settings
default_settings = record {
  action_timeout_seconds = 200_000;
  action_max_attempts = 3;
  action_retry_delay_seconds = 0;
  action_lease_seconds = 60_000_000;
  max_queue_backlog = 10_000;
}

abbrev pub asset_row : Engine → AssetCreate → Database → Asset
asset_row engine payload db = record {
  id = engine.next_id (map (λ a. a.id) db.assets);
  external_id = payload.external_id;
  name = payload.name;
  group = payload.group;
  status = "registered";
}

-- `except exception: raise HTTPException(…)`
abbrev pub on_error : {A : Type 0} → (Exception → Exception) → Session A → Session A
on_error handle body db =
    let (r, db') = body db in elim r [ ok a ↦ (ok a, db') | raised e ↦ (raised (handle e), db') ]

abbrev pub asset_not_found : Exception → Exception
asset_not_found (unknown_asset external_id) = http_error 404 "asset not found"
asset_not_found e = e

abbrev pub conflict : Exception → Exception
conflict (invalid_check_transition message) = http_error 409 message
conflict e = e

-- The arguments that the route takes from the settings.
abbrev pub policy_of : Settings → Policy
policy_of settings = record {
  max_attempts = settings.action_max_attempts;
  timeout_seconds = settings.action_timeout_seconds;
  retry_delay_seconds = settings.action_retry_delay_seconds;
  transport = default_transport;
}

module _ (engine : Engine) (clock : Clock) where
  -- POST /assets
  unfoldable pub create_asset : AssetCreate → Session Asset
  create_asset payload db =
      if is_some (find (λ a. str_eq a.external_id payload.external_id) db.assets)
      then (raised (http_error 409 "asset already exists"), db)
      else (
        ok (asset_row engine payload db),
        record db { assets = asset_row engine payload db ∷ db.assets },
      )

  abbrev pub rule_row : RuleCreate → Database → AutomationRule
  rule_row payload db = record {
    id = engine.next_id (map (λ r. r.id) db.automation_rules);
    name = payload.name;
    category = payload.category;
    minimum_severity = payload.minimum_severity;
    cooldown_minutes = payload.cooldown_minutes;
    action_type = payload.action_type;
    enabled = payload.enabled;
  }

  -- POST /rules: the unique constraint on name and category is the database's.
  unfoldable pub create_rule : RuleCreate → Session AutomationRule
  create_rule payload db =
      if any (λ r. str_eq r.name payload.name && str_eq r.category payload.category)
        db.automation_rules
      then (raised integrity_error, db)
      else (
        ok (rule_row payload db),
        record db { automation_rules = rule_row payload db ∷ db.automation_rules },
      )

  -- POST /events
  unfoldable pub ingest_event : Idempotency.Others → ℕ → EventCreate → Session Idempotency.Reply
  ingest_event others max_queue_backlog payload =
      on_error asset_not_found (Idempotency.process engine clock others max_queue_backlog payload)

  -- POST /checks/{check_id}/transition
  unfoldable pub transition_check_run : ℕ → CheckTransition → Session CheckRun
  transition_check_run check_id payload db = elim (find (λ c. c.id == check_id) db.check_runs) [
    | none ↦ (raised (http_error 404 "check not found"), db)
    | some check ↦
        on_error conflict
          (transition_check engine clock none check payload.target_state payload.detail
            payload.timeout_seconds)
          db
  ]

  -- POST /maintenance/process-actions, with the default transport and limit
  unfoldable pub process_actions : Settings → Session Summary
  process_actions settings =
      process_due_actions engine (policy_of settings) 100 settings.action_lease_seconds clock none

-- DELETE /admin/reset
unfoldable pub reset_workload : Database → Database
reset_workload db = record db {
  audit_logs = [];
  idempotency_records = [];
  check_runs = [];
  actions = [];
  incidents = [];
  operational_events = [];
  job_runs = [];
}

-- GET /audit: the newest hundred entries
unfoldable pub audit_page : Engine → Database → List AuditLog
audit_page engine db =
    take 100 (engine.order_by AuditLog (λ a b. leb b.created_at a.created_at) db.audit_logs)

-- GET /metrics. Latencies are sums in microseconds; the code divides and rounds them to seconds.
pub record Metrics : Type 0 where
  pub events : ℕ
  pub incidents : ℕ
  pub actions : ℕ
  pub queued_actions : ℕ
  pub retry_actions : ℕ
  pub succeeded_actions : ℕ
  pub failed_actions : ℕ
  pub actions_processed : ℕ
  pub permanent_failures : ℕ
  pub cooldown_suppressions : ℕ
  pub idempotency_hits : ℕ
  pub queue_backlog : ℕ
  pub oldest_queued_age : ℕ
  pub latency_sum : ℕ
  pub retry_attempts : ℕ
  pub audit_entries : ℕ

abbrev pub max_of : (Action → ℕ) → List Action → ℕ
max_of f [] = 0
max_of f (a ∷ actions) = max (f a) (max_of f actions)

abbrev pub counted : (ActionState → Bool) → Database → ℕ
counted test db = count (λ a. test a.state) db.actions

abbrev pub logged : String → Database → ℕ
logged event_type db = count (λ a. str_eq a.event_type event_type) db.audit_logs

unfoldable pub metrics : Engine → ℕ → Database → Metrics
metrics engine now db = record {
  events = length db.operational_events;
  incidents = length db.incidents;
  actions = length db.actions;
  queued_actions = counted is_queued db;
  retry_actions = counted is_retry db;
  succeeded_actions = counted is_succeeded db;
  failed_actions = counted is_failed db;
  actions_processed = length (select (λ a. is_processed a.state) db.actions);
  permanent_failures =
      count (λ a. is_failed a.state && engine.like_contains "permanent" a.detail) db.actions;
  cooldown_suppressions = logged "event_suppressed" db;
  idempotency_hits = logged "idempotency_hit" db;
  queue_backlog = counted is_waiting db;
  oldest_queued_age =
      max_of (λ a. now - a.created_at) (select (λ a. is_waiting a.state) db.actions);
  latency_sum =
      sum_of (λ a. a.updated_at - a.created_at) (select (λ a. is_processed a.state) db.actions);
  retry_attempts = sum_of (λ a. a.attempts - 1) db.actions;
  audit_entries = length db.audit_logs;
}
