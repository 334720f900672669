-- ===== src/Models/Tables.antt =====
-- The tables of models.py: a record for each mapped class, its columns in order. Times are
-- microseconds since the epoch. A nullable column is an `Option`. Relationships are derived from
-- the foreign keys and are not stored.
use support_operations_intel.Prelude.{ℕ, Bool, Option, String}
use support_operations_intel.Models.States.{IncidentState, ActionState, CheckState}

pub record Asset : Type 0 where
  pub id : ℕ
  pub external_id : String
  pub name : String
  pub group : String
  pub status : String

pub record AutomationRule : Type 0 where
  pub id : ℕ
  pub name : String
  pub category : String
  pub minimum_severity : ℕ
  pub cooldown_minutes : ℕ
  pub action_type : String
  pub enabled : Bool

pub record OperationalEvent : Type 0 where
  pub id : ℕ
  pub asset_id : ℕ
  pub source : String
  pub category : String
  pub severity : ℕ
  pub message : String
  pub correlation_id : String
  pub created_at : ℕ

pub record Incident : Type 0 where
  pub id : ℕ
  pub asset_id : ℕ
  pub rule_id : ℕ
  pub event_id : ℕ
  pub state : IncidentState
  pub summary : String
  pub created_at : ℕ
  pub updated_at : ℕ

pub record Action : Type 0 where
  pub id : ℕ
  pub incident_id : ℕ
  pub action_type : String
  pub state : ActionState
  pub attempts : ℕ
  pub detail : String
  pub next_attempt_at : Option ℕ
  pub lease_id : Option String
  pub leased_at : Option ℕ
  pub created_at : ℕ
  pub updated_at : ℕ

pub record AuditLog : Type 0 where
  pub id : ℕ
  pub event_type : String
  pub entity_type : String
  pub entity_id : ℕ
  pub message : String
  pub created_at : ℕ

pub record IdempotencyRecord : Type 0 where
  pub id : ℕ
  pub key : String
  pub event_id : Option ℕ
  pub incident_id : Option ℕ
  pub action_id : Option ℕ
  pub skipped_reason : Option String
  pub hits : ℕ
  pub created_at : ℕ
  pub updated_at : ℕ

pub record JobRun : Type 0 where
  pub id : ℕ
  pub name : String
  pub status : String
  pub detail : String
  pub started_at : ℕ
  pub finished_at : Option ℕ

pub record CheckRun : Type 0 where
  pub id : ℕ
  pub name : String
  pub asset_external_id : String
  pub state : CheckState
  pub detail : String
  pub confirmation_due_at : Option ℕ
  pub created_at : ℕ
  pub updated_at : ℕ
