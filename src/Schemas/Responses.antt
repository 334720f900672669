-- ===== src/Schemas/Responses.antt =====
-- schemas.py: the bodies of responses, each read from the attributes of a row.
use support_operations_intel.Models.States.{
  incident_state_value, check_state_value, action_state_value,
}
use support_operations_intel.Prelude.{Bool, String, Option, ℕ}
use support_operations_intel.Models.Tables.{
  Incident, Action, AutomationRule, OperationalEvent, CheckRun, Asset,
}

pub record AssetRead : Type 0 where
  pub external_id : String
  pub name : String
  pub group : String
  pub id : ℕ
  pub status : String

abbrev pub asset_read : Asset → AssetRead
asset_read a = record {
  external_id = a.external_id;
  name = a.name;
  group = a.group;
  id = a.id;
  status = a.status;
}

pub record RuleRead : Type 0 where
  pub name : String
  pub category : String
  pub minimum_severity : ℕ
  pub cooldown_minutes : ℕ
  pub action_type : String
  pub enabled : Bool
  pub id : ℕ

abbrev pub rule_read : AutomationRule → RuleRead
rule_read r = record {
  name = r.name;
  category = r.category;
  minimum_severity = r.minimum_severity;
  cooldown_minutes = r.cooldown_minutes;
  action_type = r.action_type;
  enabled = r.enabled;
  id = r.id;
}

pub record EventRead : Type 0 where
  pub id : ℕ
  pub source : String
  pub category : String
  pub severity : ℕ
  pub message : String
  pub created_at : ℕ

abbrev pub event_read : OperationalEvent → EventRead
event_read e = record {
  id = e.id;
  source = e.source;
  category = e.category;
  severity = e.severity;
  message = e.message;
  created_at = e.created_at;
}

pub record IncidentRead : Type 0 where
  pub id : ℕ
  pub asset_id : ℕ
  pub rule_id : ℕ
  pub event_id : ℕ
  pub state : String
  pub summary : String
  pub created_at : ℕ

abbrev pub incident_read : Incident → IncidentRead
incident_read i = record {
  id = i.id;
  asset_id = i.asset_id;
  rule_id = i.rule_id;
  event_id = i.event_id;
  state = incident_state_value i.state;
  summary = i.summary;
  created_at = i.created_at;
}

pub record ActionRead : Type 0 where
  pub id : ℕ
  pub incident_id : ℕ
  pub action_type : String
  pub state : String
  pub attempts : ℕ
  pub detail : String

abbrev pub action_read : Action → ActionRead
action_read a = record {
  id = a.id;
  incident_id = a.incident_id;
  action_type = a.action_type;
  state = action_state_value a.state;
  attempts = a.attempts;
  detail = a.detail;
}

pub record ProcessResult : Type 0 where
  pub event : EventRead
  pub incident : Option IncidentRead
  pub action : Option ActionRead
  pub skipped_reason : Option String
  pub idempotency_key : Option String
  pub idempotent_replay : Bool

pub record JobResult : Type 0 where
  pub job_name : String
  pub status : String
  pub actions_created : ℕ

pub record CheckRead : Type 0 where
  pub id : ℕ
  pub name : String
  pub asset_external_id : String
  pub state : String
  pub detail : String
  pub confirmation_due_at : Option ℕ
  pub created_at : ℕ
  pub updated_at : ℕ

abbrev pub check_read : CheckRun → CheckRead
check_read c = record {
  id = c.id;
  name = c.name;
  asset_external_id = c.asset_external_id;
  state = check_state_value c.state;
  detail = c.detail;
  confirmation_due_at = c.confirmation_due_at;
  created_at = c.created_at;
  updated_at = c.updated_at;
}
