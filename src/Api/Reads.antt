-- ===== src/Api/Reads.antt =====
-- api/app.py: the routes that list rows, and readiness.
use support_operations_intel.Models.Tables.{Asset, Action, Incident, AutomationRule}
use support_operations_intel.Schemas.Responses.{
  rule_read, action_read, incident_read, asset_read, RuleRead, IncidentRead, AssetRead, ActionRead,
}
use support_operations_intel.Prelude.{text_le, leb, map, length, ℕ, String, List}
use support_operations_intel.Models.Database.{Database}
use support_operations_intel.Models.Engine.{Engine}

module _ (engine : Engine) (db : Database) where
  -- GET /ready
  abbrev pub ready : String × ℕ
  ready = ("ready", length db.assets)

  -- GET /assets
  unfoldable pub list_assets : List AssetRead
  list_assets =
      map asset_read (engine.order_by Asset (λ a b. text_le a.external_id b.external_id) db.assets)

  -- GET /rules
  unfoldable pub list_rules : List RuleRead
  list_rules =
      map rule_read
        (engine.order_by AutomationRule (λ a b. text_le a.name b.name) db.automation_rules)

  -- GET /incidents, the newest first
  unfoldable pub list_incidents : List IncidentRead
  list_incidents =
      map incident_read
        (engine.order_by Incident (λ a b. leb b.created_at a.created_at) db.incidents)

  -- GET /actions, the newest first
  unfoldable pub list_actions : List ActionRead
  list_actions =
      map action_read (engine.order_by Action (λ a b. leb b.created_at a.created_at) db.actions)
