-- ===== src/Seed.antt =====
-- seed.py: the demo data. A row that breaks a unique constraint raises, and the session is rolled
-- back by its caller.
pub mod Once
use support_operations_intel.Models.Tables.{AutomationRule, Asset}
use support_operations_intel.Models.Database.{
  integrity_error, raised, ◌>>◌, ok, modify, Session, Database,
}
use support_operations_intel.Models.Engine.{Engine}
use support_operations_intel.Prelude.{
  ◌&&◌, str_eq, if◌then◌else◌, any, Bool, [], ◌∷◌, true, map, String, ℕ,
}

-- `Asset(…)` with the default status
abbrev pub demo_asset : ℕ → String → String → String → Asset
demo_asset id external_id name group = record {
  id = id;
  external_id = external_id;
  name = name;
  group = group;
  status = "unknown";
}

abbrev pub demo_rule : ℕ → String → String → ℕ → ℕ → String → AutomationRule
demo_rule id name category minimum_severity cooldown_minutes action_type = record {
  id = id;
  name = name;
  category = category;
  minimum_severity = minimum_severity;
  cooldown_minutes = cooldown_minutes;
  action_type = action_type;
  enabled = true;
}

unfoldable pub add_asset : Engine → String → String → String → Session (Unit {0})
add_asset engine external_id name group = modify λ db. record db {
  assets =
      demo_asset (engine.next_id (map (λ a. a.id) db.assets)) external_id name group ∷ db.assets;
}

-- The unique constraint on name and category.
abbrev pub has_rule : String → String → Database → Bool
has_rule name category db =
    any (λ r. str_eq r.name name && str_eq r.category category) db.automation_rules

unfoldable pub add_rule : Engine → String → String → ℕ → ℕ → String → Session (Unit {0})
add_rule engine name category minimum_severity cooldown_minutes action_type db =
    if has_rule name category db then (raised integrity_error, db) else (
      ok tt,
      record db {
        automation_rules =
            demo_rule (engine.next_id (map (λ r. r.id) db.automation_rules)) name category
              minimum_severity cooldown_minutes action_type
            ∷ db.automation_rules;
      },
    )

unfoldable pub add_demo_rows : Engine → Session (Unit {0})
unfolding add_asset add_rule
add_demo_rows engine =
    add_asset engine "PUMP-101" "North pump controller" "water-treatment"
    >> add_asset engine "GATEWAY-7" "Warehouse telemetry gateway" "logistics"
    >> add_asset engine "SENSOR-44" "Cold room synthetic sensor" "facilities"
    >> add_rule engine "Offline device triage" "offline" 70 20 "create_ticket"
    >> add_rule engine "Battery warning escalation" "battery_low" 80 60 "notify_owner"

-- `seed_demo_data`: nothing where an asset is stored.
unfoldable pub seed_demo_data : Engine → Session (Unit {0})
unfolding add_demo_rows
seed_demo_data engine db = elim db.assets [ [] ↦ add_demo_rows engine db | a ∷ rest ↦ (ok tt, db) ]
