-- ===== src/Api/Listings.antt =====
-- What the listing routes answer.
use support_operations_intel.Models.Tables.{Action}
use support_operations_intel.Schemas.Responses.{action_read, incident_read, rule_read, asset_read}
use support_operations_intel.Models.Database.{Database}
use support_operations_intel.Api.Reads.{list_actions, list_incidents, list_rules, list_assets}
use support_operations_intel.Models.Engine.{IsEngine, Engine}
use support_operations_intel.Prelude.{refl, arith, leb, text_le, ◌⊎◌, true, ◌≡◌, map, List, Bool}
use support_operations_intel.Prelude.Order.{text_le_total, text_le_trans}
use mathlib.Core.List.{Perm, Pairwise}
use mathlib.Core.List.Perm
use mathlib.Core.List.Pairwise
use mathlib.Core.Bool.{Bool-set}

-- The answer has each stored row once, and is in order.
abbrev pub Lists :
    {Row Read : Type 0} → (Row → Read) → (Read → Read → Bool) → List Row → List Read → Type 0
Lists read le rows answer = Perm answer (map read rows) × Pairwise (λ a b. le a b ≡ true) answer

order_by-Lists :
    {Row Read : Type 0} (engine : Engine) (read : Row → Read) (le : Read → Read → Bool)
    (rows : List Row)
    → IsEngine engine
    → ((a b : Read) → (le a b ≡ true) ⊎ (le b a ≡ true))
    → ((a b c : Read) → le a b ≡ true → le b c ≡ true → le a c ≡ true)
    → Lists read le rows (map read (engine.order_by Row (λ a b. le (read a) (read b)) rows))
order_by-Lists {Row} engine read le rows laws total trans = (
  Perm.map read (laws.order_by-perm Row (λ a b. le (read a) (read b)) rows),
  Pairwise.map (λ a b. Bool-set _ _) read (λ a b h. h)
      (laws.order_by-sorted Row (λ a b. le (read a) (read b)) rows (λ a b. total (read a) (read b))
        (λ a b c. trans (read a) (read b) (read c))),
)

abbrev newest : Action → Action → Bool
newest a b = leb b.created_at a.created_at

-- With an SQL engine that sorts: each listing answers with every stored row once, the assets by
-- their external id, the rules by their name, the incidents and the actions the newest first.
pub list_routes-Lists :
    (engine : Engine) (db : Database)
    → IsEngine engine
    → Lists asset_read
        (λ a b. text_le a.external_id b.external_id)
        db.assets
        (list_assets engine db)
      × Lists rule_read (λ a b. text_le a.name b.name) db.automation_rules (list_rules engine db)
      × Lists incident_read
          (λ a b. leb b.created_at a.created_at)
          db.incidents
          (list_incidents engine db)
      × (rows : List Action) × (list_actions engine db ≡ map action_read rows)
      × Perm rows db.actions
      × Pairwise (λ a b. leb b.created_at a.created_at ≡ true) rows
unfolding list_assets list_rules list_incidents list_actions
list_routes-Lists engine db laws = (
  order_by-Lists engine asset_read _ db.assets laws
      (λ a b. text_le_total a.external_id b.external_id)
      (λ a b c. text_le_trans a.external_id b.external_id c.external_id),
  order_by-Lists engine rule_read _ db.automation_rules laws (λ a b. text_le_total a.name b.name)
      (λ a b c. text_le_trans a.name b.name c.name),
  order_by-Lists engine incident_read _ db.incidents laws (λ a b. ground arith)
      (λ a b c p q. ground arith),
  engine.order_by Action newest db.actions,
  refl,
  laws.order_by-perm Action newest db.actions,
  laws.order_by-sorted Action newest db.actions (λ a b. ground arith) (λ a b c p q. ground arith),
)
