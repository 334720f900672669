-- ===== src/Api/Requests.antt =====
-- What requests leave.
use support_operations_intel.Seed.{has_rule}
use support_operations_intel.Seed.Once.{HasUniqueRules}
use support_operations_intel.Models.Tables.{AutomationRule, Asset}
use support_operations_intel.Models.Engine.{Clock, Engine}
use support_operations_intel.Api.{create_rule, create_asset}
use support_operations_intel.Models.Database.{
  integrity_error, http_error, raised, ok, Result, Database,
}
use support_operations_intel.Prelude.{
  ◌==◌, Bool-cases, refl, true, is_some, inr, eq_refl, [], arith, suc, inl, none, length, str_eq,
  ◌≡◌, some, find, Option-cases, ◌∷◌, List,
}
use support_operations_intel.Schemas.{RuleCreate, AssetCreate}

-- No two assets have the same external id.
abbrev pub IsUnique : List Asset → Type 0
IsUnique [] = Unit
IsUnique (a ∷ rest) = (find (λ b. str_eq b.external_id a.external_id) rest ≡ none) × IsUnique rest

-- What POST /assets leaves.
abbrev pub Creates : AssetCreate → Database → Result Asset × Database → Type 0
Creates payload db (ok asset, db') =
    IsUnique db'.assets
    × (find (λ a. str_eq a.external_id payload.external_id) db'.assets ≡ some asset)
    × (asset.external_id ≡ payload.external_id)
    × (length db'.assets ≡ suc (length db.assets))
Creates payload db (raised e, db') =
    (e ≡ http_error 409 "asset already exists")
    × (db' ≡ db)
    × (is_some (find (λ a. str_eq a.external_id payload.external_id) db.assets) ≡ true)

-- External ids stay unique: a request makes an asset that is found by its id, or answers 409 where
-- the id is taken, and then changes nothing.
pub create_asset-Creates :
    (engine : Engine) (clock : Clock) (payload : AssetCreate) (db : Database)
    → IsUnique db.assets
    → Creates payload db (create_asset engine clock payload db)
unfolding create_asset
create_asset-Creates engine clock payload db unique =
    elim (Option-cases (find (λ a. str_eq a.external_id payload.external_id) db.assets)) [
      | inl e ↦ rw e ((e, unique), ground (arith, eq_refl payload.external_id), refl, refl)
      | inr (a, e) ↦ rw e (refl, refl, rw e refl)
    ]

-- What POST /rules leaves.
abbrev pub Stores : RuleCreate → Database → Result AutomationRule × Database → Type 0
Stores payload db (ok rule, db') =
    HasUniqueRules db'.automation_rules
    × (db'.automation_rules ≡ rule ∷ db.automation_rules)
    × (rule.name ≡ payload.name)
    × (rule.category ≡ payload.category)
    × (rule.minimum_severity ≡ payload.minimum_severity)
    × (rule.cooldown_minutes ≡ payload.cooldown_minutes)
    × (rule.action_type ≡ payload.action_type)
    × (rule.enabled ≡ payload.enabled)
    × (some rule ≡ find (λ r. r.id == rule.id) db'.automation_rules)
Stores payload db (raised e, db') =
    (e ≡ integrity_error) × (db' ≡ db) × (has_rule payload.name payload.category db ≡ true)

-- Where no two rules have the same name and category, this stays so: a request stores a rule with
-- every value of its body, which is found by its id, or raises where a rule has its name and
-- category, and then changes nothing.
pub create_rule-Stores :
    (engine : Engine) (clock : Clock) (payload : RuleCreate) (db : Database)
    → HasUniqueRules db.automation_rules
    → Stores payload db (create_rule engine clock payload db)
unfolding create_rule
create_rule-Stores engine clock payload db unique =
    elim (Bool-cases (has_rule payload.name payload.category db)) [
      | inl taken ↦ rw taken (refl, refl, rw taken refl)
      | inr free ↦ rw free ((free, unique), refl, refl, refl, refl, refl, refl, refl, ground arith)
    ]
