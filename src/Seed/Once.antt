-- ===== src/Seed/Once.antt =====
-- What `seed_demo_data` stores, and that it stores it once.
use support_operations_intel.Models.Tables.{AutomationRule}
use support_operations_intel.Models.Database.{integrity_error, raised, ok, Result, Database}
use support_operations_intel.Models.Engine.{Engine}
use support_operations_intel.Prelude.{
  arith, true, ◌||◌, false, length, ◌&&◌, refl, ◌<◌, str_eq, inr, ◌⊎◌, Bool-cases, any, [], inl,
  ◌∷◌, ◌≡◌, List,
}
use support_operations_intel.Seed.{add_rule, add_asset, seed_demo_data, add_demo_rows, has_rule}

-- No rule has the name and the category of a later one.
abbrev pub HasUniqueRules : List AutomationRule → Type 0
HasUniqueRules [] = Unit
HasUniqueRules (a ∷ rest) =
    (any (λ r. str_eq r.name a.name && str_eq r.category a.category) rest ≡ false)
    × HasUniqueRules rest

-- What a call leaves: a database that a second call does not change, or an error.
abbrev pub Seeds : Engine → Database → Result (Unit {0}) × Database → Type 0
Seeds engine db (ok _, db') =
    (0 < length db'.assets)
    × HasUniqueRules db'.automation_rules
    × (seed_demo_data engine db' ≡ (ok tt, db'))
Seeds engine db (raised e, db') =
    (e ≡ integrity_error)
    × (db.assets ≡ [])
    × ((has_rule "Offline device triage" "offline" db
          || has_rule "Battery warning escalation" "battery_low" db)
        ≡ true)

pub list_cases :
    {A : Type 0} (xs : List A) → (xs ≡ []) ⊎ (a : A) × (rest : List A) × (xs ≡ a ∷ rest)
list_cases [] = inl refl
list_cases (a ∷ rest) = inr (a, rest, refl)

-- Where the rules are unique: a call stores at least one asset and keeps the rules unique, and a
-- second call changes nothing; it raises only where no asset but a rule of a demo name is stored.
pub seed_demo_data-Seeds :
    (engine : Engine) (db : Database)
    → HasUniqueRules db.automation_rules
    → Seeds engine db (seed_demo_data engine db)
unfolding seed_demo_data add_demo_rows add_asset add_rule
seed_demo_data-Seeds engine db unique = elim (list_cases db.assets) [
  | inl e ↦ elim (Bool-cases (has_rule "Offline device triage" "offline" db)) [
    | inl one ↦ rw (e, one) (refl, refl, rw one refl)
    | inr no_one ↦ elim (Bool-cases (has_rule "Battery warning escalation" "battery_low" db)) [
      | inl two ↦ rw (e, no_one, two) (refl, refl, rw (no_one, two) refl)
      | inr no_two ↦ rw (e, no_one, no_two) (omega arith, (no_two, (no_one, unique)), refl)
    ]
  ]
  | inr (a, rest, e) ↦ rw e (omega arith, unique, refl)
]
