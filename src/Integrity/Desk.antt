-- ===== src/Integrity/Desk.antt =====
-- The writes of api/app.py on assets and rules, of seed.py, and of services/checks.py.
use support_operations_intel.Integrity.Events.{fresh_id}
use support_operations_intel.Seed.Once.{list_cases}
use support_operations_intel.Integrity.{
  logs, Writes-trans, adds_check, adds_rule, Writes-and_then, saves_check, adds_asset, one_write,
  then_write, unchanged, Writes,
}
use support_operations_intel.Integrity.Rows.{AssetFits, RuleFits, CheckFits}
use support_operations_intel.Models.Database.{Database}
use support_operations_intel.Models.Tables.{CheckRun}
use support_operations_intel.Schemas.{
  AssetCreate, RuleCreate, CheckCreate, rule_is_valid, asset_is_valid, check_is_valid,
}
use support_operations_intel.Api.{rule_row, asset_row, create_rule, create_asset}
use support_operations_intel.Seed.{
  demo_asset, has_rule, demo_rule, add_demo_rows, seed_demo_data, add_asset, add_rule,
}
use support_operations_intel.Checks.{
  allowed_transitions, is_overdue, named_in, moved, transition_check, expire_each, create_check,
  expire_waiting_checks,
}
use support_operations_intel.Models.Engine.{after_reads, or_now, Clock, IsEngine, Engine}
use support_operations_intel.Prelude.{
  refl, arith, any-find-none, All-select_of, none, [], inl, some, Bool-cases, select, ◌∷◌, find,
  false, inr, str_eq, true, Option-cases, ◌≡◌, any, All, Option, String, List, ℕ,
}

module _ (engine : Engine) (laws : IsEngine engine) where
  pub create_asset-Writes :
      (clock : Clock) (payload : AssetCreate) (db : Database)
      → asset_is_valid payload ≡ true
      → Writes db (create_asset engine clock payload db).1
  unfolding create_asset asset_is_valid
  create_asset-Writes clock payload db valid =
      elim (Option-cases (find (λ a. str_eq a.external_id payload.external_id) db.assets)) [
        | inl free ↦ rw free (
            one_write (
              adds_asset {db = db} (asset_row engine payload db)
                (fresh_id engine laws (λ a. a.id) db.assets)
                (any-find-none (λ a. str_eq a.external_id payload.external_id) db.assets free)
                (ground arith)))
        | inr (a, taken) ↦ rw taken unchanged
      ]

  pub create_rule-Writes :
      (clock : Clock) (payload : RuleCreate) (db : Database)
      → rule_is_valid payload ≡ true
      → Writes db (create_rule engine clock payload db).1
  unfolding create_rule rule_is_valid
  create_rule-Writes clock payload db valid =
      elim (Bool-cases (has_rule payload.name payload.category db)) [
        | inl taken ↦ rw taken unchanged
        | inr free ↦ rw free (
            one_write (
              adds_rule {db = db} (rule_row engine clock payload db)
                (fresh_id engine laws (λ r. r.id) db.automation_rules) free (ground arith)))
      ]

  add_rule-Writes :
      (name category : String) (minimum_severity cooldown_minutes : ℕ) (action_type : String)
      (db : Database)
      → RuleFits (demo_rule 0 name category minimum_severity cooldown_minutes action_type)
      → Writes db (add_rule engine name category minimum_severity cooldown_minutes action_type db).1
  unfolding add_rule
  add_rule-Writes name category minimum_severity cooldown_minutes action_type db fits =
      elim (Bool-cases (has_rule name category db)) [
        | inl taken ↦ rw taken unchanged
        | inr free ↦ rw free (
            one_write (
              adds_rule {db = db} _ (fresh_id engine laws (λ r. r.id) db.automation_rules) free
                fits))
      ]

  add_asset-Writes :
      (external_id name group : String) (db : Database)
      → any (λ a. str_eq a.external_id external_id) db.assets ≡ false
      → AssetFits (demo_asset 0 external_id name group)
      → Writes db (add_asset engine external_id name group db).1
  unfolding add_asset
  add_asset-Writes external_id name group db free fits =
      one_write (adds_asset {db = db} _ (fresh_id engine laws (λ a. a.id) db.assets) free fits)

  pub seed_demo_data-Writes : (db : Database) → Writes db (seed_demo_data engine db).1
  unfolding seed_demo_data add_demo_rows add_asset
  seed_demo_data-Writes db = elim (list_cases db.assets) [
    | inr (a, rest, e) ↦ rw e unchanged
    | inl e ↦
        let none_yet : Database = record db { assets = [] } in
        let one =
          (add_asset engine "PUMP-101" "North pump controller" "water-treatment" none_yet).1 in
        let two = (add_asset engine "GATEWAY-7" "Warehouse telemetry gateway" "logistics" one).1 in
        let three =
          (add_asset engine "SENSOR-44" "Cold room synthetic sensor" "facilities" two).1 in
        let first_rule =
          add_rule engine "Offline device triage" "offline" 70 20 "create_ticket" three in
        let assets : Writes none_yet three =
          Writes-trans
            (Writes-trans
              (add_asset-Writes "PUMP-101" "North pump controller" "water-treatment" none_yet refl
                (omega arith))
              (add_asset-Writes "GATEWAY-7" "Warehouse telemetry gateway" "logistics" one refl
                (omega arith)))
            (add_asset-Writes "SENSOR-44" "Cold room synthetic sensor" "facilities" two refl
              (omega arith)) in
        let rule : Writes three first_rule.1 =
          add_rule-Writes "Offline device triage" "offline" 70 20 "create_ticket" three
            (omega arith) in
        rw e (
          Writes-and_then none_yet first_rule
            (λ _. add_rule engine "Battery warning escalation" "battery_low" 80 60 "notify_owner")
            (Writes-trans assets rule)
            (λ _.
              add_rule-Writes "Battery warning escalation" "battery_low" 80 60 "notify_owner"
                first_rule.1 (omega arith)))
  ]

module _ (engine : Engine) (laws : IsEngine engine) where
  pub create_check-Writes :
      (clock : Clock) (now : Option ℕ) (payload : CheckCreate) (db : Database)
      → check_is_valid payload ≡ true
      → Writes db
          (create_check engine clock now payload.name payload.asset_external_id payload.detail db).1
  unfolding create_check check_is_valid
  create_check-Writes clock now payload db valid =
      then_write
        (one_write
          (adds_check {db = db} _ (fresh_id engine laws (λ c. c.id) db.check_runs) (ground arith)))
        (logs _ (fresh_id engine laws (λ l. l.id) _))

  pub transition_check-Writes :
      (clock : Clock) (now : Option ℕ) (check : CheckRun) (text detail : String)
      (timeout_seconds : Option ℕ) (db : Database)
      → CheckFits check
      → Writes db (transition_check engine clock now check text detail timeout_seconds db).1
  unfolding transition_check moved
  transition_check-Writes clock now check text detail timeout_seconds db fits =
      elim (Option-cases (named_in text (allowed_transitions check.state))) [
        | inl refused ↦ rw (refused, transition_check) unchanged
        | inr (target, e) ↦
            rw (e, transition_check)
              (then_write
                (one_write (
                  saves_check {db = db}
                    (moved check target detail timeout_seconds (or_now now (clock 0))) fits))
                (logs _ (fresh_id engine laws (λ l. l.id) _)))
      ]

  expire_each-Writes :
      (clock : Clock) (now : ℕ) (checks : List CheckRun) (db : Database)
      → All CheckFits checks
      → Writes db (expire_each engine clock now checks db).1
  unfolding expire_each
  expire_each-Writes clock now [] db fits = unchanged
  expire_each-Writes clock now (check ∷ rest) db (first, others) =
      let step =
        transition_check engine clock (some now) check "timeout" "confirmation timeout" none db in
      Writes-and_then db step (λ _. expire_each engine (after_reads clock 2) now rest)
        (transition_check-Writes clock (some now) check "timeout" "confirmation timeout" none db
          first)
        (λ _. expire_each-Writes (after_reads clock 2) now rest step.1 others)

  pub expire_waiting_checks-Writes :
      (clock : Clock) (given : Option ℕ) (db : Database)
      → All CheckFits db.check_runs
      → Writes db (expire_waiting_checks engine clock given db).1
  unfolding expire_waiting_checks
  expire_waiting_checks-Writes clock given db fits =
      let now = or_now given (clock 0) in
      let checks = select (is_overdue now) db.check_runs in
      Writes-and_then db (expire_each engine (after_reads clock 1) now checks db) _
        (expire_each-Writes (after_reads clock 1) now checks db
          (All-select_of _ _ db.check_runs fits))
        (λ _. unchanged)
