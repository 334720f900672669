-- ===== src/Cli/Shows.antt =====
-- What the demo of cli.py shows.
use support_operations_intel.Prelude.{
  ap, [], ◌∷◌, arith, some, ℕ, ◌≤◌, ◌<◌, ◌≡◌, List, length, refl, true, false, leb, str_eq, All,
  zero, suc, Option-cases, inl, inr, ◌∙◌, All_mem,
}
use mathlib.Core.Bool.{Bool-set}
use mathlib.Core.Path.{subst}
use mathlib.Core.List.{Mem, mem-cons_of_mem, mem-cons_self}
use support_operations_intel.Idempotency.{Reply}
use support_operations_intel.Cli.{Shown}
use support_operations_intel.Models.Database.{
  and_then, pure, ◌>>=◌, ok, Database, Result, empty_database,
}
use support_operations_intel.Models.Engine.{Clock, Engine, IsEngine, after_reads}
use support_operations_intel.Models.States.{succeeded}
use support_operations_intel.Models.Tables.{Asset, AutomationRule, OperationalEvent}
use support_operations_intel.Seed.{
  demo_asset, demo_rule, seed_demo_data, add_demo_rows, add_asset, add_rule,
}
use support_operations_intel.Idempotency.{process, by_key, process_plain, Others}
use support_operations_intel.Rules.{applies, match}
use support_operations_intel.Rules.Best.{match-Picks, Picks}
use support_operations_intel.Processor.{
  in_cooldown, event_row, settle, process_new, record_event, escalate, open_incident, act, enqueue,
  announce, queue_action,
}
use support_operations_intel.Actions.{
  execute_action_with_retry, retry_loop, execute_action_once, attempt, finish, conclude,
  default_transport,
}
use support_operations_intel.Cli.{demo_event, finish_demo, run_demo}

-- An event triggers a rule that opens no incident without an action, where one of the stored rules
-- applies and all of them have actions.
abbrev HasAction : AutomationRule → Type 0
HasAction rule = str_eq rule.action_type "none" ≡ false

triggered :
    (engine : Engine) (event : OperationalEvent) (db : Database) (first : AutomationRule)
    → IsEngine engine
    → All HasAction db.automation_rules
    → Mem first db.automation_rules
    → applies event first ≡ true
    → (rule : AutomationRule) × (match engine event db ≡ some rule) × HasAction rule
triggered engine event db first laws have stored fits =
    let picks = match-Picks engine event db laws in
    elim (Option-cases (match engine event db)) [
      | inl e ↦
          let misses : applies event first ≡ false = subst (Picks event db) e picks first stored in
          cc
      | inr (rule, e) ↦ (
        rule,
        e,
        All_mem HasAction (λ r. Bool-set _ _) db.automation_rules rule have
            ((subst (Picks event db) e picks).stored),
      )
    ]

abbrev pub demo_shown : Shown
demo_shown = record { assets = 3; incidents = 1; actions = 1; action_state = some succeeded }

module _ (engine : Engine) (clock later : Clock) (max_queue_backlog fuel : ℕ)
    (room : 0 < max_queue_backlog) where
  settled :
      (asset : Asset) (event : OperationalEvent) (rule : AutomationRule) (db : Database)
      → HasAction rule
      → db.incidents ≡ []
      → db.actions ≡ []
      → length db.assets ≡ 3
      → finish_demo engine (suc (suc fuel)) later (
          (settle engine clock max_queue_backlog demo_event asset event (some rule) >>= λ done.
          pure {A = Reply} (done, false))
            db)
        ≡ some (ok demo_shown)
  unfolding settle escalate in_cooldown open_incident act enqueue announce queue_action finish_demo
      execute_action_with_retry retry_loop execute_action_once attempt finish conclude
      default_transport
  settled asset event rule db has quiet idle three =
      let full : leb max_queue_backlog 0 ≡ false = ground arith in
      let calm : in_cooldown (clock 1) asset rule.cooldown_minutes db ≡ false =
        ground (arith, quiet) in
      rw (calm, has, idle, full) (rw three refl)

-- The demo's rules, as they are stored.
abbrev demo_rules : Engine → List AutomationRule
demo_rules engine =
    let first =
      demo_rule (engine.next_id []) "Offline device triage" "offline" 70 20 "create_ticket" in
    demo_rule (engine.next_id (first.id ∷ [])) "Battery warning escalation" "battery_low" 80 60
      "notify_owner"
    ∷ first
    ∷ []

abbrev seeded : Engine → Database
seeded engine =
    let pump = engine.next_id [] in
    let gateway = engine.next_id (pump ∷ []) in
    record empty_database {
      assets =
          demo_asset (engine.next_id (gateway ∷ pump ∷ [])) "SENSOR-44" "Cold room synthetic sensor"
            "facilities"
          ∷ demo_asset gateway "GATEWAY-7" "Warehouse telemetry gateway" "logistics"
          ∷ demo_asset pump "PUMP-101" "North pump controller" "water-treatment"
          ∷ [];
      automation_rules = demo_rules engine;
    }

seed_demo_data_fresh :
    (engine : Engine) → seed_demo_data engine empty_database ≡ (ok tt, seeded engine)
unfolding seed_demo_data add_demo_rows add_asset add_rule
seed_demo_data_fresh engine = refl

module _ (engine : Engine) (clock : Clock) (others : Others) (max_queue_backlog : ℕ) where
  run_demo-seeded :
      (fuel : ℕ)
      → run_demo engine clock others max_queue_backlog fuel
        ≡ finish_demo engine fuel
            (after_reads clock 12)
            (process engine clock others max_queue_backlog demo_event (seeded engine))
  unfolding run_demo
  run_demo-seeded fuel =
      ap
        (λ (out : Result (Unit {0}) × Database). finish_demo engine fuel (after_reads clock 12) (
          and_then {B = Reply} out.0 (λ _. process engine clock others max_queue_backlog demo_event)
            out.1))
        (seed_demo_data_fresh engine)

  abbrev pump : Asset
  pump = demo_asset (engine.next_id []) "PUMP-101" "North pump controller" "water-treatment"

  abbrev event : OperationalEvent
  event = event_row engine clock demo_event pump (seeded engine)

  abbrev recorded : Database
  recorded = (record_event engine clock demo_event pump (seeded engine)).1

  process_demo :
      (rule : AutomationRule)
      → match engine event recorded ≡ some rule
      → process engine clock others max_queue_backlog demo_event (seeded engine)
        ≡ (settle engine clock max_queue_backlog demo_event pump event (some rule) >>= λ done.
              pure {A = Reply} (done, false))
            recorded
  unfolding process by_key process_plain process_new record_event
  process_demo rule found = rw found refl

  -- With a lawful SQL engine, any clock, and room in the queue: the demo ends, and shows three
  -- assets, one incident and one action that succeeded.
  pub run_demo_lem :
      (fuel : ℕ)
      → IsEngine engine
      → 0 < max_queue_backlog
      → 2 ≤ fuel
      → run_demo engine clock others max_queue_backlog fuel ≡ some (ok demo_shown)
  unfolding record_event
  run_demo_lem zero laws room enough = absurd (ground arith)
  run_demo_lem (suc zero) laws room enough = absurd (ground arith)
  run_demo_lem (suc (suc fuel)) laws room enough =
      let (rule, found, has) =
        triggered engine event recorded
          (demo_rule (engine.next_id []) "Offline device triage" "offline" 70 20 "create_ticket")
          laws (refl, (refl, tt)) (mem-cons_of_mem _ mem-cons_self) refl in
      run_demo-seeded (suc (suc fuel))
      ∙ ap (finish_demo engine (suc (suc fuel)) (after_reads clock 12)) (process_demo rule found)
      ∙ settled engine clock (after_reads clock 12) max_queue_backlog fuel room pump event rule
          recorded has refl refl refl
