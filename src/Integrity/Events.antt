-- ===== src/Integrity/Events.antt =====
-- The writes of services/processor.py for a new event.
use text.Mathlib.TextLemmas.{length-append}
use support_operations_intel.Processor.Outcome.{asset_of}
use support_operations_intel.Integrity.Rows.{EventFits}
use support_operations_intel.Rules.Best.{match-Picks, Picks}
use Prim.Native.String.{◌++◌ as text_append}
use support_operations_intel.Rules
use mathlib.Core.Option
use support_operations_intel.Integrity.{
  marks_assets, adds_event, unchanged, adds_incident, adds_action, Writes-trans, then_write, logs,
  one_write, has_rule_id, Points, Writes, has_event, has_incident, has_asset,
}
use support_operations_intel.Models.Database.{Database}
use support_operations_intel.Models.Tables.{Incident, OperationalEvent, Asset, AutomationRule}
use support_operations_intel.Processor.{
  record_event, event_row, process_new, action_row, incident_row, queue_backlog, in_cooldown, act,
  settle,
}
use support_operations_intel.Schemas.{length_within, if_given, event_is_valid, EventCreate}
use support_operations_intel.Prelude.{
  refl, ◌∙◌, any-update_where, ◌≤◌, has_id-find, [], or_text, ◌==◌, any_of_mem, String,
  Option-cases, f_string, none, arith, ◌∷◌, leb, inr, some, inl, str_eq, Bool-cases, true, Option,
  has_id_fresh, false, map, has_id, ◌≡◌, List, ℕ,
}
use support_operations_intel.Models.Engine.{Clock, IsEngine, Engine}
use Prim.Native.String.{count as text_length}

-- `uuid4().hex` has 32 characters.
abbrev pub HasUuids : Engine → Type 0
HasUuids engine = (n : ℕ) → text_length (engine.uuid n) ≡ 32

module _ {A : Type 0} (engine : Engine) (laws : IsEngine engine) where
  -- The key of a new row is in no row.
  pub fresh_id : (id : A → ℕ) (xs : List A) → has_id id (engine.next_id (map id xs)) xs ≡ false
  fresh_id id xs = has_id_fresh id (engine.next_id (map id xs)) xs (laws.next_id-new (map id xs))

module _ (engine : Engine) (clock : Clock) (max_queue_backlog : ℕ) (payload : EventCreate)
    (laws : IsEngine engine) where
  act-Writes :
      (rule : AutomationRule) (event : OperationalEvent) (incident : Incident) (db : Database)
      → has_incident db incident.id ≡ true
      → Writes db (act engine clock max_queue_backlog payload rule event incident db).1
  unfolding act
  act-Writes rule event incident db there = elim (Bool-cases (str_eq rule.action_type "none")) [
    | inl nothing ↦ rw nothing (one_write (logs _ (fresh_id engine laws (λ l. l.id) _)))
    | inr something ↦ elim (Bool-cases (leb max_queue_backlog (queue_backlog db))) [
      | inl full ↦ rw (something, full) (one_write (logs _ (fresh_id engine laws (λ l. l.id) _)))
      | inr free ↦
          rw (something, free)
            (then_write
              (one_write (
                adds_action (action_row engine clock payload rule incident db)
                  (fresh_id engine laws (λ a. a.id) db.actions) there refl))
              (logs _ (fresh_id engine laws (λ l. l.id) _)))
    ]
  ]

  settle-Writes :
      (asset : Asset) (event : OperationalEvent) (rule : Option AutomationRule) (db : Database)
      → has_asset db asset.id ≡ true
      → has_event db event.id ≡ true
      → Points (has_rule_id db) (Option.map (λ r. r.id) rule)
      → Writes db (settle engine clock max_queue_backlog payload asset event rule db).1
  unfolding settle
  settle-Writes asset event none db asset_there event_there rule_there =
      one_write (logs _ (fresh_id engine laws (λ l. l.id) _))
  settle-Writes asset event (some rule) db asset_there event_there rule_there =
      elim (Bool-cases (in_cooldown (clock 1) asset rule.cooldown_minutes db)) [
        | inl recent ↦ rw recent (one_write (logs _ (fresh_id engine laws (λ l. l.id) _)))
        | inr none_recent ↦
            let incident = incident_row engine clock asset rule event db in
            let opened_db = record db { incidents = incident ∷ db.incidents } in
            rw none_recent (
              Writes-trans
                (one_write (
                  adds_incident incident (fresh_id engine laws (λ i. i.id) db.incidents)
                    (asset_there, rule_there, event_there) refl))
                (act-Writes rule event incident opened_db (ground arith)))
      ]

  match-Points :
      (event : OperationalEvent) (db : Database)
      → Points (has_rule_id db) (Option.map (λ r. r.id) (Rules.match engine event db))
  match-Points event db = stored (Rules.match engine event db) (match-Picks engine event db laws)
    where
      stored :
          (found : Option AutomationRule)
          → Picks event db found
          → Points (has_rule_id db) (Option.map (λ r. r.id) found)
      stored none picks = tt
      stored (some rule) picks =
          any_of_mem (λ r. r.id == rule.id) db.automation_rules rule picks.stored (ground arith)

  correlation_fits :
      (given : Option String)
      → if_given (length_within 3 80) given ≡ true
      → HasUuids engine
      → text_length (or_text given (f_string ("corr-" ∷ engine.uuid 0 ∷ []))) ≤ 80
  unfolding f_string
  correlation_fits none valid uuids = omega (
    arith,
    length-append "corr-" (text_append (engine.uuid 0) ""),
    length-append (engine.uuid 0) "",
    uuids 0,
  )
  correlation_fits (some String.[]) valid uuids = ground arith
  correlation_fits (some (String.◌∷◌ c s)) valid uuids = ground arith

  event_row-EventFits :
      (asset : Asset) (db : Database)
      → HasUuids engine
      → event_is_valid payload ≡ true
      → EventFits (event_row engine clock payload asset db)
  unfolding event_is_valid
  event_row-EventFits asset db uuids valid =
      let given : if_given (length_within 3 80) payload.correlation_id ≡ true = ground arith in
      ground (arith, correlation_fits payload.correlation_id given uuids)

  pub process_new-Writes :
      (db : Database)
      → HasUuids engine
      → event_is_valid payload ≡ true
      → Writes db (process_new engine clock max_queue_backlog payload db).1
  unfolding process_new
  process_new-Writes db uuids valid = elim (Option-cases (asset_of payload db)) [
    | inl e ↦ rw e unchanged
    | inr (asset, e) ↦
        let event = event_row engine clock payload asset db in
        let recorded = (record_event engine clock payload asset db).1 in
        let there : has_asset db asset.id ≡ true =
          has_id-find (λ a. a.id) (λ a. str_eq a.external_id payload.asset_external_id) db.assets
            asset e in
        rw e (
          Writes-trans
            (then_write
              (one_write (
                adds_event event (fresh_id engine laws (λ e. e.id) db.operational_events) there
                  (event_row-EventFits asset db uuids valid)))
              (marks_assets (λ a. a.id == asset.id) payload.category))
            (settle-Writes asset event (Rules.match engine event recorded) recorded
              (any-update_where (λ a. a.id == asset.id) (λ a. a.id == asset.id)
                  (λ a. record a { status = payload.category }) db.assets (λ x same. refl)
                ∙ there)
              (ground arith) (match-Points event recorded)))
  ]
