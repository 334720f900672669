-- ===== src/Processor/Outcome.antt =====
-- What `_process_new` leaves behind on every path.
use support_operations_intel.Prelude.{
  map, ◌<◌, refl, inr, inl, Option-cases, str_eq, find, ℕ, suc, ◌≡◌, true, Option, none, some, List,
  ◌∷◌, arith, length, is_some,
}
use support_operations_intel.Models.Tables.{Asset, AutomationRule, OperationalEvent}
use support_operations_intel.Models.Database.{unknown_asset, Database, Result, ok, raised}
use support_operations_intel.Models.Engine.{IsEngine, Engine, Clock}
use support_operations_intel.Schemas.{EventCreate}
use support_operations_intel.Rules
use support_operations_intel.Processor.{event_row, record_event, process_new, Processed, settle}

abbrev pub onto {ℓ} : {A : Type ℓ} → Option A → List A → List A
onto none rows = rows
onto (some a) rows = a ∷ rows

-- The rows that a processed event adds, and the tables that it leaves alone.
pub record Adds (db : Database) (done : Processed) (db' : Database) : Type 0 where
  pub events : db'.operational_events ≡ done.event ∷ db.operational_events
  pub incidents : db'.incidents ≡ onto done.incident db.incidents
  pub actions : db'.actions ≡ onto done.action db.actions
  pub audit_logs : length db'.audit_logs ≡ suc (length db.audit_logs)
  pub rules : db'.automation_rules ≡ db.automation_rules
  pub records : db'.idempotency_records ≡ db.idempotency_records
  pub jobs : db'.job_runs ≡ db.job_runs
  pub checks : db'.check_runs ≡ db.check_runs

-- How an incident and an action of one call point to the event, and what the call says was skipped.
abbrev pub Linked : Processed → Type 0
Linked done = elim done.incident [
  | none ↦ (done.action ≡ none) × (is_some done.skipped_reason ≡ true)
  | some i ↦ (i.event_id ≡ done.event.id) × (i.asset_id ≡ done.event.asset_id) × elim done.action [
    | none ↦ Unit
    | some a ↦ (a.incident_id ≡ i.id) × (done.skipped_reason ≡ none)
  ]
]

-- `select(Asset).where(external_id == …)`
abbrev pub asset_of : EventCreate → Database → Option Asset
asset_of payload db = find (λ a. str_eq a.external_id payload.asset_external_id) db.assets

-- What a call of `_process_new` leaves: all the rows of a known asset's event, or nothing.
abbrev pub Records : EventCreate → Database → Result Processed × Database → Type 0
Records payload db (ok done, db') =
    Adds db done db' × Linked done × (is_some (asset_of payload db) ≡ true)
Records payload db (raised e, db') =
    (e ≡ unknown_asset payload.asset_external_id) × (db' ≡ db) × (asset_of payload db ≡ none)

module _ (engine : Engine) (clock : Clock) (max_queue_backlog : ℕ) (payload : EventCreate) where
  -- From a database to which the event's row was added, what `settle` leaves.
  abbrev Settles : Database → Asset → OperationalEvent → Result Processed × Database → Type 0
  Settles db asset event (ok done, db') =
      (done.event ≡ event)
      × Linked done
      × (db'.operational_events ≡ db.operational_events)
      × (db'.incidents ≡ onto done.incident db.incidents)
      × (db'.actions ≡ onto done.action db.actions)
      × (length db'.audit_logs ≡ suc (length db.audit_logs))
      × (db'.automation_rules ≡ db.automation_rules)
      × (db'.idempotency_records ≡ db.idempotency_records)
      × (db'.job_runs ≡ db.job_runs)
      × (db'.check_runs ≡ db.check_runs)
      × (db'.assets ≡ db.assets)
  Settles db asset event (raised e, db') = ⊥

  settle-Settles :
      (asset : Asset) (event : OperationalEvent) (rule : Option AutomationRule) (db : Database)
      → event.asset_id ≡ asset.id
      → Settles db asset event (settle engine clock max_queue_backlog payload asset event rule db)
  unfolding settle
  settle-Settles asset event none db same = ground arith
  settle-Settles asset event (some rule) db same = ground arith

  -- One call adds exactly one event and one entry of the log, at most one incident and one action,
  -- which point to the event and the incident, and touches no rule, record, job or check; on an
  -- unknown asset it raises and changes nothing, and it raises on nothing else.
  pub process_new-Records :
      (db : Database) → Records payload db (process_new engine clock max_queue_backlog payload db)
  unfolding process_new
  process_new-Records db = elim (Option-cases (asset_of payload db)) [
    | inl e ↦ rw e (refl, refl, e)
    | inr (asset, e) ↦
        let (result, db') = record_event engine clock payload asset db in
        ground (
          arith,
          e,
          settle-Settles asset (event_row engine clock payload asset db)
              (Rules.match engine (event_row engine clock payload asset db) db') db' refl,
        )
  ]

-- The keys of the rows that a call returns are no zeros.
abbrev pub HasKey {ℓ} : {A : Type ℓ} → (A → ℕ) → Option A → Type 0
HasKey id none = Unit
HasKey id (some a) = 0 < id a

abbrev pub Keyed : Processed → Type 0
Keyed done = HasKey (λ i. i.id) done.incident × HasKey (λ a. a.id) done.action

abbrev pub OnReturn : (Processed → Type 0) → Result Processed × Database → Type 0
OnReturn P (ok done, db') = P done
OnReturn P (raised e, db') = Unit

module _ (engine : Engine) (clock : Clock) (max_queue_backlog : ℕ) (payload : EventCreate)
    (laws : IsEngine engine) where
  settle-Keyed :
      (asset : Asset) (event : OperationalEvent) (rule : Option AutomationRule) (db : Database)
      → OnReturn Keyed (settle engine clock max_queue_backlog payload asset event rule db)
  unfolding settle
  settle-Keyed asset event none db = ground arith
  settle-Keyed asset event (some rule) db = ground (
    arith,
    laws.next_id-pos (map (λ i. i.id) db.incidents),
    laws.next_id-pos (map (λ a. a.id) db.actions),
  )

  pub process_new-Keyed :
      (db : Database) → OnReturn Keyed (process_new engine clock max_queue_backlog payload db)
  unfolding process_new
  process_new-Keyed db = elim (Option-cases (asset_of payload db)) [
    | inl e ↦ rw e tt
    | inr (asset, e) ↦
        let (result, db') = record_event engine clock payload asset db in
        ground (
          arith,
          e,
          settle-Keyed asset (event_row engine clock payload asset db)
              (Rules.match engine (event_row engine clock payload asset db) db') db',
        )
  ]
