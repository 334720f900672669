-- ===== src/Contract.antt =====
-- contract.py: the run of a workload against the engine. A row is a dict that JSON gives; its
-- `asset_id` and the `EventCreate` that Pydantic makes of it are parameters, as both can fail.
pub mod Unpacking
pub mod Seeding
pub mod Unique
use support_operations_intel.Models.States.{is_queued, is_failed, is_succeeded}
use support_operations_intel.Schemas.{EventCreate}
use support_operations_intel.Actions.{execute_action_with_retry, Policy}
use support_operations_intel.Models.Tables.{Action, Asset, OperationalEvent, Incident}
use support_operations_intel.Models.Engine.{Clock, Engine}
use support_operations_intel.Models.Database.{
  unpack_error, raise, modify, ◌>>◌, gets, key_error, raised, validation_error, ok, or_raise,
  and_then, Result, pure, ◌>>=◌, Session, Database,
}
use support_operations_intel.Prelude.{
  text_le, select, leb, f_string, str_eq, ◌+◌, [], true, count, if◌then◌else◌, map, none, any,
  false, ◌-◌, Bool, some, ◌∷◌, length, String, ℕ, Option, List,
}
use support_operations_intel.Idempotency.{Others, process, Reply}
use support_operations_intel.Prelude.Sort.{sort}

pub record Rows (Row : Type 0) : Type 0 where
  pub asset_id : Row → Option String
  pub event_create : Row → Option EventCreate

abbrev pub holds_text : String → List String → Bool
holds_text s texts = any (λ t. str_eq t s) texts

-- The elements of `{… for event in events}`; `sorted` puts them in order.
unfoldable pub distinct : List String → List String
distinct [] = []
distinct (s ∷ texts) = let rest = distinct texts in if holds_text s rest then rest else s ∷ rest

-- The keys of `canonical_summary`.
pub record CanonicalSummary : Type 0 where
  pub events : ℕ
  pub incidents : ℕ
  pub actions : ℕ
  pub audit_logs : ℕ
  pub normal_events : ℕ
  pub warning_incidents : ℕ
  pub suppressions : ℕ
  pub action_succeeded : ℕ
  pub action_failed : ℕ
  pub retries : ℕ

-- `skipped_counts`
pub record SkippedCounts : Type 0 where
  pub normal : ℕ
  pub warning_no_action : ℕ
  pub cooldown : ℕ

abbrev pub no_skips : SkippedCounts
no_skips = record { normal = 0; warning_no_action = 0; cooldown = 0 }

abbrev pub retries_of : List Action → ℕ
retries_of [] = 0
retries_of (a ∷ actions) = (a.attempts - 1) + retries_of actions

-- `canonical_summary`
unfoldable pub canonical_summary : SkippedCounts → Database → CanonicalSummary
canonical_summary skipped_counts db = record {
  events = length db.operational_events;
  incidents = length db.incidents;
  actions = length db.actions;
  audit_logs = length db.audit_logs;
  normal_events = skipped_counts.normal;
  warning_incidents = skipped_counts.warning_no_action;
  suppressions = skipped_counts.cooldown;
  action_succeeded = count (λ a. is_succeeded a.state) db.actions;
  action_failed = count (λ a. is_failed a.state) db.actions;
  retries = retries_of db.actions;
}

abbrev pub contract_asset : Engine → String → Database → Asset
contract_asset engine asset_id db = record {
  id = engine.next_id (map (λ a. a.id) db.assets);
  external_id = asset_id;
  name = f_string ("Synthetic asset " ∷ asset_id ∷ []);
  group = "contract";
  status = "unknown";
}

-- `add_all`, for the ids that are not among those that were stored before
unfoldable pub add_new_assets : Engine → List String → List String → Database → Database
add_new_assets engine existing [] db = db
add_new_assets engine existing (id ∷ ids) db = add_new_assets engine existing ids (
    if holds_text id existing
    then db
    else record db { assets = contract_asset engine id db ∷ db.assets })

-- The `if process_actions` block: none if a retry loop does not end within the fuel.
unfoldable pub run_queued :
    Engine → Policy → ℕ → Clock → List Action → Database → Option (Result (Unit {0}) × Database)
run_queued engine policy fuel clock [] db = some (ok tt, db)
run_queued engine policy fuel clock (action ∷ rest) db =
    elim (execute_action_with_retry engine policy fuel clock action db) [
      | none ↦ none
      | some (raised e, db') ↦ some (raised e, db')
      | some (ok action', db') ↦ run_queued engine policy fuel clock rest db'
    ]

-- What a value of the tuple is that `process` returns.
pub data Value : Type 0 where
  event_value : OperationalEvent → Value
  incident_value : Option Incident → Value
  action_value : Option Action → Value
  reason_value : Option String → Value
  replay_value : Bool → Value

-- The tuple that `process` returns.
abbrev pub values_of : Reply → List Value
values_of (done, idempotent) =
    event_value done.event
    ∷ incident_value done.incident
    ∷ action_value done.action
    ∷ reason_value done.skipped_reason
    ∷ replay_value idempotent
    ∷ []

-- The values of `_event, _incident, _action, skipped = …`
pub record FourNames (A : Type 0) : Type 0 where
  pub event : A
  pub incident : A
  pub action : A
  pub skipped : A

-- An assignment to four names, which raises unless it is given four values.
unfoldable pub unpack_four : {A : Type 0} → List A → Option (FourNames A)
unpack_four [] = none
unpack_four (a ∷ []) = none
unpack_four (a ∷ b ∷ []) = none
unpack_four (a ∷ b ∷ c ∷ []) = none
unpack_four (a ∷ b ∷ c ∷ d ∷ []) =
    some (record { event = a; incident = b; action = c; skipped = d })
unpack_four (a ∷ b ∷ c ∷ d ∷ e ∷ rest) = none

abbrev pub skipped_of : FourNames Value → Value
skipped_of names = names.skipped

-- `if skipped in skipped_counts: skipped_counts[skipped] += 1`
abbrev pub count_reason : String → SkippedCounts → SkippedCounts
count_reason skipped counts =
    if str_eq skipped "normal"
    then record counts { normal = counts.normal + 1 }
    else if str_eq skipped "warning_no_action"
    then record counts { warning_no_action = counts.warning_no_action + 1 }
    else if str_eq skipped "cooldown"
    then record counts { cooldown = counts.cooldown + 1 }
    else counts

unfoldable pub count_skipped : Value → SkippedCounts → SkippedCounts
count_skipped (reason_value (some skipped)) counts = count_reason skipped counts
count_skipped (reason_value none) counts = counts
count_skipped (event_value event) counts = counts
count_skipped (incident_value incident) counts = counts
count_skipped (action_value action) counts = counts
count_skipped (replay_value idempotent) counts = counts

module _ {Row : Type 0} (rows : Rows Row) where
  -- `str(event["asset_id"])` for each event, or none at the first that has no such key.
  unfoldable pub asset_ids_of : List Row → Option (List String)
  asset_ids_of [] = some []
  asset_ids_of (row ∷ events) = elim (rows.asset_id row) [
    | none ↦ none
    | some id ↦ elim (asset_ids_of events) [ none ↦ none | some ids ↦ some (id ∷ ids) ]
  ]

  -- `seed_assets_from_events`
  unfoldable pub seed_assets_from_events : Engine → List Row → Session (Unit {0})
  unfolding asset_ids_of distinct sort add_new_assets
  seed_assets_from_events engine events = do
    ids ← or_raise (asset_ids_of events) key_error
    existing ← gets (λ db. map (λ a. a.external_id) db.assets)
    modify (add_new_assets engine existing (sort text_le (distinct ids)))

  -- One row of the loop.
  unfoldable pub process_row :
      Engine → Clock → Others → ℕ → Row → SkippedCounts → Session SkippedCounts
  unfolding unpack_four count_skipped
  process_row engine clock others max_queue_backlog row skipped_counts = do
    payload ← or_raise (rows.event_create row) validation_error
    reply ← process engine clock others max_queue_backlog payload
    names ← or_raise (unpack_four (values_of reply)) unpack_error
    pure (count_skipped (skipped_of names) skipped_counts)

  unfoldable pub process_rows :
      Engine → Clock → Others → ℕ → List Row → SkippedCounts → Session SkippedCounts
  unfolding process_row
  process_rows engine clock others max_queue_backlog [] skipped_counts = pure skipped_counts
  process_rows engine clock others max_queue_backlog (row ∷ events) skipped_counts =
      process_row engine clock others max_queue_backlog row skipped_counts >>= λ counted.
      process_rows engine clock others max_queue_backlog events counted

  -- What follows the loop over the events: the actions, by their ids, and the summary.
  unfoldable pub conclude_run :
      Engine
      → Policy
      → ℕ
      → Clock
      → Bool
      → Result SkippedCounts × Database
      → Option (Result CanonicalSummary × Database)
  unfolding run_queued
  conclude_run engine policy fuel clock process_actions (raised e, db) = some (raised e, db)
  conclude_run engine policy fuel clock process_actions (ok skipped_counts, db) =
      let queued_actions =
        if process_actions
        then engine.order_by Action (λ a b. leb a.id b.id)
            (select (λ a. is_queued a.state) db.actions)
        else [] in
      elim (run_queued engine policy fuel clock queued_actions db) [
        | none ↦ none
        | some (raised e, db') ↦ some (raised e, db')
        | some (ok _, db') ↦ some (ok (canonical_summary skipped_counts db'), db')
      ]

  -- `process_contract_events`
  unfoldable pub process_contract_events :
      Engine
      → Clock
      → Others
      → ℕ
      → Policy
      → ℕ
      → Bool
      → List Row
      → Database
      → Option (Result CanonicalSummary × Database)
  unfolding seed_assets_from_events process_rows conclude_run
  process_contract_events engine clock others max_queue_backlog policy fuel process_actions events
        db =
      conclude_run engine policy fuel clock process_actions (
        (seed_assets_from_events engine events
            >> process_rows engine clock others max_queue_backlog events no_skips)
          db)
