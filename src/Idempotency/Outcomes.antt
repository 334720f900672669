-- ===== src/Idempotency/Outcomes.antt =====
-- What idempotency promises, with no tables: a map from keys to outcomes, where a key that has an
-- outcome replays it, and any other key may decide one and keeps all others.
use support_operations_intel.Models.Tables.{Action, Incident, IdempotencyRecord, OperationalEvent}
use support_operations_intel.Processor.{Processed}
use support_operations_intel.Idempotency.{get_if, Reply, record_of, Others}
use support_operations_intel.Models.Database.{unknown_asset, raised, ok, Result, Database}
use support_operations_intel.Prelude.{
  ℕ, true, str_eq, ◌==◌, find, some, is_some, none, false, ◌≡◌, Option, String,
}

abbrev found_event :
    Option OperationalEvent → Option Incident → Option Action → Option String → Option Processed
found_event none incident action skipped_reason = none
found_event (some event) incident action skipped_reason = some (record {
  event = event;
  incident = incident;
  action = action;
  skipped_reason = skipped_reason;
})

-- The outcome that a record stands for.
abbrev at_event : Database → IdempotencyRecord → Option ℕ → Option Processed
at_event db r none = none
at_event db r (some event_id) =
    found_event (find (λ e. e.id == event_id) db.operational_events)
      (get_if (λ i. i.id) r.incident_id db.incidents) (get_if (λ a. a.id) r.action_id db.actions)
      r.skipped_reason

abbrev pub outcome_in : Database → Option IdempotencyRecord → Option Processed
outcome_in db none = none
outcome_in db (some r) = at_event db r r.event_id

-- The map that a database holds.
abbrev pub outcome_for : Database → String → Option Processed
outcome_for db key = outcome_in db (record_of key db)

-- What a call with the key does to the map.
abbrev pub Refines : String → (String → Option Processed) → Result Reply × Database → Type 0
Refines key outcomes (ok (done, true), db') =
    (outcomes key ≡ some done) × ((k : String) → outcome_for db' k ≡ outcomes k)
Refines key outcomes (ok (done, false), db') =
    (outcomes key ≡ none)
    × (outcome_for db' key ≡ some done)
    × ((k : String) → str_eq key k ≡ false → outcome_for db' k ≡ outcomes k)
Refines key outcomes (raised e, db') =
    (outcomes key ≡ none)
    × ((text : String) × (e ≡ unknown_asset text))
    × ((k : String) → outcome_for db' k ≡ outcomes k)

-- The key is free, or its record has its outcome: no other session works on it.
abbrev pub IsSettled : Others → String → Database → Type 0
IsSettled others key db =
    (others.claimed key ≡ false) × (is_some (record_of key db) ≡ is_some (outcome_for db key))
