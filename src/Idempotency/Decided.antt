-- ===== src/Idempotency/Decided.antt =====
-- What the outcome that a call of services/processor.py stores does to the outcomes of all keys.
use support_operations_intel.Idempotency.Held.{get_if-onto}
use support_operations_intel.Integrity.Events.{fresh_id}
use support_operations_intel.Integrity.Sound.{IsKeyed}
use support_operations_intel.Processor.Outcome.{Keyed, Adds, onto}
use support_operations_intel.Integrity.{Points, has_event, RecordLinks}
use support_operations_intel.Processor.{Processed}
use support_operations_intel.Prelude.{
  arith, All_find, eq_refl, All, update_where_none, Bool, none, has_id, find-cons_fresh, same_id,
  Distinct, List, Option, refl, false, inr, true, inl, Option-cases, some, ◌==◌, str_eq,
  update_where, ◌≡◌, ℕ, ◌∷◌, String,
}
use support_operations_intel.Idempotency.{new_record, filled, get_if, record_of}
use support_operations_intel.Models.Tables.{IdempotencyRecord}
use support_operations_intel.Models.Database.{Database}
use support_operations_intel.Models.Engine.{IsEngine, Clock, Engine}
use support_operations_intel.Idempotency.Outcomes.{outcome_in, outcome_for}

-- A row that was there is found as before, once a row with a new key stands in front.
get_if-onto_fresh :
    {A : Type 0} (id : A → ℕ) (k : Option ℕ) (new : Option A) (rows : List A)
    → Distinct (same_id id) (onto new rows)
    → Points (λ i. has_id id i rows) k
    → get_if id k (onto new rows) ≡ get_if id k rows
get_if-onto_fresh id none new rows distinct there = refl
get_if-onto_fresh id (some k) none rows distinct there = refl
get_if-onto_fresh id (some k) (some a) rows (fresh, distinct) there =
    rw (find-cons_fresh id k a rows fresh there) refl

-- The tables of `d` are those of `db` with the rows of one event in front.
pub record IsNext (db d : Database) (done : Processed) : Type 0 where
  pub events : d.operational_events ≡ done.event ∷ db.operational_events
  pub incidents : d.incidents ≡ onto done.incident db.incidents
  pub actions : d.actions ≡ onto done.action db.actions
  pub keyed : IsKeyed d

pub outcome_in-IsNext :
    (db d : Database) (done : Processed) (r : IdempotencyRecord)
    → IsNext db d done
    → RecordLinks db r
    → outcome_in d (some r) ≡ outcome_in db (some r)
outcome_in-IsNext db d done r next (event_there, incident_there, action_there) =
    elim (Option-cases r.event_id) [
      | inl e ↦ rw e refl
      | inr (event_id, e) ↦
          let there : has_event db event_id ≡ true = rw e at event_there in
          let distinct = rw next.events at next.keyed.event_ids in
          rw
            (
              e,
              next.events,
              next.incidents,
              next.actions,
              find-cons_fresh (λ x. x.id) event_id done.event db.operational_events distinct.0
                  there,
              get_if-onto_fresh (λ i. i.id) r.incident_id done.incident db.incidents
                  (rw next.incidents at next.keyed.incident_ids) incident_there,
              get_if-onto_fresh (λ a. a.id) r.action_id done.action db.actions
                  (rw next.actions at next.keyed.action_ids) action_there,
            )
            refl
    ]

module _ (engine : Engine) (clock : Clock) (key : String) (db : Database)
    (free : record_of key db ≡ none) where
  abbrev pub claimed : Database
  claimed = record db {
    idempotency_records = new_record engine clock key db ∷ db.idempotency_records;
  }

  abbrev mine : IdempotencyRecord → Bool
  mine r = r.id == (new_record engine clock key db).id

  abbrev pub fulfilled : Processed → Database → Database
  fulfilled done d = record d {
    idempotency_records = update_where mine (filled clock done) d.idempotency_records;
  }

  module _ (laws : IsEngine engine) (done : Processed) (d : Database)
      (adds : Adds claimed done d) where
    pub records_after :
        (fulfilled done d).idempotency_records
        ≡ filled clock done (new_record engine clock key db) ∷ db.idempotency_records
    records_after = rw adds.records (
        rw
          (update_where_none mine (filled clock done) db.idempotency_records
            (fresh_id engine laws (λ r. r.id) db.idempotency_records))
          (ground arith))

    -- The key has the outcome.
    pub decided : Keyed done → outcome_for (fulfilled done d) key ≡ some done
    decided (incident_key, action_key) =
        rw
          (
            records_after,
            eq_refl key,
            adds.events,
            get_if-onto (λ i. i.id) done.incident d.incidents db.incidents adds.incidents
                incident_key,
            get_if-onto (λ a. a.id) done.action d.actions db.actions adds.actions action_key,
          )
          (ground arith)

    -- Every other key keeps its own.
    pub others_kept :
        (k : String)
        → IsKeyed (fulfilled done d)
        → All (RecordLinks db) db.idempotency_records
        → str_eq key k ≡ false
        → outcome_for (fulfilled done d) k ≡ outcome_for db k
    others_kept k keyed linked other =
        let same : record_of k (fulfilled done d) ≡ record_of k db =
          rw (records_after, other) refl in
        let next : IsNext db (fulfilled done d) done = record {
          events = adds.events;
          incidents = adds.incidents;
          actions = adds.actions;
          keyed = keyed;
        } in
        elim (Option-cases (record_of k db)) [
          | inl e ↦ rw (same, e) refl
          | inr (r, e) ↦
              rw (same, e)
                (outcome_in-IsNext db (fulfilled done d) done r next (
                  All_find (RecordLinks db) (λ x. str_eq x.key k) db.idempotency_records r linked
                    e))
        ]
