-- ===== src/Idempotency/Held.antt =====
-- The outcome that the record of a key holds, and its replay.
use support_operations_intel.Models.Inserts.{audit_row}
use mathlib.Core.Option
use support_operations_intel.Schemas.{EventCreate}
use support_operations_intel.Models.Database.{pure, ◌>>◌, and_then, raised, ok, Database, Result}
use support_operations_intel.Models.Tables.{Action, Incident, OperationalEvent, IdempotencyRecord}
use support_operations_intel.Idempotency.{
  get_if, replay, record_of, filled, new_record, fulfil, claim, own, Reply, Others,
}
use support_operations_intel.Prelude.{
  ◌+◌, none, Option, eq_refl, suc, length, some, true, find, refl, arith, ◌==◌, update_where, false,
  ◌∷◌, List, ◌≡◌, ℕ, String,
}
use support_operations_intel.Processor.{process_new, Processed}
use support_operations_intel.Models.Engine.{IsEngine, Engine, Clock}
use support_operations_intel.Processor.Outcome.{
  HasKey, process_new-Keyed, process_new-Records, OnReturn, Records, Keyed, onto,
}

-- The key's record holds the outcome, and the rows that it names stand first in their tables.
pub record Holds (key : String) (done : Processed) (db : Database) : Type 0 where
  pub held : IdempotencyRecord
  pub key_of : held.key ≡ key
  pub event_of : held.event_id ≡ some done.event.id
  pub incident_of : held.incident_id ≡ Option.map (λ i. i.id) done.incident
  pub action_of : held.action_id ≡ Option.map (λ a. a.id) done.action
  pub reason_of : held.skipped_reason ≡ done.skipped_reason
  pub rest : List IdempotencyRecord
  pub stored : db.idempotency_records ≡ held ∷ rest
  pub events : List OperationalEvent
  pub has_event : db.operational_events ≡ done.event ∷ events
  pub incidents : List Incident
  pub has_incident : db.incidents ≡ onto done.incident incidents
  pub actions : List Action
  pub has_action : db.actions ≡ onto done.action actions
  pub keyed : Keyed done

-- Of a call that owns its key.
abbrev pub Owned : String → Result Reply × Database → Type 0
Owned key (ok (done, replayed), db') = (replayed ≡ false) × Holds key done db'
Owned key (raised e, db') = Unit

module _ (engine : Engine) (clock : Clock) (others : Others) (max_queue_backlog : ℕ) where
  pub own-Owned :
      (key : String) (payload : EventCreate) (db : Database)
      → IsEngine engine
      → Owned key (own engine clock others max_queue_backlog key payload db)
  unfolding own
  own-Owned key payload db laws =
      let claimed = (claim engine clock key db).1 in
      fulfilled (process_new engine clock max_queue_backlog payload claimed)
        (process_new-Records engine clock max_queue_backlog payload claimed)
        (process_new-Keyed engine clock max_queue_backlog payload laws claimed)
    where
      fulfilled :
          (out : Result Processed × Database)
          → Records payload (claim engine clock key db).1 out
          → OnReturn Keyed out
          → Owned key (
              and_then out.0
                (λ done.
                  fulfil engine clock (new_record engine clock key db) done >> pure (done, false))
                out.1)
      fulfilled (ok done, db') (adds, _, _) keyed = (
        refl,
        record {
          held = filled clock done (new_record engine clock key db);
          key_of = refl;
          event_of = refl;
          incident_of = refl;
          action_of = refl;
          reason_of = refl;
          rest =
              update_where (λ r. r.id == (new_record engine clock key db).id) (filled clock done)
                db.idempotency_records;
          stored = rw adds.records (ground arith);
          events = db.operational_events;
          has_event = adds.events;
          incidents = db.incidents;
          has_incident = adds.incidents;
          actions = db.actions;
          has_action = adds.actions;
          keyed = keyed;
        },
      )
      fulfilled (raised e, db') records keyed = tt

-- A returned row is found again by its key.
pub get_if-onto {ℓ} :
    {A : Type ℓ} (id : A → ℕ) (o : Option A) (rows rest : List A)
    → rows ≡ onto o rest
    → HasKey id o
    → get_if id (Option.map id o) rows ≡ o
get_if-onto id none rows rest e pos = refl
get_if-onto id (some a) rows rest e pos = rw e (ground arith)

-- What a replay of an outcome leaves: the same reply, marked as a replay, and no new event,
-- incident or action.
abbrev pub Replays : String → Processed → Database → Result Reply × Database → Type 0
Replays key done db (ok (again, replayed), db') =
    Holds key done db'
    × (again ≡ done)
    × (replayed ≡ true)
    × (db'.operational_events ≡ db.operational_events)
    × (db'.incidents ≡ db.incidents)
    × (db'.actions ≡ db.actions)
    × (length db'.audit_logs ≡ suc (length db.audit_logs))
Replays key done db (raised e, db') = ⊥

module _ (engine : Engine) (clock' : Clock) (key : String) (done : Processed) (db : Database)
    (holds : Holds key done db) where
  pub record_of-Holds : record_of key db ≡ some holds.held
  record_of-Holds = rw (holds.stored, holds.key_of) (ground (arith, eq_refl key))

  event_found : find (λ e. e.id == done.event.id) db.operational_events ≡ some done.event
  event_found = rw holds.has_event (ground arith)

  -- The count of a replay leaves the outcome in the record.
  abbrev hit : IdempotencyRecord → IdempotencyRecord
  hit r = record r { hits = r.hits + 1; updated_at = clock' 8 }

  abbrev counted : Database
  counted = record db {
    audit_logs =
        audit_row engine (clock' 9) db "idempotency_hit" "idempotency_record" holds.held.id
          "Reused idempotent event result"
        ∷ db.audit_logs;
    idempotency_records = update_where (λ r. r.id == holds.held.id) hit db.idempotency_records;
  }

  counted-Holds : Holds key done counted
  counted-Holds = record {
    held = hit holds.held;
    key_of = holds.key_of;
    event_of = holds.event_of;
    incident_of = holds.incident_of;
    action_of = holds.action_of;
    reason_of = holds.reason_of;
    rest = update_where (λ r. r.id == holds.held.id) hit holds.rest;
    stored = rw holds.stored (ground arith);
    events = holds.events;
    has_event = holds.has_event;
    incidents = holds.incidents;
    has_incident = holds.has_incident;
    actions = holds.actions;
    has_action = holds.has_action;
    keyed = holds.keyed;
  }

  pub replay-Holds : Replays key done db (replay engine clock' holds.held done.event.id db)
  unfolding replay
  replay-Holds =
      rw
        (
          holds.incident_of,
          holds.action_of,
          holds.reason_of,
          event_found,
          get_if-onto (λ i. i.id) done.incident db.incidents holds.incidents holds.has_incident
              holds.keyed.0,
          get_if-onto (λ a. a.id) done.action db.actions holds.actions holds.has_action
              holds.keyed.1,
        )
        (counted-Holds, refl, refl, refl, refl, refl, refl)
