-- ===== src/Idempotency.antt =====
-- services/processor.py: the path of an event with an idempotency key. Other sessions show in two
-- ways: a key may be taken by a row that this session does not see, and what is committed changes
-- while the session waits.
pub mod Held
pub mod Once
pub mod Waiting
pub mod Unknown
pub mod Outcomes
pub mod Replays
pub mod Decided
pub mod Owns
pub mod Refines
use support_operations_intel.Prelude.{
  ℕ, zero, suc, ◌+◌, Bool, true, false, ◌||◌, Option, none, some, ◌∷◌, map, String, ◌==◌,
  if◌then◌else◌, is_some, find, update_where, List, str_eq, truthy, ◌&&◌, not,
}
use mathlib.Core.Option
use support_operations_intel.Models.Tables.{IdempotencyRecord}
use support_operations_intel.Models.Database.{
  Database, Session, pure, raise, gets, modify, or_raise, missing_event, idempotency_timeout, ok,
  ◌>>=◌, ◌>>◌,
}
use support_operations_intel.Models.Engine.{Engine, Clock}
use support_operations_intel.Models.Inserts.{audit}
use support_operations_intel.Schemas.{EventCreate}
use support_operations_intel.Processor.{Processed, process_new}

pub record Others : Type 0 where
  -- Keys that concurrent sessions hold.
  pub claimed : String → Bool
  -- What is committed at each look of the waiting loop.
  pub seen : ℕ → Database

-- `select(IdempotencyRecord).where(key == …)`
abbrev pub record_of : String → Database → Option IdempotencyRecord
record_of key db = find (λ r. str_eq r.key key) db.idempotency_records

-- `session.get(…, id) if id else None`
abbrev pub get_if {ℓ} : {A : Type ℓ} → (A → ℕ) → Option ℕ → List A → Option A
get_if id none rows = none
get_if id (some i) rows = if i == 0 then none else find (λ a. id a == i) rows

-- The tuple that `process` returns.
abbrev pub Reply : Type 0
Reply = Processed × Bool

-- The record with the outcome of a call.
abbrev pub filled : Clock → Processed → IdempotencyRecord → IdempotencyRecord
filled clock done r = record r {
  event_id = some done.event.id;
  incident_id = Option.map (λ i. i.id) done.incident;
  action_id = Option.map (λ a. a.id) done.action;
  skipped_reason = done.skipped_reason;
  updated_at = clock 12;
}

module _ (engine : Engine) (clock : Clock) where
  unfoldable pub count_hit : IdempotencyRecord → Session (Unit {0})
  count_hit record' = modify λ db. record db {
    idempotency_records =
        update_where (λ r. r.id == record'.id)
          (λ r. record r { hits = r.hits + 1; updated_at = clock 8 }) db.idempotency_records;
  }

  -- `_replay_idempotent_record`, with the record's event id
  unfoldable pub replay : IdempotencyRecord → ℕ → Session Reply
  unfolding count_hit audit
  replay record' event_id = do
    count_hit record'
    audit engine (clock 9) "idempotency_hit" "idempotency_record" record'.id
        "Reused idempotent event result"
    found ← gets (λ db. find (λ e. e.id == event_id) db.operational_events)
    event ← or_raise found missing_event
    incident ← gets (λ db. get_if (λ i. i.id) record'.incident_id db.incidents)
    action ← gets (λ db. get_if (λ a. a.id) record'.action_id db.actions)
    pure (
      record {
        event = event;
        incident = incident;
        action = action;
        skipped_reason = record'.skipped_reason;
      },
      true,
    )

  -- A record replays if it has an event; else the rest of the call is made.
  unfoldable pub replay_or : Option IdempotencyRecord → Session Reply → Session Reply
  unfolding replay
  replay_or none rest = rest
  replay_or (some r) rest = elim r.event_id [ none ↦ rest | some event_id ↦ replay r event_id ]

  -- The loop of `_wait_for_idempotent_result`: the looks that are left, and the number of this one.
  unfoldable pub wait : Others → String → ℕ → ℕ → Session Reply
  unfolding replay_or
  wait others key zero k db = raise idempotency_timeout db
  wait others key (suc left) k db =
      let rest = wait others key left (suc k) (others.seen (suc k)) in
      replay_or (record_of key db) (λ _. rest) db

  abbrev pub new_record : String → Database → IdempotencyRecord
  new_record key db = record {
    id = engine.next_id (map (λ r. r.id) db.idempotency_records);
    key = key;
    event_id = none;
    incident_id = none;
    action_id = none;
    skipped_reason = none;
    hits = 0;
    created_at = clock 10;
    updated_at = clock 11;
  }

  unfoldable pub claim : String → Session IdempotencyRecord
  claim key db = (
    ok (new_record key db),
    record db { idempotency_records = new_record key db ∷ db.idempotency_records },
  )

  -- The outcome is written to the record that the call claimed.
  unfoldable pub fulfil : IdempotencyRecord → Processed → Session (Unit {0})
  fulfil record' done = modify λ db. record db {
    idempotency_records =
        update_where (λ r. r.id == record'.id) (filled clock done) db.idempotency_records;
  }

module _ (engine : Engine) (clock : Clock) (others : Others) where
  -- What is committed once the block of `begin_nested` ends: where the RELEASE of the savepoint
  -- commits, the claim, as the call has written nothing before it. A call that goes on to raise
  -- leaves this, and not the database that it began with.
  unfoldable pub released : String → Database → Database
  unfolding claim
  released key db =
      if engine.savepoint_commits && not (is_some (record_of key db) || others.claimed key)
      then (claim engine clock key db).1
      else db

  -- The same for `process`, which has no savepoint for an event with no key.
  unfoldable pub left_by : Option String → Database → Database
  unfolding released
  left_by none db = db
  left_by (some key) db = if truthy key then released key db else db

module _ (engine : Engine) (clock : Clock) (others : Others) (max_queue_backlog : ℕ) where
  -- The claim, in its savepoint, then the event. What a raise leaves is `released`: the session
  -- around the call is `session_scope_from` of it.
  unfoldable pub own : String → EventCreate → Session Reply
  unfolding claim fulfil
  own key payload = do
    record' ← claim engine clock key
    done ← process_new engine clock max_queue_backlog payload
    fulfil engine clock record' done
    pure (done, false)

  -- The insert fails on the unique column if the table or another session has the key; the session
  -- is rolled back then, and looks at what others commit.
  unfoldable pub own_or_wait : String → EventCreate → Session Reply
  unfolding own wait
  own_or_wait key payload db =
      if is_some (record_of key db) || others.claimed key
      then wait engine clock others key 100 0 (others.seen 0)
      else own key payload db

  -- `_process_with_idempotency`
  unfoldable pub process_with_idempotency : String → EventCreate → Session Reply
  unfolding own_or_wait replay_or
  process_with_idempotency key payload = do
    found ← gets (record_of key)
    replay_or engine clock found (own_or_wait key payload)

  unfoldable pub process_plain : EventCreate → Session Reply
  process_plain payload = do
    done ← process_new engine clock max_queue_backlog payload
    pure (done, false)

  -- The branch on the key; an empty key counts as none.
  unfoldable pub by_key : Option String → EventCreate → Session Reply
  unfolding process_plain process_with_idempotency
  by_key none payload = process_plain payload
  by_key (some key) payload =
      if truthy key then process_with_idempotency key payload else process_plain payload

  -- `process`
  unfoldable pub process : EventCreate → Session Reply
  unfolding by_key
  process payload = by_key payload.idempotency_key payload
