-- ===== src/Integrity/Keyed.antt =====
-- The writes of services/processor.py for an event with an idempotency key.
use support_operations_intel.Processor.Outcome.{onto, process_new-Records, Records}
use support_operations_intel.Processor.{process_new, Processed}
use support_operations_intel.Schemas.{length_within, if_given, event_is_valid, EventCreate}
use Prim.Native.String.{count as text_length}
use support_operations_intel.Models.Tables.{IdempotencyRecord}
use support_operations_intel.Integrity.Events.{process_new-Writes, fresh_id, HasUuids}
use support_operations_intel.Integrity.{
  Points, adds_record, Writes-trans, logs, refills, one_write, unchanged, then_write, Writes,
}
use support_operations_intel.Models.Database.{
  raised, ok, pure, ◌>>◌, and_then, Result, Session, Database,
}
use support_operations_intel.Idempotency.{
  released, left_by, process, filled, new_record, fulfil, claim, process_with_idempotency,
  process_plain, by_key, own_or_wait, own, record_of, Reply, wait, replay_or, replay, Others,
}
use support_operations_intel.Models.Engine.{IsEngine, Clock, Engine}
use mathlib.Core.Option
use support_operations_intel.Prelude.{
  not, ◌&&◌, has_id, List, str_eq, any-find-none, false, arith, truthy, ◌||◌, is_some, Bool-cases,
  ◌≤◌, refl, none, find, inr, inl, ◌+◌, Option-cases, zero, true, ◌==◌, some, ◌≡◌, suc, ◌⊎◌, String,
  Option, ℕ,
}

-- The call wrote to the database it was given, or to one that another session committed.
abbrev pub WritesOne : Others → Database → Database → Type 0
WritesOne others db db' = Writes db db' ⊎ (n : ℕ) × Writes (others.seen n) db'

-- A row that a call returns is in its table.
Points-onto :
    {A : Type 0} (id : A → ℕ) (o : Option A) (rows rest : List A)
    → rows ≡ onto o rest
    → Points (λ k. has_id id k rows) (Option.map id o)
Points-onto id none rows rest e = tt
Points-onto id (some a) rows rest e = rw e (ground arith)

module _ (engine : Engine) (clock : Clock) (laws : IsEngine engine) where
  pub replay-Writes :
      (r : IdempotencyRecord) (event_id : ℕ) (db : Database)
      → Writes db (replay engine clock r event_id db).1
  unfolding replay
  replay-Writes r event_id db =
      let counted =
        then_write
          (one_write (
            refills {db = db} (λ x. x.id == r.id)
              (λ x. record x { hits = x.hits + 1; updated_at = clock 8 })
              (record { same_id = λ x. refl; same_key = λ x. refl; links = λ x h. h })))
          (logs _ (fresh_id engine laws (λ l. l.id) _)) in
      elim (Option-cases (find (λ e. e.id == event_id) db.operational_events)) [
        | inl e ↦ rw e counted
        | inr (event, e) ↦ rw e counted
      ]

  replay_or-Writes :
      (P : Database → Type 0) (found : Option IdempotencyRecord) (rest : Session Reply)
      (db : Database)
      → P (rest db).1
      → ((d : Database) → Writes db d → P d)
      → P (replay_or engine clock found rest db).1
  unfolding replay_or
  replay_or-Writes P none rest db h from = h
  replay_or-Writes P (some r) rest db h from = elim (Option-cases r.event_id) [
    | inl e ↦ rw e h
    | inr (event_id, e) ↦ rw e (from _ (replay-Writes r event_id db))
  ]

  wait-Writes :
      (others : Others) (key : String) (left k : ℕ)
      → (n : ℕ) × Writes (others.seen n) (wait engine clock others key left k (others.seen k)).1
  unfolding wait
  wait-Writes others key zero k = (k, unchanged)
  wait-Writes others key (suc left) k =
      replay_or-Writes (λ d. (n : ℕ) × Writes (others.seen n) d) (record_of key (others.seen k))
        (λ _. wait engine clock others key left (suc k) (others.seen (suc k))) (others.seen k)
        (wait-Writes others key left (suc k)) (λ d ws. (k, ws))

module _ (engine : Engine) (clock : Clock) (others : Others) (max_queue_backlog : ℕ)
    (laws : IsEngine engine) (uuids : HasUuids engine) (payload : EventCreate)
    (valid : event_is_valid payload ≡ true) where
  claim-Writes :
      (key : String) (db : Database)
      → text_length key ≤ 120
      → record_of key db ≡ none
      → Writes db (claim engine clock key db).1
  unfolding claim
  claim-Writes key db short free = one_write (
      adds_record {db = db} (new_record engine clock key db)
        (fresh_id engine laws (λ r. r.id) db.idempotency_records)
        (any-find-none (λ r. str_eq r.key key) db.idempotency_records free) (tt, tt, tt) short)

  released-Writes :
      (key : String) (db : Database)
      → text_length key ≤ 120
      → Writes db (released engine clock others key db)
  unfolding released
  released-Writes key db short =
      elim (Bool-cases
        (engine.savepoint_commits && not (is_some (record_of key db) || others.claimed key))) [
          | inl commits ↦ rw commits (claim-Writes key db short (ground arith))
          | inr keeps ↦ rw keeps unchanged
        ]

  left_by-Writes_of :
      (key : Option String) (db : Database)
      → if_given (length_within 8 120) key ≡ true
      → Writes db (left_by engine clock others key db)
  unfolding left_by
  left_by-Writes_of none db short = unchanged
  left_by-Writes_of (some key) db short = elim (Bool-cases (truthy key)) [
    | inl given ↦ rw given (released-Writes key db (ground arith))
    | inr empty ↦ rw empty unchanged
  ]

  -- What a call leaves that raises is a write of the program too.
  pub left_by-Writes :
      (db : Database) → Writes db (left_by engine clock others payload.idempotency_key db)
  unfolding event_is_valid
  left_by-Writes db = left_by-Writes_of payload.idempotency_key db (ground arith)

  pub own-Writes :
      (key : String) (db : Database)
      → text_length key ≤ 120
      → record_of key db ≡ none
      → Writes db (own engine clock others max_queue_backlog key payload db).1
  unfolding own
  own-Writes key db short free =
      let claimed = (claim engine clock key db).1 in
      Writes-trans (claim-Writes key db short free) (
        fulfilled (process_new engine clock max_queue_backlog payload claimed)
          (process_new-Records engine clock max_queue_backlog payload claimed)
          (process_new-Writes engine clock max_queue_backlog payload laws claimed uuids valid))
    where
      fulfilled :
          (out : Result Processed × Database)
          → Records payload (claim engine clock key db).1 out
          → Writes (claim engine clock key db).1 out.1
          → Writes
              (claim engine clock key db).1
              (and_then {B = Reply} out.0
                (λ done.
                  fulfil engine clock (new_record engine clock key db) done >> pure (done, false))
                out.1).1
      fulfilled (ok done, d) (adds, _, _) ws = then_write ws (
          refills {db = d} (λ r. r.id == (new_record engine clock key db).id) (filled clock done)
            (record {
              same_id = λ r. refl;
              same_key = λ r. refl;
              links = λ r h. (
                rw adds.events (ground arith),
                Points-onto (λ i. i.id) done.incident d.incidents db.incidents adds.incidents,
                Points-onto (λ a. a.id) done.action d.actions db.actions adds.actions,
              );
            }))
      fulfilled (raised e, d) records ws = ws

  plain-Writes :
      (db : Database) → Writes db (process_plain engine clock others max_queue_backlog payload db).1
  unfolding process_plain
  plain-Writes db =
      returned (process_new engine clock max_queue_backlog payload db)
        (process_new-Writes engine clock max_queue_backlog payload laws db uuids valid)
    where
      returned :
          (out : Result Processed × Database)
          → Writes db out.1
          → Writes db (and_then {B = Reply} out.0 (λ done. pure (done, false)) out.1).1
      returned (ok done, d) ws = ws
      returned (raised e, d) ws = ws

  own_or_wait-Writes :
      (key : String) (db : Database)
      → text_length key ≤ 120
      → WritesOne others db (own_or_wait engine clock others max_queue_backlog key payload db).1
  unfolding own_or_wait
  own_or_wait-Writes key db short =
      elim (Bool-cases (is_some (record_of key db) || others.claimed key)) [
        | inl taken ↦ rw taken (inr (wait-Writes engine clock laws others key 100 0))
        | inr ours ↦ rw ours (inl (own-Writes key db short (ground arith)))
      ]

  by_key-Writes :
      (key : Option String) (db : Database)
      → if_given (length_within 8 120) key ≡ true
      → WritesOne others db (by_key engine clock others max_queue_backlog key payload db).1
  unfolding by_key process_plain process_with_idempotency
  by_key-Writes none db short = inl (plain-Writes db)
  by_key-Writes (some key) db short = elim (Bool-cases (truthy key)) [
    | inl given ↦ rw given (
        replay_or-Writes engine clock laws (λ d. WritesOne others db d) (record_of key db)
          (own_or_wait engine clock others max_queue_backlog key payload) db
          (own_or_wait-Writes key db (ground arith)) (λ d ws. inl ws))
    | inr empty ↦ rw empty (inl (plain-Writes db))
  ]

  -- Every write of `process` is one of the program's.
  pub process-Writes :
      (db : Database)
      → WritesOne others db (process engine clock others max_queue_backlog payload db).1
  unfolding process event_is_valid
  process-Writes db = by_key-Writes payload.idempotency_key db (ground arith)
