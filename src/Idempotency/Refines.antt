-- ===== src/Idempotency/Refines.antt =====
-- The tables and the calls of services/processor.py keep what idempotency promises.
use mathlib.Core.Path.{subst}
use Prim.Native.String.{count as text_length}
use support_operations_intel.Schemas.{event_is_valid, EventCreate}
use support_operations_intel.Integrity.Events.{HasUuids}
use support_operations_intel.Integrity.Sound.{IsSound}
use support_operations_intel.Prelude.{
  ◌∙◌, sym, ◌≤◌, none, refl, false, inr, true, inl, is_some, Option-cases, some, ◌≡◌, ℕ, String,
}
use support_operations_intel.Idempotency.{
  Reply, replay_or, own_or_wait, own, process_with_idempotency, Others, record_of, replay, released,
}
use support_operations_intel.Models.Tables.{IdempotencyRecord}
use support_operations_intel.Models.Database.{raised, ok, Result, session_scope_from, Database}
use support_operations_intel.Models.Engine.{IsEngine, Clock, Engine}
use support_operations_intel.Idempotency.Outcomes.{IsSettled, outcome_for, Refines}
use support_operations_intel.Idempotency.Replays.{replay-Refines}
use support_operations_intel.Idempotency.Owns.{own-OwnEnds, OwnEnds-Refines, released-outcomes}

session_scope_from-Refines :
    (key : String) (committed db : Database) (out : Result Reply × Database)
    → ((k : String) → outcome_for committed k ≡ outcome_for db k)
    → Refines key (outcome_for db) out
    → Refines key (outcome_for db) (session_scope_from committed (λ _. out) db)
session_scope_from-Refines key committed db (ok (done, true), d) alike h = h
session_scope_from-Refines key committed db (ok (done, false), d) alike h = h
session_scope_from-Refines key committed db (raised e, d) alike h = (h.0, h.1, alike)

module _ (engine : Engine) (clock : Clock) (others : Others) (max_queue_backlog : ℕ)
    (payload : EventCreate) where
  -- The call, by what the key's record says.
  pub owns_key :
      (key : String) (db : Database)
      → record_of key db ≡ none
      → others.claimed key ≡ false
      → process_with_idempotency engine clock others max_queue_backlog key payload db
        ≡ own engine clock others max_queue_backlog key payload db
  unfolding process_with_idempotency own_or_wait replay_or
  owns_key key db e ours = rw (e, ours) (rw e refl)

  pub replays_key :
      (key : String) (db : Database) (r : IdempotencyRecord) (event_id : ℕ)
      → record_of key db ≡ some r
      → r.event_id ≡ some event_id
      → process_with_idempotency engine clock others max_queue_backlog key payload db
        ≡ replay engine clock r event_id db
  unfolding process_with_idempotency replay_or
  replays_key key db r event_id e has = rw (e, has) refl

module _ (engine : Engine) (clock : Clock) (others : Others) (max_queue_backlog : ℕ)
    (payload : EventCreate) (laws : IsEngine engine) (uuids : HasUuids engine)
    (valid : event_is_valid payload ≡ true) where
  own-Refines :
      (key : String) (db : Database)
      → text_length key ≤ 120
      → record_of key db ≡ none
      → IsSound db
      → Refines key (outcome_for db) (
          session_scope_from
            (released engine clock others key db)
            (own engine clock others max_queue_backlog key payload)
            db)
  own-Refines key db short free sound =
      OwnEnds-Refines key _ db _ free (released-outcomes engine clock others key db) (
        own-OwnEnds engine clock others max_queue_backlog payload laws uuids valid key db short free
          sound)

  -- From a sound database, with a valid body and a key that no other session works on: the call in
  -- its session does to the map of outcomes what idempotency promises. It returns the outcome of
  -- the key and keeps the map where the key has one; else it decides one for the key, and keeps
  -- that of every other key, or raises for an unknown asset and keeps the map, even where the
  -- savepoint of the claim was committed.
  pub process_with_idempotency-Refines :
      (key : String) (db : Database)
      → text_length key ≤ 120
      → IsSettled others key db
      → IsSound db
      → Refines key (outcome_for db) (
          session_scope_from
            (released engine clock others key db)
            (process_with_idempotency engine clock others max_queue_backlog key payload)
            db)
  process_with_idempotency-Refines key db short (ours, settled) sound =
      let scoped = λ (out : Result Reply × Database).
        Refines key (outcome_for db)
          (session_scope_from (released engine clock others key db) (λ _. out) db) in
      elim (Option-cases (record_of key db)) [
        | inl e ↦
            subst scoped
              (sym (owns_key engine clock others max_queue_backlog payload key db e ours))
              (own-Refines key db short e sound)
        | inr (r, e) ↦
            let whole : is_some (outcome_for db key) ≡ true = sym settled ∙ rw e refl in
            elim (Option-cases r.event_id) [
              | inl pending ↦
                  let lost : is_some (outcome_for db key) ≡ false = rw (e, pending) refl in cc
              | inr (event_id, has) ↦
                  subst scoped
                    (sym (
                      replays_key engine clock others max_queue_backlog payload key db r event_id e
                        has))
                    (session_scope_from-Refines key _ db (replay engine clock r event_id db)
                      (released-outcomes engine clock others key db)
                      (replay-Refines engine clock db r key event_id e has whole))
            ]
      ]
