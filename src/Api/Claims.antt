-- ===== src/Api/Claims.antt =====
-- POST /events of an unknown asset, and the claim of its key in services/processor.py.
use support_operations_intel.Idempotency.Waiting.{IsPending, wait_out}
use support_operations_intel.Models.Engine.{Clock, Engine}
use support_operations_intel.Models.Tables.{IdempotencyRecord}
use support_operations_intel.Api.{on_error, ingest_event, asset_not_found}
use support_operations_intel.Models.Database.{
  Exception, session_scope_from, idempotency_timeout, raised, Result, Database,
}
use support_operations_intel.Prelude.{
  Bool-cases, ℕ, refl, true, is_some, inr, inl, none, ◌≡◌, some, ◌∷◌, if◌then◌else◌, truthy, ◌&&◌,
  Option, String, ap, ◌∙◌,
}
use support_operations_intel.Schemas.{EventCreate}
use support_operations_intel.Idempotency.{
  by_key, claim, left_by, new_record, Others, own_or_wait, process, process_with_idempotency,
  record_of, released, replay_or, Reply,
}

-- The database with a claim of the key that has no event, where the SQL engine commits a savepoint
-- and the key is no empty text.
abbrev pub with_claim : Engine → Clock → Option String → Database → Database
with_claim engine clock none db = db
with_claim engine clock (some key) db =
    if truthy key && engine.savepoint_commits
    then record db { idempotency_records = new_record engine clock key db ∷ db.idempotency_records }
    else db

module _ (engine : Engine) (clock : Clock) (others : Others) where
  left_by_taken :
      (key : String) (db : Database)
      → is_some (record_of key db) ≡ true
      → left_by engine clock others (some key) db ≡ db
  unfolding left_by released claim
  left_by_taken key db taken = elim (Bool-cases (truthy key)) [
    | inr empty ↦ rw empty refl
    | inl given ↦ elim (Bool-cases engine.savepoint_commits) [
      | inl commits ↦ rw given (rw commits (rw taken refl))
      | inr keeps ↦ rw given (rw keeps refl)
    ]
  ]

-- A session whose body raises leaves what was committed.
raises_in :
    (e : Exception) (committed db : Database) (out : Result Reply × Database)
    → out.0 ≡ raised e
    → session_scope_from committed (on_error asset_not_found (λ _. out)) db
      ≡ (raised (asset_not_found e), committed)
raises_in e committed db out raises = rw raises refl

module _ (engine : Engine) (clock : Clock) (others : Others) (max_queue_backlog : ℕ)
    (payload : EventCreate) where
  -- POST /events in its session.
  abbrev pub request : Database → Result Reply × Database
  request db =
      session_scope_from (left_by engine clock others payload.idempotency_key db)
        (ingest_event engine clock others max_queue_backlog payload) db

  -- A call with a key that stays claimed waits and times out.
  process_pending :
      (key : String) (db : Database) (r : IdempotencyRecord)
      → payload.idempotency_key ≡ some key
      → truthy key ≡ true
      → record_of key db ≡ some r
      → r.event_id ≡ none
      → ((n : ℕ) → IsPending (record_of key (others.seen n)))
      → process engine clock others max_queue_backlog payload db
        ≡ (raised idempotency_timeout, others.seen 100)
  unfolding process by_key process_with_idempotency own_or_wait replay_or
  process_pending key db r keyed given there open_ pending =
      ap (λ k. by_key engine clock others max_queue_backlog k payload db) keyed
      ∙ rw (given, by_key)
          (rw there
            (rw open_ (rw there (wait_out engine clock others key 100 0 (λ i lt. pending i)))))

  -- Where the claim of a key stays with no event, and no other session gives it one while the
  -- request waits, a request with the key times out and leaves the database as it is.
  pub request_pending :
      (key : String) (db : Database) (r : IdempotencyRecord)
      → payload.idempotency_key ≡ some key
      → truthy key ≡ true
      → record_of key db ≡ some r
      → r.event_id ≡ none
      → ((n : ℕ) → IsPending (record_of key (others.seen n)))
      → request db ≡ (raised idempotency_timeout, db)
  unfolding ingest_event
  request_pending key db r keyed given there open_ pending =
      raises_in idempotency_timeout _ db (process engine clock others max_queue_backlog payload db)
        (ap (λ out. out.0) (process_pending key db r keyed given there open_ pending))
      ∙ ap (λ k. (raised idempotency_timeout, left_by engine clock others k db)) keyed
      ∙ ap (λ d. (raised idempotency_timeout, d))
          (left_by_taken engine clock others key db (rw there refl))
