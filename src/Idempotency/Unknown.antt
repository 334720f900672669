-- ===== src/Idempotency/Unknown.antt =====
-- An event of an asset that is not stored.
use support_operations_intel.Processor.Outcome.{asset_of}
use support_operations_intel.Schemas.{EventCreate}
use support_operations_intel.Prelude.{
  inr, inl, truthy, Bool-cases, refl, false, none, ◌≡◌, some, String, ℕ, Option,
}
use support_operations_intel.Models.Database.{unknown_asset, raised, Database}
use support_operations_intel.Processor.{process_new}
use support_operations_intel.Models.Engine.{Clock, Engine}
use support_operations_intel.Idempotency.{
  process_with_idempotency, claim, replay_or, own_or_wait, by_key, own, process, process_plain,
  record_of, Others,
}

-- The key of an event is none, or one that no session holds.
abbrev pub HasFreshKey : Others → Database → Option String → Type 0
HasFreshKey others db none = Unit
HasFreshKey others db (some key) = (record_of key db ≡ none) × (others.claimed key ≡ false)

process_new_unknown :
    (engine : Engine) (clock : Clock) (max_queue_backlog : ℕ) (payload : EventCreate)
    (db : Database)
    → asset_of payload db ≡ none
    → process_new engine clock max_queue_backlog payload db
      ≡ (raised (unknown_asset payload.asset_external_id), db)
unfolding process_new
process_new_unknown engine clock max_queue_backlog payload db e = rw e refl

module _ (engine : Engine) (clock : Clock) (others : Others) (max_queue_backlog : ℕ)
    (payload : EventCreate) (db : Database) (unknown : asset_of payload db ≡ none) where
  plain_unknown :
      (process_plain engine clock others max_queue_backlog payload db).0
      ≡ raised (unknown_asset payload.asset_external_id)
  unfolding process_plain
  plain_unknown = rw (process_new_unknown engine clock max_queue_backlog payload db unknown) refl

  own_unknown :
      (key : String)
      → (own engine clock others max_queue_backlog key payload db).0
        ≡ raised (unknown_asset payload.asset_external_id)
  unfolding own
  own_unknown key =
      rw
        (process_new_unknown engine clock max_queue_backlog payload (claim engine clock key db).1
          unknown)
        refl

  by_key_unknown :
      (key : Option String)
      → HasFreshKey others db key
      → (by_key engine clock others max_queue_backlog key payload db).0
        ≡ raised (unknown_asset payload.asset_external_id)
  unfolding by_key own_or_wait replay_or process_with_idempotency
  by_key_unknown none fresh = plain_unknown
  by_key_unknown (some key) (free, unclaimed) = elim (Bool-cases (truthy key)) [
    | inl given ↦ rw given (rw free (rw (free, unclaimed) (own_unknown key)))
    | inr empty ↦ rw empty plain_unknown
  ]

  pub process_unknown :
      HasFreshKey others db payload.idempotency_key
      → (process engine clock others max_queue_backlog payload db).0
        ≡ raised (unknown_asset payload.asset_external_id)
  unfolding process
  process_unknown = by_key_unknown payload.idempotency_key
