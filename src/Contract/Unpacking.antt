-- ===== src/Contract/Unpacking.antt =====
-- No workload with an event gets through: the reply has five values, and the loop takes four.
use support_operations_intel.Actions.{Policy}
use support_operations_intel.Schemas.{EventCreate}
use support_operations_intel.Models.Engine.{Clock, Engine}
use support_operations_intel.Prelude.{
  Bool, ◌∷◌, ◌≡◌, List, none, refl, some, ℕ, Option, Option-cases, inl, inr,
}
use support_operations_intel.Models.Database.{
  pure, ◌>>=◌, or_raise, validation_error, unpack_error, and_then, Session, raised, ok, Database,
  Result, Exception,
}
use support_operations_intel.Contract.{
  skipped_of, count_skipped, seed_assets_from_events, conclude_run, no_skips, process_row,
  process_rows, CanonicalSummary, process_contract_events, Rows, SkippedCounts, unpack_four,
  values_of,
}
use support_operations_intel.Idempotency.{Others, Reply, process}

-- The call raises the exception.
abbrev pub Raises {ℓ} : {A : Type ℓ} → Exception → Result A × Database → Type 0
Raises e (ok a, db') = ⊥
Raises e (raised e', db') = e' ≡ e

-- What stops the first row: its own error, or that of `process`, or the unpacking of its reply.
abbrev pub reply_error : Result Reply × Database → Exception
reply_error (ok reply, db') = unpack_error
reply_error (raised e, db') = e

module _ {Row : Type 0} (rows : Rows Row) (engine : Engine) (clock : Clock) (others : Others)
    (max_queue_backlog : ℕ) where
  abbrev pub row_error : Option EventCreate → Database → Exception
  row_error none db = validation_error
  row_error (some payload) db =
      reply_error (process engine clock others max_queue_backlog payload db)

  abbrev pub first_error : Row → Result (Unit {0}) × Database → Exception
  first_error row (ok _, db) = row_error (rows.event_create row) db
  first_error row (raised e, db) = e

  process_row-Raises :
      (row : Row) (counts : SkippedCounts) (db : Database)
      → Raises
          (row_error (rows.event_create row) db)
          (process_row rows engine clock others max_queue_backlog row counts db)
  unfolding process_row unpack_four count_skipped
  process_row-Raises row counts db = elim (Option-cases (rows.event_create row)) [
    | inl invalid ↦ rw invalid refl
    | inr (payload, valid) ↦
        rw valid (ends (process engine clock others max_queue_backlog payload db))
  ]
    where
      ends :
          (out : Result Reply × Database)
          → Raises (reply_error out) (
              and_then out.0
                (λ reply. or_raise (unpack_four (values_of reply)) unpack_error >>= λ names.
                  pure (count_skipped (skipped_of names) counts))
                out.1)
      ends (ok reply, d) = refl
      ends (raised e, d) = refl

  later :
      {A B : Type 0} (e : Exception) (out : Result A × Database) (next : A → Session B)
      → Raises e out
      → Raises e (and_then out.0 next out.1)
  later e (ok a, db') next h = absurd h
  later e (raised e', db') next h = h

  seeded-Raises :
      (out : Result (Unit {0}) × Database) (row : Row) (events : List Row)
      → Raises (first_error row out) (
          and_then out.0
            (λ _. process_rows rows engine clock others max_queue_backlog (row ∷ events) no_skips)
            out.1)
  unfolding process_rows
  seeded-Raises (ok a, db') row events =
      later (row_error (rows.event_create row) db')
        (process_row rows engine clock others max_queue_backlog row no_skips db')
        (process_rows rows engine clock others max_queue_backlog events)
        (process_row-Raises row no_skips db')
  seeded-Raises (raised e, db') row events = refl

-- How a run ends: it raises the exception.
abbrev pub EndsByRaising : Exception → Option (Result CanonicalSummary × Database) → Type 0
EndsByRaising e none = ⊥
EndsByRaising e (some (ok summary, db')) = ⊥
EndsByRaising e (some (raised e', db')) = e' ≡ e

conclude-Raises :
    {Row : Type 0} (rows : Rows Row) (engine : Engine) (policy : Policy) (fuel : ℕ) (clock : Clock)
    (process_actions : Bool) (e : Exception) (out : Result SkippedCounts × Database)
    → Raises e out
    → EndsByRaising e (conclude_run rows engine policy fuel clock process_actions out)
unfolding conclude_run
conclude-Raises rows engine policy fuel clock process_actions e (ok a, db') h = absurd h
conclude-Raises rows engine policy fuel clock process_actions e (raised e', db') h = h

-- `process_contract_events` raises on every workload with at least one event, at the first one at
-- the latest, and so never returns a summary of one. It raises what the seeding of the assets
-- raises; else, on the first row, the validation error where the row is no valid event, what
-- `process` raises where that raises, and the error of the unpacking where `process` returns.
pub process_contract_events-EndsByRaising :
    {Row : Type 0} (rows : Rows Row) (engine : Engine) (clock : Clock) (others : Others)
    (max_queue_backlog : ℕ) (policy : Policy) (fuel : ℕ) (process_actions : Bool) (row : Row)
    (events : List Row) (db : Database)
    → EndsByRaising
        (first_error rows engine clock others max_queue_backlog row
          (seed_assets_from_events rows engine (row ∷ events) db))
        (process_contract_events rows engine clock others max_queue_backlog policy fuel
          process_actions
          (row ∷ events)
          db)
unfolding process_contract_events
process_contract_events-EndsByRaising {Row} rows engine clock others max_queue_backlog policy fuel
      process_actions row events db =
    conclude-Raises rows engine policy fuel clock process_actions _ _ (
      seeded-Raises rows engine clock others max_queue_backlog
        (seed_assets_from_events rows engine (row ∷ events) db) row events)
