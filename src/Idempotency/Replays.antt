-- ===== src/Idempotency/Replays.antt =====
-- A replay of services/processor.py leaves the outcomes of all keys.
use support_operations_intel.Prelude.{
  refl, false, Bool-cases, find, inr, true, inl, is_some, Option-cases, some, ◌==◌, str_eq,
  update_where, find-update_where, ◌≡◌, ℕ, ◌∷◌, String, ◌+◌,
}
use support_operations_intel.Idempotency.{record_of, replay}
use support_operations_intel.Models.Inserts.{audit_row}
use support_operations_intel.Models.Tables.{IdempotencyRecord}
use support_operations_intel.Models.Database.{Database}
use support_operations_intel.Models.Engine.{Clock, Engine}
use support_operations_intel.Idempotency.Outcomes.{outcome_for, Refines}

module _ (engine : Engine) (clock : Clock) (db : Database) (r : IdempotencyRecord) where
  abbrev pub hit : IdempotencyRecord → IdempotencyRecord
  hit x = record x { hits = x.hits + 1; updated_at = clock 8 }

  abbrev pub counted : Database
  counted = record db {
    audit_logs =
        audit_row engine (clock 9) db "idempotency_hit" "idempotency_record" r.id
          "Reused idempotent event result"
        ∷ db.audit_logs;
    idempotency_records = update_where (λ x. x.id == r.id) hit db.idempotency_records;
  }

  -- A count of hits leaves all outcomes.
  pub outcome_for-counted : (k : String) → outcome_for counted k ≡ outcome_for db k
  outcome_for-counted k =
      let there =
        find-update_where (λ x. str_eq x.key k) (λ x. x.id == r.id) hit db.idempotency_records
          (λ x. refl) in
      elim (Option-cases (record_of k db)) [
        | inl e ↦ rw (there, e) refl
        | inr (x, e) ↦ elim (Bool-cases (x.id == r.id)) [
          | inl same ↦ rw (there, e, same) refl
          | inr other ↦ rw (there, e, other) refl
        ]
      ]

  pub replay-Refines :
      (key : String) (event_id : ℕ)
      → record_of key db ≡ some r
      → r.event_id ≡ some event_id
      → is_some (outcome_for db key) ≡ true
      → Refines key (outcome_for db) (replay engine clock r event_id db)
  unfolding replay
  replay-Refines key event_id found has settled =
      elim (Option-cases (find (λ e. e.id == event_id) db.operational_events)) [
        | inl e ↦ let lost : is_some (outcome_for db key) ≡ false = rw (found, has, e) refl in cc
        | inr (event, e) ↦ rw e (rw (found, has, e) refl, outcome_for-counted)
      ]
