-- ===== src/Idempotency/Owns.antt =====
-- What a call of services/processor.py that inserts the record of its key leaves, after its session.
use Prim.Native.String.{count as text_length}
use support_operations_intel.Prelude.{
  eq_iff, sym, arith, inl, inr, ◌||◌, not, ◌∙◌, ◌&&◌, Bool-cases, ap, false, is_some, none, refl,
  some, str_eq, String, true, ◌≡◌, ◌≤◌, ℕ,
}
use support_operations_intel.Schemas.{event_is_valid, EventCreate}
use support_operations_intel.Models.Engine.{Clock, Engine, IsEngine}
use support_operations_intel.Models.Database.{
  and_then, Database, ok, pure, raised, Result, session_scope_from, unknown_asset, ◌>>◌,
}
use support_operations_intel.Processor.{process_new, Processed}
use support_operations_intel.Processor.Outcome.{
  Keyed, OnReturn, process_new-Keyed, process_new-Records, Records,
}
use support_operations_intel.Integrity.{Writes}
use support_operations_intel.Integrity.Events.{HasUuids}
use support_operations_intel.Integrity.Keyed.{own-Writes}
use support_operations_intel.Integrity.Sound.{IsSound, Writes-IsSound}
use support_operations_intel.Idempotency.{
  fulfil, new_record, Others, own, released, claim, record_of, Reply,
}
use support_operations_intel.Idempotency.Outcomes.{outcome_for, Refines}
use support_operations_intel.Idempotency.Decided.{claimed, decided, others_kept}

-- The key has the outcome, and every other key has what it had.
pub record Owns (key : String) (db d : Database) (done : Processed) : Type 0 where
  pub decides : outcome_for d key ≡ some done
  pub others : (k : String) → str_eq key k ≡ false → outcome_for d k ≡ outcome_for db k

abbrev pub OwnEnds : String → Database → Database → Result Reply × Database → Type 0
OwnEnds key committed db (ok (done, true), d) = ⊥
OwnEnds key committed db (ok (done, false), d) = Owns key db d done
OwnEnds key committed db (raised e, d) =
    ((text : String) × (e ≡ unknown_asset text)) × (d ≡ committed)

module _ (engine : Engine) (clock : Clock) (others : Others) (max_queue_backlog : ℕ)
    (payload : EventCreate) (laws : IsEngine engine) (uuids : HasUuids engine)
    (valid : event_is_valid payload ≡ true) where
  pub own-OwnEnds :
      (key : String) (db : Database)
      → text_length key ≤ 120
      → record_of key db ≡ none
      → IsSound db
      → let committed = released engine clock others key db in
        OwnEnds key committed db
          (session_scope_from committed (own engine clock others max_queue_backlog key payload) db)
  unfolding own
  own-OwnEnds key db short free sound =
      let start = claimed engine clock key db free in
      ends (process_new engine clock max_queue_backlog payload start)
        (process_new-Records engine clock max_queue_backlog payload start)
        (process_new-Keyed engine clock max_queue_backlog payload laws start)
        (own-Writes engine clock others max_queue_backlog laws uuids payload valid key db short
          free)
    where
      ends :
          (out : Result Processed × Database)
          → Records payload (claimed engine clock key db free) out
          → OnReturn Keyed out
          → Writes db
              (and_then {B = Reply} out.0
                (λ done.
                  fulfil engine clock (new_record engine clock key db) done >> pure (done, false))
                out.1).1
          → OwnEnds key (released engine clock others key db) db (
              session_scope_from
                (released engine clock others key db)
                (λ _.
                  and_then {B = Reply} out.0
                    (λ done.
                      fulfil engine clock (new_record engine clock key db) done
                      >> pure (done, false))
                    out.1)
                db)
      ends (ok done, d) (adds, _, _) has_keys ws =
          let after = Writes-IsSound ws sound in
          record {
            decides = decided engine clock key db free laws done d adds has_keys;
            others = λ k. others_kept engine clock key db free laws done d adds k after.0 sound.1.3;
          }
      ends (raised e, d) (unknown, _, _) has_keys ws = ((payload.asset_external_id, unknown), refl)

-- To the map of outcomes, this is what idempotency promises.
pub OwnEnds-Refines :
    (key : String) (committed db : Database) (out : Result Reply × Database)
    → record_of key db ≡ none
    → ((k : String) → outcome_for committed k ≡ outcome_for db k)
    → OwnEnds key committed db out
    → Refines key (outcome_for db) out
OwnEnds-Refines key committed db (ok (done, true), d) free alike h = absurd h
OwnEnds-Refines key committed db (ok (done, false), d) free alike h =
    (rw free refl, h.decides, h.others)
OwnEnds-Refines key committed db (raised e, d) free alike (unknown, same) =
    (rw free refl, unknown, λ k. ap (λ from. outcome_for from k) same ∙ alike k)

-- A claim that is committed with no event decides nothing.
pub released-outcomes :
    (engine : Engine) (clock : Clock) (others : Others) (key : String) (db : Database) (k : String)
    → outcome_for (released engine clock others key db) k ≡ outcome_for db k
unfolding released claim
released-outcomes engine clock others key db k =
    elim (Bool-cases
      (engine.savepoint_commits && not (is_some (record_of key db) || others.claimed key))) [
        | inr keeps ↦ rw keeps refl
        | inl commits ↦ elim (Bool-cases (str_eq key k)) [
          | inr other ↦ rw commits (rw other refl)
          | inl same ↦
              let free : record_of key db ≡ none = ground (arith, commits) in
              let here : record_of k db ≡ none =
                ap (λ s. record_of s db) (sym ((eq_iff key k).0 same)) ∙ free in
              rw commits (rw same (rw here refl))
        ]
      ]
