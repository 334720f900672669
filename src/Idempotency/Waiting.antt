-- ===== src/Idempotency/Waiting.antt =====
-- The wait for another session's result.
use native.Mathlib.Decide.{ℕ_discrete}
use support_operations_intel.Models.Database.{idempotency_timeout, raised, Database, Session}
use support_operations_intel.Idempotency.{replay, record_of, Reply, replay_or, wait, Others}
use support_operations_intel.Models.Tables.{IdempotencyRecord}
use support_operations_intel.Prelude.{
  zero, ◌∙◌, suc, ap, arith, refl, ◌+◌, ◌<◌, ◌≤◌, ℕ, none, ◌≡◌, String, some, Option,
}
use support_operations_intel.Models.Engine.{Clock, Engine}

-- The record is not there yet, or has no event yet.
abbrev pub IsPending : Option IdempotencyRecord → Type 0
IsPending none = Unit
IsPending (some r) = r.event_id ≡ none

module _ (engine : Engine) (clock : Clock) (others : Others) (key : String) where
  replay_or_pending :
      (found : Option IdempotencyRecord) (rest : Session Reply) (db : Database)
      → IsPending found
      → replay_or engine clock found rest db ≡ rest db
  unfolding replay_or
  replay_or_pending none rest db h = refl
  replay_or_pending (some r) rest db h = rw h refl

  -- The wait returns the replay of the first look that finds the record with its event, if that
  -- look is among those that are left and every look before it finds no record or a pending one.
  pub wait_from :
      (left k n : ℕ) (r : IdempotencyRecord) (event_id : ℕ)
      → ((i : ℕ) → k ≤ i → i < n → IsPending (record_of key (others.seen i)))
      → k ≤ n
      → n < k + left
      → record_of key (others.seen n) ≡ some r
      → r.event_id ≡ some event_id
      → wait engine clock others key left k (others.seen k)
        ≡ replay engine clock r event_id (others.seen n)
  unfolding wait replay_or
  wait_from zero k n r event_id pending le lt found done = absurd (omega arith)
  wait_from (suc left) k n r event_id pending le lt found done = elim (ℕ_discrete k n) [
    | yes here ↦ rw here (rw found (rw done refl))
    | no later ↦
        replay_or_pending (record_of key (others.seen k)) _ (others.seen k)
          (pending k (omega arith) (omega arith))
        ∙ wait_from left (suc k) n r event_id (λ i a b. pending i (omega arith) b) (omega arith)
            (omega arith) found done
  ]

  -- Where no look of those that are left finds the record with its event, the wait raises the
  -- timeout after all of them, and changes nothing.
  pub wait_out :
      (left k : ℕ)
      → ((i : ℕ) → i < k + left → IsPending (record_of key (others.seen i)))
      → wait engine clock others key left k (others.seen k)
        ≡ (raised idempotency_timeout, others.seen (k + left))
  unfolding wait
  wait_out zero k pending = ap (λ n. (raised idempotency_timeout, others.seen n)) (omega arith)
  wait_out (suc left) k pending =
      replay_or_pending (record_of key (others.seen k)) _ (others.seen k) (pending k (omega arith))
      ∙ wait_out left (suc k) (λ i h. pending i (omega arith))
      ∙ ap (λ n. (raised idempotency_timeout, others.seen n)) (omega arith)
