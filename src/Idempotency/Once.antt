-- ===== src/Idempotency/Once.antt =====
-- One key, one result: what an event with a key leaves is what its key replays.
use support_operations_intel.Idempotency.Held.{
  replay-Holds, record_of-Holds, Holds, Replays, own-Owned, Owned,
}
use mathlib.Core.Path.{subst}
use support_operations_intel.Schemas.{EventCreate}
use support_operations_intel.Models.Database.{Session, raised, ok, Database, Result}
use support_operations_intel.Models.Tables.{IdempotencyRecord}
use support_operations_intel.Idempotency.{
  by_key, own_or_wait, process, process_with_idempotency, replay_or, wait, replay, record_of, Reply,
  Others,
}
use support_operations_intel.Prelude.{
  All, [], ap, ◌∙◌, sym, ◌||◌, is_some, truthy, Bool-cases, ◌⊎◌, none, inr, inl, Option-cases, zero,
  Bool, Option, suc, some, true, refl, arith, false, ◌∷◌, List, ◌≡◌, ℕ, String,
}
use support_operations_intel.Processor.{Processed}
use support_operations_intel.Models.Engine.{IsEngine, Engine, Clock}

-- A reply that is no replay comes from the call that owns its key.
replayed_of : Result Reply × Database → Bool
replayed_of (ok (done, replayed), db') = replayed
replayed_of (raised e, db') = true

module _ (engine : Engine) (clock : Clock) where
  replay-replayed :
      (r : IdempotencyRecord) (event_id : ℕ) (db : Database)
      → replayed_of (replay engine clock r event_id db) ≡ true
  unfolding replayed_of replay
  replay-replayed r event_id db = ground arith

  replay_or-replayed :
      (found : Option IdempotencyRecord) (rest : Session Reply) (db : Database)
      → replayed_of (rest db) ≡ true
      → replayed_of (replay_or engine clock found rest db) ≡ true
  unfolding replayed_of replay_or
  replay_or-replayed none rest db h = h
  replay_or-replayed (some r) rest db h = elim (Option-cases r.event_id) [
    | inl e ↦ rw e h
    | inr (event_id, e) ↦ rw e (replay-replayed r event_id db)
  ]

  wait-replayed :
      (others : Others) (key : String) (left k : ℕ) (db : Database)
      → replayed_of (wait engine clock others key left k db) ≡ true
  unfolding wait replayed_of
  wait-replayed others key zero k db = refl
  wait-replayed others key (suc left) k db =
      replay_or-replayed (record_of key db)
        (λ _. wait engine clock others key left (suc k) (others.seen (suc k))) db
        (wait-replayed others key left (suc k) (others.seen (suc k)))

module _ (engine : Engine) (clock : Clock) (others : Others) (max_queue_backlog : ℕ)
    (laws : IsEngine engine) (key : String) (payload : EventCreate) where
  abbrev ReplayedOrOwned : Result Reply × Database → Type 0
  ReplayedOrOwned out = (replayed_of out ≡ true) ⊎ Owned key out

  own_or_wait-ReplayedOrOwned :
      (db : Database)
      → ReplayedOrOwned (own_or_wait engine clock others max_queue_backlog key payload db)
  unfolding own_or_wait
  own_or_wait-ReplayedOrOwned db =
      elim (Bool-cases (is_some (record_of key db) || others.claimed key)) [
        | inl taken ↦ rw taken (inl (wait-replayed engine clock others key 100 0 (others.seen 0)))
        | inr free ↦
            rw free (inr (own-Owned engine clock others max_queue_backlog key payload db laws))
      ]

  replay_or-ReplayedOrOwned :
      (found : Option IdempotencyRecord) (rest : Session Reply) (db : Database)
      → ReplayedOrOwned (rest db)
      → ReplayedOrOwned (replay_or engine clock found rest db)
  unfolding replay_or
  replay_or-ReplayedOrOwned none rest db h = h
  replay_or-ReplayedOrOwned (some r) rest db h = elim (Option-cases r.event_id) [
    | inl e ↦ rw e h
    | inr (event_id, e) ↦ rw e (inl (replay-replayed engine clock r event_id db))
  ]

  -- The key of a new result is held with it.
  Holds-of_new :
      (done : Processed) (db db' : Database)
      → process_with_idempotency engine clock others max_queue_backlog key payload db
        ≡ (ok (done, false), db')
      → Holds key done db'
  unfolding process_with_idempotency replayed_of
  Holds-of_new done db db' e =
      let either : ReplayedOrOwned (ok (done, false), db') = subst ReplayedOrOwned e (
        replay_or-ReplayedOrOwned (record_of key db)
          (own_or_wait engine clock others max_queue_backlog key payload) db
          (own_or_wait-ReplayedOrOwned db)) in
      elim either [ inl replayed ↦ cc | inr owned ↦ owned.1 ]

process_keyed :
    (engine : Engine) (clock : Clock) (others : Others) (max_queue_backlog : ℕ) (key : String)
    (payload : EventCreate) (db : Database)
    → truthy key ≡ true
    → payload.idempotency_key ≡ some key
    → process engine clock others max_queue_backlog payload db
      ≡ process_with_idempotency engine clock others max_queue_backlog key payload db
unfolding process
process_keyed engine clock others max_queue_backlog key payload db given k =
    ap (λ k'. by_key engine clock others max_queue_backlog k' payload db) k ∙ rw given refl

-- A call of `process`: its clock, the other sessions, the backlog limit and the body.
pub record Call : Type 0 where
  pub clock : Clock
  pub others : Others
  pub max : ℕ
  pub payload : EventCreate

abbrev pub process_call : Engine → Call → Session Reply
process_call engine call = process engine call.clock call.others call.max call.payload

-- The calls are made one after the other.
unfoldable pub after_calls : Engine → List Call → Database → Database
after_calls engine [] db = db
after_calls engine (call ∷ calls) db = after_calls engine calls (process_call engine call db).1

abbrev pub HasKeyOf : String → Call → Type 0
HasKeyOf key call = call.payload.idempotency_key ≡ some key

module _ (engine : Engine) (key : String) (given : truthy key ≡ true) (done : Processed) where
  call-Replays :
      (call : Call) (db : Database)
      → HasKeyOf key call
      → Holds key done db
      → Replays key done db (process_call engine call db)
  unfolding process_with_idempotency
  call-Replays call db k holds =
      rw (process_keyed engine call.clock call.others call.max key call.payload db given k) (
        rw (record_of-Holds engine call.clock key done db holds, holds.event_of)
          (replay-Holds engine call.clock key done db holds))

  Holds-of_Replays :
      (db : Database) (out : Result Reply × Database)
      → Replays key done db out
      → Holds key done out.1
  Holds-of_Replays db (ok (again, replayed), db') h = h.0
  Holds-of_Replays db (raised e, db') h = absurd h

  Holds-after_calls :
      (calls : List Call) (db : Database)
      → All (HasKeyOf key) calls
      → Holds key done db
      → Holds key done (after_calls engine calls db)
  unfolding after_calls
  Holds-after_calls [] db keys holds = holds
  Holds-after_calls (call ∷ calls) db (k, keys) holds =
      Holds-after_calls calls (process_call engine call db).1 keys
        (Holds-of_Replays db (process_call engine call db) (call-Replays call db k holds))

-- With an SQL engine that gives keys above zero: after a call with a key has made a new result and
-- any number of further calls with the key were made, a call with the key, whatever its body and
-- whatever other sessions do, returns the same event, incident, action and reason, is marked as a
-- replay, adds one entry to the log, and adds no event, incident or action.
pub process-Replays :
    (engine : Engine) (first next : Call) (calls : List Call) (key : String) (done : Processed)
    (db db' : Database)
    → IsEngine engine
    → truthy key ≡ true
    → HasKeyOf key first
    → HasKeyOf key next
    → All (HasKeyOf key) calls
    → process_call engine first db ≡ (ok (done, false), db')
    → Replays key done
        (after_calls engine calls db')
        (process_call engine next (after_calls engine calls db'))
process-Replays engine first next calls key done db db' laws given k k' keys made =
    let holds =
      Holds-of_new engine first.clock first.others first.max laws key first.payload done db db' (
        sym (process_keyed engine first.clock first.others first.max key first.payload db given k)
        ∙ made) in
    call-Replays engine key given done next (after_calls engine calls db') k'
      (Holds-after_calls engine key given done calls db' keys holds)
