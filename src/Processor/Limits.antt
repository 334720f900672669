-- ===== src/Processor/Limits.antt =====
-- The two brakes on new actions: the backlog limit and the cooldown.
use native.Mathlib.Bridge.{le_prop}
use support_operations_intel.Rules.Best.{match-Picks, Picks}
use support_operations_intel.Models.States.{is_resolved}
use mathlib.Core.List.{Mem}
use support_operations_intel.Processor.Outcome.{asset_of}
use support_operations_intel.Models.Tables.{Incident, AutomationRule, OperationalEvent, Asset}
use support_operations_intel.Models.Database.{raised, ok, Result, Database}
use support_operations_intel.Processor.{
  minute, suppress, Processed, in_cooldown, event_row, record_event, queue_backlog, process_new,
  settle,
}
use support_operations_intel.Schemas.{EventCreate}
use support_operations_intel.Prelude.{
  All_mem, All, not, ◌-◌, ◌&&◌, ◌==◌, any_of_mem, leb, Bool-cases, ◌<◌, ◌*◌, ◌+◌, false, refl, true,
  ◌≡◌, inr, none, inl, arith, some, Option-cases, ◌≤◌, Option, ℕ,
}
use support_operations_intel.Models.Engine.{IsEngine, Clock, Engine}
use support_operations_intel.Rules

module _ (engine : Engine) (clock : Clock) (max_queue_backlog : ℕ) (payload : EventCreate) where
  settle_backlog :
      (asset : Asset) (event : OperationalEvent) (rule : Option AutomationRule) (db : Database)
      → queue_backlog db ≤ max_queue_backlog
      → queue_backlog (settle engine clock max_queue_backlog payload asset event rule db).1
        ≤ max_queue_backlog
  unfolding settle
  settle_backlog asset event none db h = h
  settle_backlog asset event (some rule) db h = ground arith

  -- An event never takes the backlog of waiting actions past its limit.
  pub process_new_backlog :
      (db : Database)
      → queue_backlog db ≤ max_queue_backlog
      → queue_backlog (process_new engine clock max_queue_backlog payload db).1 ≤ max_queue_backlog
  unfolding process_new
  process_new_backlog db h = elim (Option-cases (asset_of payload db)) [
    | inl e ↦ rw e h
    | inr (asset, e) ↦
        let (result, db') = record_event engine clock payload asset db in
        rw e (
          settle_backlog asset (event_row engine clock payload asset db)
            (Rules.match engine (event_row engine clock payload asset db) db') db' h)
  ]

in_cooldown_of_recent :
    (now least : ℕ) (asset : Asset) (cooldown_minutes : ℕ) (i : Incident) (db : Database)
    → Mem i db.incidents
    → i.asset_id ≡ asset.id
    → is_resolved i.state ≡ false
    → now ≤ i.created_at + least * minute
    → 0 < least
    → least ≤ cooldown_minutes
    → in_cooldown now asset cooldown_minutes db ≡ true
unfolding in_cooldown
in_cooldown_of_recent now least asset cooldown_minutes i db m same live recent pos le =
    elim (Bool-cases (leb cooldown_minutes 0)) [
      | inl never ↦ absurd (ground arith)
      | inr some_time ↦ rw some_time (
          any_of_mem
            (λ i.
              i.asset_id == asset.id
              && leb (now - cooldown_minutes * minute) i.created_at
              && not (is_resolved i.state))
            db.incidents i m (ground arith))
    ]

module _ (engine : Engine) (clock : Clock) (max_queue_backlog : ℕ) (payload : EventCreate) where
  settle_suppressed :
      (asset : Asset) (event : OperationalEvent) (rule : AutomationRule) (db : Database)
      → in_cooldown (clock 1) asset rule.cooldown_minutes db ≡ true
      → settle engine clock max_queue_backlog payload asset event (some rule) db
        ≡ suppress engine clock event db
  unfolding settle
  settle_suppressed asset event rule db cool = rw cool refl

-- A rule, if there is one, with a cooldown of at least so many minutes.
abbrev CoolsFor : ℕ → Option AutomationRule → Type 0
CoolsFor least none = Unit
CoolsFor least (some rule) = least ≤ rule.cooldown_minutes

CoolsFor-of_Picks :
    (least : ℕ) (event : OperationalEvent) (db : Database) (rule : Option AutomationRule)
    → All (λ r. least ≤ r.cooldown_minutes) db.automation_rules
    → Picks event db rule
    → CoolsFor least rule
CoolsFor-of_Picks least event db none all picks = tt
CoolsFor-of_Picks least event db (some rule) all picks =
    All_mem _ (λ r. le_prop) db.automation_rules rule all picks.stored

-- A call that returns and leaves the incidents and the actions as they were.
abbrev pub IsQuiet : Database → Result Processed × Database → Type 0
IsQuiet db (ok done, db') =
    (done.incident ≡ none)
    × (done.action ≡ none)
    × (db'.incidents ≡ db.incidents)
    × (db'.actions ≡ db.actions)
IsQuiet db (raised e, db') = ⊥

module _ (engine : Engine) (clock : Clock) (max_queue_backlog least : ℕ) (payload : EventCreate)
    (i : Incident) where
  settle-IsQuiet :
      (asset : Asset) (event : OperationalEvent) (rule : Option AutomationRule) (db : Database)
      → CoolsFor least rule
      → Mem i db.incidents
      → i.asset_id ≡ asset.id
      → is_resolved i.state ≡ false
      → clock 1 ≤ i.created_at + least * minute
      → 0 < least
      → IsQuiet db (settle engine clock max_queue_backlog payload asset event rule db)
  unfolding settle
  settle-IsQuiet asset event none db cools m same live recent pos = (refl, refl, refl, refl)
  settle-IsQuiet asset event (some rule) db cools m same live recent pos =
      rw
        (in_cooldown_of_recent (clock 1) least asset rule.cooldown_minutes i db m same live recent
          pos cools)
        (refl, refl, refl, refl)

  -- Where every rule has a cooldown of at least `least` minutes, an asset that has an incident no
  -- older than that and not resolved gets no further incident and no action from an event.
  pub process_new_cooldown :
      (asset : Asset) (db : Database)
      → IsEngine engine
      → asset_of payload db ≡ some asset
      → All (λ r. least ≤ r.cooldown_minutes) db.automation_rules
      → Mem i db.incidents
      → i.asset_id ≡ asset.id
      → is_resolved i.state ≡ false
      → clock 1 ≤ i.created_at + least * minute
      → 0 < least
      → IsQuiet db (process_new engine clock max_queue_backlog payload db)
  unfolding process_new
  process_new_cooldown asset db laws known all m same live recent pos =
      let (result, db') = record_event engine clock payload asset db in
      let event = event_row engine clock payload asset db in
      let rule = Rules.match engine event db' in
      rw known (
        settle-IsQuiet asset event rule db'
          (CoolsFor-of_Picks least event db' rule all (match-Picks engine event db' laws)) m same
          live recent pos)
