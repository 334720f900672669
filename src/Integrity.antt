-- ===== src/Integrity.antt =====
-- What the tables of models.py declare, beyond their columns: primary keys, unique constraints,
-- foreign keys and the lengths of texts. A step relation says which writes the program makes; every
-- part of the program is shown to make these only, and each invariant is an induction over them.
pub mod Rows
pub mod Keeps
pub mod Sound
pub mod Fits
pub mod Events
pub mod Keyed
pub mod Work
pub mod Desk
use support_operations_intel.Models.Tables.{
  AuditLog, JobRun, CheckRun, Incident, Action, OperationalEvent, AutomationRule, Asset,
  IdempotencyRecord,
}
use support_operations_intel.Prelude.{
  ◌==◌, update_where, String, ◌∷◌, none, some, ◌&&◌, any, str_eq, false, true, has_id, Option, Bool,
  ◌≡◌, ℕ,
}
use support_operations_intel.Models.Database.{raised, ok, and_then, Session, Result, Database}
use support_operations_intel.Integrity.Rows.{
  ActionFits, IncidentFits, CheckFits, RecordFits, EventFits, RuleFits, AssetFits,
}

abbrev pub has_asset : Database → ℕ → Bool
has_asset db k = has_id (λ a. a.id) k db.assets

abbrev pub has_rule_id : Database → ℕ → Bool
has_rule_id db k = has_id (λ r. r.id) k db.automation_rules

abbrev pub has_event : Database → ℕ → Bool
has_event db k = has_id (λ e. e.id) k db.operational_events

abbrev pub has_incident : Database → ℕ → Bool
has_incident db k = has_id (λ i. i.id) k db.incidents

abbrev pub has_action : Database → ℕ → Bool
has_action db k = has_id (λ a. a.id) k db.actions

-- A foreign key that may be NULL.
abbrev pub Points : (ℕ → Bool) → Option ℕ → Type 0
Points has none = Unit
Points has (some k) = has k ≡ true

-- The foreign keys of a row.
abbrev pub EventLinks : Database → OperationalEvent → Type 0
EventLinks db e = has_asset db e.asset_id ≡ true

abbrev pub IncidentLinks : Database → Incident → Type 0
IncidentLinks db i =
    (has_asset db i.asset_id ≡ true)
    × (has_rule_id db i.rule_id ≡ true)
    × (has_event db i.event_id ≡ true)

abbrev pub ActionLinks : Database → Action → Type 0
ActionLinks db a = has_incident db a.incident_id ≡ true

abbrev pub RecordLinks : Database → IdempotencyRecord → Type 0
RecordLinks db r =
    Points (has_event db) r.event_id
    × Points (has_incident db) r.incident_id
    × Points (has_action db) r.action_id

-- The unique constraints: two rows that the database refuses together.
abbrev pub same_external_id : Asset → Asset → Bool
same_external_id a b = str_eq b.external_id a.external_id

abbrev pub same_rule : AutomationRule → AutomationRule → Bool
same_rule a b = str_eq b.name a.name && str_eq b.category a.category

abbrev pub same_key : IdempotencyRecord → IdempotencyRecord → Bool
same_key a b = str_eq b.key a.key

-- A change of a record of idempotency that keeps its keys and leaves it with links that hold.
pub record Refills (db : Database) (p : IdempotencyRecord → Bool)
    (f : IdempotencyRecord → IdempotencyRecord) : Type 0 where
  pub same_id : (r : IdempotencyRecord) → (f r).id ≡ r.id
  pub same_key : (r : IdempotencyRecord) → (f r).key ≡ r.key
  pub links : (r : IdempotencyRecord) → RecordLinks db r → RecordLinks db (f r)

-- One write of the program.
pub data Write : Database → Database → Type 0 where
  adds_asset :
      {db : Database} (a : Asset)
      → has_asset db a.id ≡ false
      → any (same_external_id a) db.assets ≡ false
      → AssetFits a
      → Write db (record db { assets = a ∷ db.assets })
  adds_rule :
      {db : Database} (r : AutomationRule)
      → has_rule_id db r.id ≡ false
      → any (same_rule r) db.automation_rules ≡ false
      → RuleFits r
      → Write db (record db { automation_rules = r ∷ db.automation_rules })
  adds_event :
      {db : Database} (e : OperationalEvent)
      → has_event db e.id ≡ false
      → EventLinks db e
      → EventFits e
      → Write db (record db { operational_events = e ∷ db.operational_events })
  adds_incident :
      {db : Database} (i : Incident)
      → has_incident db i.id ≡ false
      → IncidentLinks db i
      → IncidentFits i
      → Write db (record db { incidents = i ∷ db.incidents })
  adds_action :
      {db : Database} (a : Action)
      → has_action db a.id ≡ false
      → ActionLinks db a
      → ActionFits a
      → Write db (record db { actions = a ∷ db.actions })
  adds_record :
      {db : Database} (r : IdempotencyRecord)
      → has_id (λ x. x.id) r.id db.idempotency_records ≡ false
      → any (same_key r) db.idempotency_records ≡ false
      → RecordLinks db r
      → RecordFits r
      → Write db (record db { idempotency_records = r ∷ db.idempotency_records })
  adds_check :
      {db : Database} (c : CheckRun)
      → has_id (λ x. x.id) c.id db.check_runs ≡ false
      → CheckFits c
      → Write db (record db { check_runs = c ∷ db.check_runs })
  adds_job :
      {db : Database} (j : JobRun)
      → has_id (λ x. x.id) j.id db.job_runs ≡ false
      → Write db (record db { job_runs = j ∷ db.job_runs })
  logs :
      {db : Database} (l : AuditLog)
      → has_id (λ x. x.id) l.id db.audit_logs ≡ false
      → Write db (record db { audit_logs = l ∷ db.audit_logs })
  marks_assets :
      {db : Database} (p : Asset → Bool) (status : String)
      → Write db
          (record db { assets = update_where p (λ a. record a { status = status }) db.assets })
  saves_action :
      {db : Database} (a : Action)
      → ActionLinks db a
      → ActionFits a
      → Write db (record db { actions = update_where (λ x. x.id == a.id) (λ _. a) db.actions })
  saves_check :
      {db : Database} (c : CheckRun)
      → CheckFits c
      → Write db
          (record db { check_runs = update_where (λ x. x.id == c.id) (λ _. c) db.check_runs })
  refills :
      {db : Database} (p : IdempotencyRecord → Bool) (f : IdempotencyRecord → IdempotencyRecord)
      → Refills db p f
      → Write db (record db { idempotency_records = update_where p f db.idempotency_records })

-- Any number of writes, one after the other.
pub data Writes (db : Database) : Database → Type 0 where
  unchanged : Writes db db
  then_write : {d d' : Database} → Writes db d → Write d d' → Writes db d'

pub Writes-trans : {a b c : Database} → Writes a b → Writes b c → Writes a c
Writes-trans p unchanged = p
Writes-trans p (then_write q w) = then_write (Writes-trans p q) w

abbrev pub one_write : {a b : Database} → Write a b → Writes a b
one_write w = then_write unchanged w

-- A step, and what follows it where it returns.
pub Writes-and_then :
    {A B : Type 0} (db : Database) (step : Result A × Database) (next : A → Session B)
    → Writes db step.1
    → ((a : A) → Writes step.1 (next a step.1).1)
    → Writes db (and_then step.0 next step.1).1
Writes-and_then db (ok a, d) next made rest = Writes-trans made (rest a)
Writes-and_then db (raised e, d) next made rest = made
