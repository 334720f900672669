-- ===== src/Service/History.antt =====
-- The history that the service keeps: the log, the events and the incidents, the newest first.
use mathlib.Core.List.{◌++◌, append_assoc}
use support_operations_intel.Prelude.{
  [], ◌∷◌, ap, inl, inr, List, Option, none, refl, sym, ℕ, ◌∙◌, ◌≡◌, true,
}
use support_operations_intel.Models.Database.{session_scope_from, Database, Session, session_scope}
use support_operations_intel.Models.Engine.{Clock, Engine, IsEngine}
use support_operations_intel.Schemas.{
  check_is_valid, CheckCreate, CheckTransition, event_is_valid, EventCreate,
}
use support_operations_intel.Actions.{Policy}
use support_operations_intel.Checks.{create_check}
use support_operations_intel.Idempotency.{left_by, Others, process}
use support_operations_intel.Jobs.{run_health_sweep}
use support_operations_intel.Worker.{process_due_actions, run_once}
use support_operations_intel.Api.{asset_not_found, ingest_event, transition_check_run}
use support_operations_intel.Api.Desk.{
  create_check_run, expire_check_timeouts, health_sweep, post_event, process_result,
}
use support_operations_intel.Integrity.{
  adds_action, adds_asset, adds_check, adds_event, adds_incident, adds_job, adds_record, adds_rule,
  logs, marks_assets, refills, saves_action, saves_check, then_write, unchanged, Write, Writes,
}
use support_operations_intel.Integrity.Desk.{create_check-Writes, expire_waiting_checks-Writes}
use support_operations_intel.Integrity.Events.{HasUuids}
use support_operations_intel.Integrity.Fits.{IsFit}
use support_operations_intel.Integrity.Keyed.{left_by-Writes, process-Writes, WritesOne}
use support_operations_intel.Integrity.Sound.{IsSound}
use support_operations_intel.Integrity.Work.{process_due_actions-Writes, run_health_sweep-Writes}
use support_operations_intel.Service.Served.{transition_check_run-Writes}
use support_operations_intel.Service.Scopes.{
  session_scope_from-keeps, map_ok-keeps, on_error-keeps, session_scope-keeps,
}

-- The rows that were there are there, unchanged, below any new ones.
abbrev pub Extends : {A : Type 0} → List A → List A → Type 0
Extends {A} rows rows' = (new : List A) × (rows' ≡ new ++ rows)

pub record KeepsHistory (db db' : Database) : Type 0 where
  pub entries : Extends db.audit_logs db'.audit_logs
  pub events : Extends db.operational_events db'.operational_events
  pub incidents : Extends db.incidents db'.incidents

same : {A : Type 0} (rows : List A) → Extends rows rows
same rows = ([], refl)

one_more : {A : Type 0} (row : A) (rows : List A) → Extends rows (row ∷ rows)
one_more row rows = (row ∷ [], refl)

Extends-trans : {A : Type 0} {a b c : List A} → Extends a b → Extends b c → Extends a c
Extends-trans {a = a} (new, e) (newer, e') =
    (newer ++ new, e' ∙ ap (λ rows. newer ++ rows) e ∙ sym (append_assoc newer new a))

unchanged-KeepsHistory : (db : Database) → KeepsHistory db db
unchanged-KeepsHistory db = record { entries = same _; events = same _; incidents = same _ }

Write-KeepsHistory : {db db' : Database} → Write db db' → KeepsHistory db db'
Write-KeepsHistory (adds_asset a fresh unique fits) = record {
  entries = same _;
  events = same _;
  incidents = same _;
}
Write-KeepsHistory (adds_rule r fresh unique fits) = record {
  entries = same _;
  events = same _;
  incidents = same _;
}
Write-KeepsHistory (adds_event e fresh links fits) = record {
  entries = same _;
  events = one_more e _;
  incidents = same _;
}
Write-KeepsHistory (adds_incident i fresh links fits) = record {
  entries = same _;
  events = same _;
  incidents = one_more i _;
}
Write-KeepsHistory (adds_action a fresh links fits) = record {
  entries = same _;
  events = same _;
  incidents = same _;
}
Write-KeepsHistory (adds_record r fresh unique links fits) = record {
  entries = same _;
  events = same _;
  incidents = same _;
}
Write-KeepsHistory (adds_check c fresh fits) = record {
  entries = same _;
  events = same _;
  incidents = same _;
}
Write-KeepsHistory (adds_job j fresh) = record {
  entries = same _;
  events = same _;
  incidents = same _;
}
Write-KeepsHistory (logs l fresh) = record {
  entries = one_more l _;
  events = same _;
  incidents = same _;
}
Write-KeepsHistory (marks_assets p status) = record {
  entries = same _;
  events = same _;
  incidents = same _;
}
Write-KeepsHistory (saves_action a links fits) = record {
  entries = same _;
  events = same _;
  incidents = same _;
}
Write-KeepsHistory (saves_check c fits) = record {
  entries = same _;
  events = same _;
  incidents = same _;
}
Write-KeepsHistory (refills p f keep) = record {
  entries = same _;
  events = same _;
  incidents = same _;
}

KeepsHistory-trans : {a b c : Database} → KeepsHistory a b → KeepsHistory b c → KeepsHistory a c
KeepsHistory-trans first second = record {
  entries = Extends-trans first.entries second.entries;
  events = Extends-trans first.events second.events;
  incidents = Extends-trans first.incidents second.incidents;
}

Writes-KeepsHistory : {db db' : Database} → Writes db db' → KeepsHistory db db'
Writes-KeepsHistory {db} unchanged = unchanged-KeepsHistory db
Writes-KeepsHistory (then_write ws w) =
    KeepsHistory-trans (Writes-KeepsHistory ws) (Write-KeepsHistory w)

module _ {A : Type 0} (body : Session A) (db : Database) where
  scoped : Writes db (body db).1 → KeepsHistory db (session_scope body db).1
  scoped ws =
      session_scope-keeps (KeepsHistory db) body db (unchanged-KeepsHistory db)
        (Writes-KeepsHistory ws)

post_event-KeepsHistory :
    (engine : Engine) (clock : Clock) (others : Others) (max_queue_backlog : ℕ)
    (payload : EventCreate) (db : Database)
    → IsEngine engine
    → HasUuids engine
    → event_is_valid payload ≡ true
    → ((n : ℕ) → KeepsHistory db (others.seen n))
    → KeepsHistory db
        (session_scope_from
          (left_by engine clock others payload.idempotency_key db)
          (post_event engine clock others max_queue_backlog payload)
          db).1
unfolding post_event ingest_event
post_event-KeepsHistory engine clock others max_queue_backlog payload db laws uuids valid seen =
    session_scope_from-keeps (KeepsHistory db)
      (left_by engine clock others payload.idempotency_key db)
      (post_event engine clock others max_queue_backlog payload) db
      (Writes-KeepsHistory
        (left_by-Writes engine clock others max_queue_backlog laws uuids payload valid db))
      (map_ok-keeps (KeepsHistory db) (process_result payload.idempotency_key)
        (ingest_event engine clock others max_queue_backlog payload) db
        (on_error-keeps (KeepsHistory db) asset_not_found
          (process engine clock others max_queue_backlog payload) db
          (written
            (process-Writes engine clock others max_queue_backlog laws uuids payload valid db))))
  where
    written : {d : Database} → WritesOne others db d → KeepsHistory db d
    written (inl ws) = Writes-KeepsHistory ws
    written (inr (n, ws)) = KeepsHistory-trans (seen n) (Writes-KeepsHistory ws)

-- With an SQL engine of fresh keys, UUIDs of 32 characters, valid bodies, a sound database whose
-- rows fit, and other sessions that keep the history: each route that works on events, checks or
-- jobs, and a run of the worker, keep every entry of the log, every event and every incident that
-- was there, unchanged and in order, whatever they add and whether they return or raise.
pub requests-KeepHistory :
    (engine : Engine) (clock : Clock) (others : Others) (max_queue_backlog : ℕ)
    (payload : EventCreate) (policy : Policy) (limit lease_seconds : ℕ) (now : Option ℕ)
    (check : CheckCreate) (check_id : ℕ) (move : CheckTransition) (db : Database)
    → IsEngine engine
    → HasUuids engine
    → event_is_valid payload ≡ true
    → check_is_valid check ≡ true
    → ((n : ℕ) → KeepsHistory db (others.seen n))
    → IsSound db
    → IsFit db
    → KeepsHistory db
        (session_scope_from
          (left_by engine clock others payload.idempotency_key db)
          (post_event engine clock others max_queue_backlog payload)
          db).1
      × KeepsHistory db (run_once engine policy limit lease_seconds clock now db).1
      × KeepsHistory db (session_scope (create_check_run engine clock check) db).1
      × KeepsHistory db (session_scope (transition_check_run engine clock check_id move) db).1
      × KeepsHistory db (session_scope (expire_check_timeouts engine clock) db).1
      × KeepsHistory db (session_scope (health_sweep engine clock) db).1
unfolding run_once create_check_run expire_check_timeouts health_sweep
requests-KeepHistory engine clock others max_queue_backlog payload policy limit lease_seconds now
      check check_id move db laws uuids valid check_valid seen sound fit =
    (
      post_event-KeepsHistory engine clock others max_queue_backlog payload db laws uuids valid
          seen,
      scoped (process_due_actions engine policy limit lease_seconds clock now) db (
          process_due_actions-Writes engine policy laws limit lease_seconds clock now db sound.1.2
            fit.actions),
      scoped (create_check_run engine clock check) db (
          map_ok-keeps (λ d. Writes db d) _
            (create_check engine clock none check.name check.asset_external_id check.detail) db
            (create_check-Writes engine laws clock none check db check_valid)),
      scoped (transition_check_run engine clock check_id move) db
          (transition_check_run-Writes engine laws clock check_id move db fit),
      scoped (expire_check_timeouts engine clock) db
          (expire_waiting_checks-Writes engine laws clock none db fit.checks),
      scoped (health_sweep engine clock) db (
          map_ok-keeps (λ d. Writes db d) _ (run_health_sweep engine clock 30) db
            (run_health_sweep-Writes engine laws clock 30 db)),
    )
