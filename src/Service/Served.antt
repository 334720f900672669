-- ===== src/Service/Served.antt =====
-- A database as the tables ask, before and after each session of the service.
use support_operations_intel.Integrity.Rows.{CheckFits}
use support_operations_intel.Integrity.Desk.{transition_check-Writes}
use support_operations_intel.Checks.{transition_check}
use support_operations_intel.Integrity.Keyed.{process-Writes, WritesOne}
use support_operations_intel.Service.Scopes.{on_error-keeps, map_ok-keeps, session_scope-keeps}
use support_operations_intel.Schemas.{event_is_valid, CheckTransition, EventCreate}
use support_operations_intel.Integrity.Events.{HasUuids}
use support_operations_intel.Integrity.Fits.{Writes-IsFit, IsFit}
use support_operations_intel.Prelude.{
  All_find, none, inr, inl, true, ◌==◌, find, ◌≡◌, Option-cases, ℕ,
}
use support_operations_intel.Idempotency.{process, Others}
use support_operations_intel.Integrity.{unchanged, Writes}
use support_operations_intel.Integrity.Sound.{Writes-IsSound, IsSound}
use support_operations_intel.Api.Desk.{process_result, post_event}
use support_operations_intel.Models.Engine.{IsEngine, Clock, Engine}
use support_operations_intel.Models.Database.{session_scope, Session, Database, empty_database}
use support_operations_intel.Api.{
  asset_not_found, conflict, ingest_event, reset_workload, transition_check_run,
}

-- Sound, and with rows that fit their columns.
abbrev pub IsServed : Database → Type 0
IsServed db = IsSound db × IsFit db

pub Writes-IsServed : {db db' : Database} → Writes db db' → IsServed db → IsServed db'
Writes-IsServed ws (sound, fit) = (Writes-IsSound ws sound, Writes-IsFit ws fit)

pub empty-IsServed : IsServed empty_database
empty-IsServed = (
  (
    record {
      asset_ids = tt;
      rule_ids = tt;
      event_ids = tt;
      incident_ids = tt;
      action_ids = tt;
      record_ids = tt;
      check_ids = tt;
      job_ids = tt;
      log_ids = tt;
      external_ids = tt;
      rule_names = tt;
      record_keys = tt;
    },
    (tt, tt, tt, tt),
  ),
  record {
    assets = tt;
    rules = tt;
    events = tt;
    incidents = tt;
    actions = tt;
    records = tt;
    checks = tt;
  },
)

pub reset-IsServed : (db : Database) → IsServed db → IsServed (reset_workload db)
unfolding reset_workload
reset-IsServed db ((keyed, linked), fit) = (
  (
    record {
      asset_ids = keyed.asset_ids;
      rule_ids = keyed.rule_ids;
      event_ids = tt;
      incident_ids = tt;
      action_ids = tt;
      record_ids = tt;
      check_ids = tt;
      job_ids = tt;
      log_ids = tt;
      external_ids = keyed.external_ids;
      rule_names = keyed.rule_names;
      record_keys = tt;
    },
    (tt, tt, tt, tt),
  ),
  record {
    assets = fit.assets;
    rules = fit.rules;
    events = tt;
    incidents = tt;
    actions = tt;
    records = tt;
    checks = tt;
  },
)

module _ {A : Type 0} (body : Session A) (db : Database) where
  -- A session whose body makes the program's writes.
  pub scoped : Writes db (body db).1 → IsServed db → IsServed (session_scope body db).1
  scoped ws served = session_scope-keeps IsServed body db served (Writes-IsServed ws served)

pub transition_check_run-Writes :
    (engine : Engine) (laws : IsEngine engine) (clock : Clock) (check_id : ℕ)
    (payload : CheckTransition) (db : Database)
    → IsFit db
    → Writes db (transition_check_run engine clock check_id payload db).1
unfolding transition_check_run
transition_check_run-Writes engine laws clock check_id payload db fit =
    elim (Option-cases (find (λ c. c.id == check_id) db.check_runs)) [
      | inl e ↦ rw (e, transition_check_run) unchanged
      | inr (check, e) ↦
          let move =
            transition_check engine clock none check payload.target_state payload.detail
              payload.timeout_seconds in
          rw (e, transition_check_run)
            (on_error-keeps (λ d. Writes db d) conflict move db
              (transition_check-Writes engine laws clock none check payload.target_state
                payload.detail payload.timeout_seconds db
                (All_find CheckFits (λ c. c.id == check_id) db.check_runs check fit.checks e)))
    ]

pub post_event-IsServed :
    (engine : Engine) (clock : Clock) (others : Others) (max_queue_backlog : ℕ)
    (payload : EventCreate) (db : Database)
    → IsEngine engine
    → HasUuids engine
    → event_is_valid payload ≡ true
    → IsServed db
    → ((n : ℕ) → IsServed (others.seen n))
    → IsServed (post_event engine clock others max_queue_backlog payload db).1
unfolding post_event ingest_event
post_event-IsServed engine clock others max_queue_backlog payload db laws uuids valid served seen =
    map_ok-keeps IsServed (process_result payload.idempotency_key)
      (ingest_event engine clock others max_queue_backlog payload) db
      (on_error-keeps IsServed asset_not_found
        (process engine clock others max_queue_backlog payload) db
        (written
          (process-Writes engine clock others max_queue_backlog laws uuids payload valid db)))
  where
    written : {d : Database} → WritesOne others db d → IsServed d
    written (inl ws) = Writes-IsServed ws served
    written (inr (n, ws)) = Writes-IsServed ws (seen n)
