-- ===== src/Service/Invariant.antt =====
-- What holds in every database that the service reaches.
use support_operations_intel.Integrity.Keyed.{left_by-Writes}
use support_operations_intel.Idempotency.{left_by}
use support_operations_intel.Jobs.{run_health_sweep}
use support_operations_intel.Integrity.Work.{run_health_sweep-Writes, process_due_actions-Writes}
use support_operations_intel.Integrity.Desk.{
  expire_waiting_checks-Writes, create_check-Writes, create_rule-Writes, create_asset-Writes,
  seed_demo_data-Writes,
}
use support_operations_intel.Seed.{seed_demo_data}
use support_operations_intel.Checks.{create_check}
use support_operations_intel.Worker.{process_due_actions, run_once}
use support_operations_intel.Service.Scopes.{map_ok-keeps, session_scope_from-keeps}
use support_operations_intel.Service.{
  fresh, resets, sweeps, expires_checks, moves_check, posts_check, processes_actions, works,
  posts_event, posts_rule, posts_asset, seeds, Reach,
}
use support_operations_intel.Integrity.Events.{HasUuids}
use support_operations_intel.Integrity.Fits.{IsFit}
use support_operations_intel.Prelude.{none}
use support_operations_intel.Integrity.{Writes}
use support_operations_intel.Integrity.Sound.{IsSound}
use support_operations_intel.Api.Desk.{
  health_sweep, expire_check_timeouts, create_check_run, seed, post_event,
}
use support_operations_intel.Models.Engine.{IsEngine, Engine}
use support_operations_intel.Models.Database.{Database}
use support_operations_intel.Api.{
  policy_of, create_rule, create_asset, process_actions, transition_check_run,
}
use support_operations_intel.Service.Served.{
  Writes-IsServed, IsServed, empty-IsServed, reset-IsServed, scoped, transition_check_run-Writes,
  post_event-IsServed,
}

module _ (engine : Engine) (laws : IsEngine engine) (uuids : HasUuids engine) where
  Reach-IsServed : {db : Database} → Reach engine db → IsServed db
  unfolding seed run_once process_actions create_check_run expire_check_timeouts health_sweep
  Reach-IsServed fresh = empty-IsServed
  Reach-IsServed (seeds {db} r) =
      scoped (seed engine) db
        (map_ok-keeps (λ d. Writes db d) _ (seed_demo_data engine) db
          (seed_demo_data-Writes engine laws db))
        (Reach-IsServed r)
  Reach-IsServed (posts_asset {db} r clock payload valid) =
      scoped (create_asset engine clock payload) db
        (create_asset-Writes engine laws clock payload db valid) (Reach-IsServed r)
  Reach-IsServed (posts_rule {db} r clock payload valid) =
      scoped (create_rule engine clock payload) db
        (create_rule-Writes engine laws clock payload db valid) (Reach-IsServed r)
  Reach-IsServed (posts_event {db} r clock others max_queue_backlog payload valid seen) =
      let served = Reach-IsServed r in
      session_scope_from-keeps IsServed (left_by engine clock others payload.idempotency_key db)
        (post_event engine clock others max_queue_backlog payload) db
        (Writes-IsServed
          (left_by-Writes engine clock others max_queue_backlog laws uuids payload valid db) served)
        (post_event-IsServed engine clock others max_queue_backlog payload db laws uuids valid
          served (λ n. Reach-IsServed (seen n)))
  Reach-IsServed (works {db} r policy limit lease_seconds clock now) =
      let served = Reach-IsServed r in
      scoped (process_due_actions engine policy limit lease_seconds clock now) db
        (process_due_actions-Writes engine policy laws limit lease_seconds clock now db served.0.1.2
          served.1.actions)
        served
  Reach-IsServed (processes_actions {db} r clock settings) =
      let served = Reach-IsServed r in
      scoped (process_actions engine clock settings) db
        (process_due_actions-Writes engine (policy_of settings) laws 100
          settings.action_lease_seconds clock none db served.0.1.2 served.1.actions)
        served
  Reach-IsServed (posts_check {db} r clock payload valid) =
      scoped (create_check_run engine clock payload) db
        (map_ok-keeps (λ d. Writes db d) _
          (create_check engine clock none payload.name payload.asset_external_id payload.detail) db
          (create_check-Writes engine laws clock none payload db valid))
        (Reach-IsServed r)
  Reach-IsServed (moves_check {db} r clock check_id payload) =
      let served = Reach-IsServed r in
      scoped (transition_check_run engine clock check_id payload) db
        (transition_check_run-Writes engine laws clock check_id payload db served.1) served
  Reach-IsServed (expires_checks {db} r clock) =
      let served = Reach-IsServed r in
      scoped (expire_check_timeouts engine clock) db
        (expire_waiting_checks-Writes engine laws clock none db served.1.checks) served
  Reach-IsServed (sweeps {db} r clock) =
      scoped (health_sweep engine clock) db
        (map_ok-keeps (λ d. Writes db d) _ (run_health_sweep engine clock 30) db
          (run_health_sweep-Writes engine laws clock 30 db))
        (Reach-IsServed r)
  Reach-IsServed (resets {db} r) = reset-IsServed db (Reach-IsServed r)

  -- With an SQL engine of fresh keys, and UUIDs of 32 characters: in every database that the
  -- service reaches from an empty one, by any requests with valid bodies, worker runs and resets in
  -- any order, no two rows share a primary key, an external id, a rule's name and category or an
  -- idempotency key, and every foreign key points to a row that is there.
  pub Reach-IsSound : {db : Database} → Reach engine db → IsSound db
  Reach-IsSound r = (Reach-IsServed r).0

  -- With an SQL engine of fresh keys, and UUIDs of 32 characters: in every database that the
  -- service reaches from an empty one, by any requests with valid bodies, worker runs and resets in
  -- any order, the external ids, names and groups of assets, the texts of rules, the
  -- sources, categories and correlation ids of events, the idempotency keys, and the names and
  -- external ids of checks fit their columns; severities are from 1 to 100 and thresholds at most
  -- 100, cooldowns are a day at most, every incident is open, and no action is skipped.
  pub Reach-IsFit : {db : Database} → Reach engine db → IsFit db
  Reach-IsFit r = (Reach-IsServed r).1
