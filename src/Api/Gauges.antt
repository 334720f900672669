-- ===== src/Api/Gauges.antt =====
-- How the figures of GET /metrics hang together.
use support_operations_intel.Models.Engine.{Engine}
use support_operations_intel.Models.Tables.{Action, AuditLog}
use support_operations_intel.Models.Database.{Database}
use support_operations_intel.Models.States.{
  is_failed, is_succeeded, is_retry, is_queued, skipped, is_processed, is_waiting, ActionState,
}
use support_operations_intel.Api.{metrics}
use support_operations_intel.Prelude.{
  String, inr, eq_iff, ap, inl, length-select, Bool-cases, ◌&&◌, [], ◌∷◌, arith, length, ◌≤◌,
  str_eq, ◌≡◌, false, ◌+◌, count, true, Bool, ℕ, List,
}

abbrev pub is_skipped : ActionState → Bool
is_skipped skipped = true
is_skipped _ = false

-- Each action shows in exactly one of the figures.
split_states :
    (matches : String → String → Bool) (actions : List Action)
    → (count (λ a. is_waiting a.state) actions
          + count (λ a. is_processed a.state) actions
          + count (λ a. is_skipped a.state) actions
        ≡ length actions)
      × (count (λ a. is_queued a.state) actions + count (λ a. is_retry a.state) actions
          ≡ count (λ a. is_waiting a.state) actions)
      × (count (λ a. is_succeeded a.state) actions + count (λ a. is_failed a.state) actions
          ≡ count (λ a. is_processed a.state) actions)
      × (count (λ a. is_failed a.state && matches "permanent" a.detail) actions
          ≤ count (λ a. is_failed a.state) actions)
split_states matches [] = omega arith
split_states matches (a ∷ actions) = let rest = split_states matches actions in ground (arith, rest)

split_logs :
    (logs : List AuditLog)
    → count (λ a. str_eq a.event_type "event_suppressed") logs
        + count (λ a. str_eq a.event_type "idempotency_hit") logs
      ≤ length logs
split_logs [] = omega arith
split_logs (a ∷ logs) =
    let rest = split_logs logs in
    elim (Bool-cases (str_eq a.event_type "event_suppressed")) [
      | inl e ↦
          let other : str_eq a.event_type "idempotency_hit" ≡ false =
            ap (λ t. str_eq t "idempotency_hit") ((eq_iff a.event_type "event_suppressed").0 e) in
          rw (e, other) (omega (arith, rest))
      | inr e ↦ rw e (ground (arith, rest))
    ]

-- The figures add up: waiting, processed and skipped actions are all the actions, the waiting ones
-- are queued or to be retried, the processed ones succeeded or failed, permanent failures are
-- failures, and suppressions and replays are distinct entries of the log.
pub metrics_sums :
    (engine : Engine) (now : ℕ) (db : Database)
    → let m = metrics engine now db in
      (m.queue_backlog + m.actions_processed + count (λ a. is_skipped a.state) db.actions
        ≡ m.actions)
      × (m.queued_actions + m.retry_actions ≡ m.queue_backlog)
      × (m.succeeded_actions + m.failed_actions ≡ m.actions_processed)
      × (m.permanent_failures ≤ m.failed_actions)
      × (m.cooldown_suppressions + m.idempotency_hits ≤ m.audit_entries)
unfolding metrics
metrics_sums engine now db =
    let states = split_states engine.like_contains db.actions in
    let exact = length-select (λ a. is_processed a.state) db.actions in
    (
      omega (arith, states.0, exact),
      states.1,
      omega (arith, states.2, exact),
      states.3,
      split_logs db.audit_logs,
    )
