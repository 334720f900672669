-- ===== src/Worker.antt =====
-- services/actions.py: the worker, which leases the due actions and makes one attempt on each.
pub mod Rows
pub mod Totals
pub mod Progress
pub mod Drained
use support_operations_intel.Models.Database.{
  gets, ◌>>=◌, ◌>>◌, pure, Session, session_scope, Database,
}
use support_operations_intel.Actions.{execute_action_once, save, Policy}
use support_operations_intel.Models.States.{
  is_retry, is_failed, is_succeeded, is_waiting, ActionState,
}
use support_operations_intel.Models.Engine.{some_le, or_now, after_reads, null_or_le, Clock, Engine}
use support_operations_intel.Models.Tables.{Action}
use support_operations_intel.Prelude.{
  ℕ, ◌+◌, ◌-◌, Bool, true, false, ◌&&◌, ◌||◌, Option, none, some, List, [], ◌∷◌, String, ◌==◌, leb,
  ltb, to_ℕ, take, select, length, f_string,
}

abbrev pub is_null : Option String → Bool
is_null none = true
is_null (some s) = false

-- The `where` clauses of `process_due_actions`.
unfoldable pub is_due : ℕ → ℕ → Action → Bool
is_due now stale_lease_before action =
    is_waiting action.state
    && null_or_le action.next_attempt_at now
    && (is_null action.lease_id || some_le action.leased_at stale_lease_before)

-- `order_by(next_attempt_at.asc().nullsfirst(), created_at.asc())`
abbrev before_at : Option ℕ → Option ℕ → Bool → Bool
before_at none none tie = tie
before_at none (some t) tie = true
before_at (some s) none tie = false
before_at (some s) (some t) tie = ltb s t || (s == t && tie)

unfoldable pub by_due : Action → Action → Bool
by_due a b = before_at a.next_attempt_at b.next_attempt_at (leb a.created_at b.created_at)

pub record Summary : Type 0 where
  pub processed : ℕ
  pub succeeded : ℕ
  pub failed : ℕ
  pub retried : ℕ

-- The counters after one action.
abbrev pub tally : ActionState → Summary → Summary
tally state t = record t {
  succeeded = t.succeeded + to_ℕ (is_succeeded state);
  failed = t.failed + to_ℕ (is_failed state);
  retried = t.retried + to_ℕ (is_retry state);
}

module _ (engine : Engine) (policy : Policy) where
  -- The rows that the query returns.
  unfoldable pub due_actions : ℕ → ℕ → ℕ → Database → List Action
  unfolding is_due by_due
  due_actions limit now stale_lease_before db =
      take limit (engine.order_by Action by_due (select (is_due now stale_lease_before) db.actions))

  abbrev pub leased : String → ℕ → Action → Action
  leased lease_id now action = record action { lease_id = some lease_id; leased_at = some now }

  -- The `for` loop.
  unfoldable pub work : ℕ → String → Clock → List Action → Summary → Session Summary
  unfolding save execute_action_once
  work now lease_id clock [] totals = pure totals
  work now lease_id clock (action ∷ rest) totals = do
    save (leased lease_id now action)
    action' ← execute_action_once engine policy clock (some now) (leased lease_id now action)
    work now lease_id (after_reads clock 2) rest (tally action'.state totals)

  unfoldable pub process_due_actions : ℕ → ℕ → Clock → Option ℕ → Session Summary
  unfolding due_actions work
  process_due_actions limit lease_seconds clock given = do
    let now = or_now given (clock 0)
    due ← gets (due_actions limit now (now - lease_seconds))
    work now (f_string ("lease_" ∷ engine.uuid 0 ∷ [])) (after_reads clock 1) due
        (record { processed = length due; succeeded = 0; failed = 0; retried = 0 })

  -- `ActionWorker.run_once`: a session of its own, rolled back if anything raises
  unfoldable pub run_once : ℕ → ℕ → Clock → Option ℕ → Session Summary
  unfolding session_scope process_due_actions
  run_once limit lease_seconds clock now =
      session_scope (process_due_actions limit lease_seconds clock now)
