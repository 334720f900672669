-- ===== src/Actions/Attempts.antt =====
-- What one attempt does to an action, on every path of `execute_action_once`.
use support_operations_intel.Prelude.{
  inl, Bool-cases, refl, ◌≤◌, length, ◌==◌, ◌<◌, inr, ◌⊎◌, arith, ◌+◌, ◌≡◌,
}
use support_operations_intel.Actions.{
  action_timed_out, timed_out, returned, ltb, Attempt, execute_action_once, attempt, crashed,
  transport_error, invalid_max_attempts, raised, ActionState, some, suc, contains, retry,
  update_where, true, false, is_processed, ok, is_finished, count_attempt, none, Result, String,
  finish, Bool, Database, Option, Action, ℕ, Clock, Policy, conclude,
}
use support_operations_intel.Models.Engine.{or_now, Engine}

-- One attempt: it is counted, the lease is given back, and the state says how it ended.
pub record Attempted (policy : Policy) (now : ℕ) (before after : Action) : Type 0 where
  pub same_id : after.id ≡ before.id
  pub same_incident : after.incident_id ≡ before.incident_id
  pub same_type : after.action_type ≡ before.action_type
  pub counted : after.attempts ≡ before.attempts + 1
  pub unleased : (after.lease_id ≡ none) × (after.leased_at ≡ none)
  pub stamped : (after.created_at ≡ before.created_at) × (after.updated_at ≡ now)
  pub ended : (is_processed after.state ≡ true) ⊎ (after.state ≡ retry)
  -- It is tried again only while attempts are left, with its text and at the time of the policy.
  pub on_retry :
      after.state ≡ retry
      → (after.attempts < policy.max_attempts)
        × (contains "permanent_failure" before.detail ≡ false)
        × (after.detail ≡ before.detail)
        × (after.next_attempt_at ≡ some (now + policy.retry_delay_seconds))
  -- It fails for good only by its mode or when the attempts are used up.
  pub on_failure :
      after.state ≡ ActionState.failed
      → (contains "permanent_failure" before.detail ≡ true) ⊎ (policy.max_attempts ≤ after.attempts)

pub conclude-Attempted :
    (policy : Policy) (now : ℕ) (before : Action) (success : Bool) (outcome_detail : String)
    → Attempted policy now before (
        conclude policy.max_attempts policy.retry_delay_seconds now
          (count_attempt before)
          success
          outcome_detail)
unfolding conclude
conclude-Attempted policy now before success outcome_detail = ground arith

-- What a call may return or raise.
abbrev pub Attempts : Engine → Policy → ℕ → Action → Database → Result Action × Database → Type 0
Attempts engine policy now action db (ok action', db') =
    (is_finished action.state ≡ true) × (action' ≡ action) × (db' ≡ db)
    ⊎ (is_finished action.state ≡ false)
      × Attempted policy now action action'
      × (db'.actions ≡ update_where (λ a. a.id == action.id) (λ _. action') db.actions)
      × (length db'.audit_logs ≡ suc (length db.audit_logs))
      × (db'.incidents ≡ db.incidents)
      × (db'.operational_events ≡ db.operational_events)
Attempts engine policy now action db (raised e, db') =
    (e ≡ invalid_max_attempts) × (policy.max_attempts ≡ 0) × (db' ≡ db)
    ⊎ (message : String) × (e ≡ transport_error message)
      × (policy.transport (count_attempt action) policy.timeout_seconds ≡ crashed message)

module _ (engine : Engine) (policy : Policy) (clock : Clock) (now : Option ℕ) where
  finish-Attempts :
      (action : Action) (outcome : Bool × String) (written : ℕ) (db : Database)
      → is_finished action.state ≡ false
      → Attempts engine policy
          (or_now now (clock 0))
          action
          db
          (finish engine policy (or_now now (clock 0)) written (count_attempt action) outcome db)
  unfolding finish
  finish-Attempts action (success, outcome_detail) written db open_ =
      let tried = conclude-Attempted policy (or_now now (clock 0)) action success outcome_detail in
      inr (open_, tried, rw tried.same_id, refl, refl, refl)

  attempt-Attempts :
      (action : Action) (answer : Attempt) (written : ℕ) (db : Database)
      → is_finished action.state ≡ false
      → policy.transport (count_attempt action) policy.timeout_seconds ≡ answer
      → Attempts engine policy
          (or_now now (clock 0))
          action
          db
          (attempt engine policy (or_now now (clock 0)) written (count_attempt action) answer db)
  unfolding attempt
  attempt-Attempts action (returned result) written db open_ e =
      finish-Attempts action (result.success, result.detail) written db open_
  attempt-Attempts action (timed_out message) written db open_ e =
      finish-Attempts action _ written db open_
  attempt-Attempts action (action_timed_out message) written db open_ e =
      finish-Attempts action _ written db open_
  attempt-Attempts action (crashed message) written db open_ e = inr (message, refl, e)

  -- A finished action comes back as it is, and nothing is written. Any other is attempted once:
  -- the attempt is counted, the lease given back, the row saved and the log written, and it is
  -- tried again only while attempts are left and its mode is no permanent failure. The call raises
  -- on a policy of no attempts, writing nothing, and where the transport itself crashes.
  pub execute_action_once-Attempts :
      (action : Action) (db : Database)
      → Attempts engine policy
          (or_now now (clock 0))
          action
          db
          (execute_action_once engine policy clock now action db)
  unfolding execute_action_once
  execute_action_once-Attempts action db = elim (Bool-cases (ltb policy.max_attempts 1)) [
    | inl none_left ↦ rw none_left (inl (refl, ground arith, refl))
    | inr some_left ↦ elim (Bool-cases (is_finished action.state)) [
      | inl finished ↦ rw (some_left, finished) (inl (finished, refl, refl))
      | inr open_ ↦
          rw (some_left, open_)
            (attempt-Attempts action
              (policy.transport (count_attempt action) policy.timeout_seconds) (clock 1) db open_
              refl)
    ]
  ]
