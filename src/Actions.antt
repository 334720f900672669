-- ===== src/Actions.antt =====
-- services/actions.py: the executor of actions. Durations are microseconds, zero for any that is
-- not positive. The transport is an argument; `default_transport` is the program's own.
pub mod Attempts
pub mod Retries
pub mod Modes
use support_operations_intel.Prelude.{
  zero, suc, ℕ, ◌+◌, Bool, true, false, ◌&&◌, ◌||◌, Option, none, some, [], ◌∷◌, String, ◌==◌, leb,
  ltb, if◌then◌else◌, update_where, contains, f_string, str,
}
use support_operations_intel.Models.States.{
  is_processed, ActionState, succeeded, retry, action_state_value, is_finished,
}
use support_operations_intel.Models.Tables.{Action}
use support_operations_intel.Models.Database.{
  ok, raised, Result, Database, Session, pure, raise, modify, invalid_max_attempts, transport_error,
  ◌>>◌,
}
use support_operations_intel.Models.Engine.{or_now, after_reads, Clock, Engine}
use support_operations_intel.Models.Inserts.{audit}

pub record ActionAttemptResult : Type 0 where
  pub success : Bool
  pub detail : String

-- How a call of the transport ends: it returns, or raises `TimeoutError`, `ActionTimeoutError` or
-- another exception.
pub data Attempt : Type 0 where
  returned : ActionAttemptResult → Attempt
  timed_out : String → Attempt
  action_timed_out : String → Attempt
  crashed : String → Attempt

abbrev pub SyntheticTransport : Type 0
SyntheticTransport = Action → ℕ → Attempt

-- The sleep before the answer takes time and changes nothing.
unfoldable pub default_transport : SyntheticTransport
default_transport action timeout_seconds =
    if leb timeout_seconds 0
    then action_timed_out "timeout must be positive"
    else if contains "permanent_failure" action.detail
    then returned (record { success = false; detail = "synthetic permanent failure" })
    else if (contains "fail_once" action.detail || contains "transient_then_success" action.detail)
        && leb action.attempts 1
    then returned (record { success = false; detail = "synthetic transient failure" })
    else returned (record {
      success = true;
      detail = f_string ("synthetic " ∷ action.action_type ∷ " completed" ∷ []);
    })

-- The state after an attempt: `before` has the detail from before it, and the attempt counted.
unfoldable pub conclude : ℕ → ℕ → ℕ → Action → Bool → String → Action
conclude max_attempts retry_delay now before success outcome_detail =
    let done = record before { lease_id = none; leased_at = none; updated_at = now } in
    if success
    then record done { state = succeeded; detail = outcome_detail }
    else if contains "permanent_failure" before.detail || leb max_attempts before.attempts
    then record done { state = ActionState.failed; detail = outcome_detail }
    else record done { state = retry; next_attempt_at = some (now + retry_delay) }

-- The flush of a changed action.
unfoldable pub save : Action → Session (Unit {0})
save action =
    modify
      λ db. record db { actions = update_where (λ a. a.id == action.id) (λ _. action) db.actions }

-- What the `try` block makes of an attempt; `none` passes the exception on.
abbrev pub outcome_of : Attempt → Option (Bool × String)
outcome_of (returned result) = some (result.success, result.detail)
outcome_of (timed_out message) = some (false, f_string ("timeout: " ∷ message ∷ []))
outcome_of (action_timed_out message) = some (false, message)
outcome_of (crashed message) = none

abbrev pub crash_of : Attempt → String
crash_of (crashed message) = message
crash_of _ = ""

-- The arguments that a caller fixes.
pub record Policy : Type 0 where
  pub max_attempts : ℕ
  pub timeout_seconds : ℕ
  pub retry_delay_seconds : ℕ
  pub transport : SyntheticTransport

abbrev pub count_attempt : Action → Action
count_attempt action = record action { attempts = action.attempts + 1 }

module _ (engine : Engine) (policy : Policy) where
  -- `now` is the attempt's time, and `written` the reading for the log's row.
  unfoldable pub finish : ℕ → ℕ → Action → Bool × String → Session Action
  unfolding save audit
  finish now written before (success, outcome_detail) =
      let after =
        conclude policy.max_attempts policy.retry_delay_seconds now before success outcome_detail in
      do
        save after
        audit engine written "action_executed" "action" after.id (
            f_string (
              after.action_type
              ∷ " finished as "
              ∷ action_state_value after.state
              ∷ " after "
              ∷ str after.attempts
              ∷ " attempts"
              ∷ []))
        pure after

  unfoldable pub attempt : ℕ → ℕ → Action → Attempt → Session Action
  unfolding finish save
  attempt now written before answer = elim (outcome_of answer) [
    | none ↦ save before >> raise (transport_error (crash_of answer))
    | some outcome ↦ finish now written before outcome
  ]

  unfoldable pub execute_action_once : Clock → Option ℕ → Action → Session Action
  unfolding attempt
  execute_action_once clock now action =
      if ltb policy.max_attempts 1
      then raise invalid_max_attempts
      else if is_finished action.state
      then pure action
      else attempt (or_now now (clock 0)) (clock 1) (count_attempt action)
          (policy.transport (count_attempt action) policy.timeout_seconds)

  -- The `while` loop of `execute_action_with_retry`: none if the fuel ends first.
  unfoldable pub retry_loop : ℕ → Clock → Action → Database → Option (Result Action × Database)
  unfolding execute_action_once
  retry_loop zero clock action db = none
  retry_loop (suc fuel) clock action db = elim (is_processed action.state) [
    | true ↦ some (ok action, db)
    | false ↦
        let (result, db') = execute_action_once clock none action db in
        elim result [
          | raised e ↦ some (raised e, db')
          | ok action' ↦ retry_loop fuel (after_reads clock 2) action' db'
        ]
  ]

-- `execute_action_with_retry`, which retries with no delay
unfoldable pub execute_action_with_retry :
    Engine → Policy → ℕ → Clock → Action → Database → Option (Result Action × Database)
unfolding retry_loop
execute_action_with_retry engine policy fuel clock action db =
    if ltb policy.max_attempts 1
    then some (raised invalid_max_attempts, db)
    else retry_loop engine (record policy { retry_delay_seconds = 0 }) fuel clock action db
