-- ===== src/Actions/Modes.antt =====
-- What the program's own transport makes of each executor mode.
use support_operations_intel.Actions.{conclude, default_transport, execute_action_once, Policy}
use support_operations_intel.Models.Database.{raised, ok, Database, Result}
use support_operations_intel.Models.States.{is_finished, succeeded, retry, ActionState}
use support_operations_intel.Models.Tables.{Action}
use support_operations_intel.Models.Engine.{Clock, Engine}
use support_operations_intel.Prelude.{
  arith, false, ◌<◌, leb, ◌≡◌, ◌==◌, ◌&&◌, ◌||◌, Option, contains, Bool, if◌then◌else◌, ℕ,
}

abbrev pub is_transient : Action → Bool
is_transient action =
    contains "fail_once" action.detail || contains "transient_then_success" action.detail

-- The state that an attempt leads to, by the mode and the attempts before it.
abbrev pub expected_state : ℕ → Action → ActionState
expected_state max_attempts action =
    if contains "permanent_failure" action.detail
    then ActionState.failed
    else if is_transient action && action.attempts == 0
    then if leb max_attempts 1 then ActionState.failed else retry
    else succeeded

abbrev pub EndsIn : ActionState → Result Action × Database → Type 0
EndsIn state (ok action, db) = action.state ≡ state
EndsIn state (raised e, db) = ⊥

module _ (engine : Engine) (clock : Clock) (now : Option ℕ)
    (max_attempts timeout_seconds retry_delay_seconds : ℕ) where
  abbrev default_policy : Policy
  default_policy = record {
    max_attempts = max_attempts;
    timeout_seconds = timeout_seconds;
    retry_delay_seconds = retry_delay_seconds;
    transport = default_transport;
  }

  -- With the default transport and a positive timeout, an attempt on an action that is not finished
  -- fails for good in the mode permanent_failure, fails the first time in the modes fail_once and
  -- transient_then_success, and succeeds in all other cases.
  pub execute_action_once-EndsIn :
      (action : Action) (db : Database)
      → 0 < max_attempts
      → 0 < timeout_seconds
      → is_finished action.state ≡ false
      → EndsIn
          (expected_state max_attempts action)
          (execute_action_once engine default_policy clock now action db)
  unfolding execute_action_once default_transport conclude
  execute_action_once-EndsIn action db some_left positive open_ = ground arith
