-- ===== src/Tests/Rounds.antt =====
-- Rounds of the worker on a stored action.
use support_operations_intel.Prelude.{[], ◌∷◌, arith, none, refl, some, ◌≡◌, List}
use support_operations_intel.Actions.{default_transport, Policy}
use support_operations_intel.Models.Database.{Database, empty_database}
use support_operations_intel.Models.Engine.{Clock}
use support_operations_intel.Models.States.{queued}
use support_operations_intel.Samples.{clock_at, sqlite, sqlite-IsEngine}
use support_operations_intel.Worker.{is_due}
use support_operations_intel.Worker.Drained.{rounds, run_once_drains, waiting_count}
use support_operations_intel.Worker.Progress.{NeverCrashes}

abbrev policy : Policy
policy = record {
  max_attempts = 2;
  timeout_seconds = 200_000;
  retry_delay_seconds = 1000;
  transport = default_transport;
}

default_transport-NeverCrashes : NeverCrashes policy
unfolding default_transport
default_transport-NeverCrashes action message e = ground arith

-- An action that fails at its first attempt.
abbrev stored : Database
stored = record empty_database {
  actions =
      record {
        id = 1;
        incident_id = 1;
        action_type = "create_ticket";
        state = queued;
        attempts = 0;
        detail = "fail_once";
        next_attempt_at = some 4000;
        lease_id = none;
        leased_at = none;
        created_at = 4000;
        updated_at = 4000;
      }
      ∷ [];
}

abbrev clocks : List Clock
clocks = clock_at 5000 ∷ clock_at 7000 ∷ clock_at 9000 ∷ []

run_once_drains_example : waiting_count (rounds sqlite policy 10 60 clocks stored) ≡ 0
unfolding is_due
run_once_drains_example =
    run_once_drains sqlite policy 10 60 sqlite-IsEngine (omega arith) default_transport-NeverCrashes
      (omega arith) clocks 5000 stored (omega arith) (refl, tt) (refl, tt) (omega arith)
