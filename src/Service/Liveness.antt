-- ===== src/Service/Liveness.antt =====
-- The retry loop on the actions that the service stores.
use support_operations_intel.Prelude.{All, All-imp, ℕ, ◌+◌, ◌<◌, ◌≢◌, ◌≤◌}
use support_operations_intel.Models.Database.{Database}
use support_operations_intel.Models.Engine.{Clock, Engine, IsEngine}
use support_operations_intel.Models.States.{skipped}
use support_operations_intel.Models.Tables.{Action}
use support_operations_intel.Actions.{execute_action_with_retry, Policy}
use support_operations_intel.Actions.Retries.{Ends, execute_action_with_retry-Ends}
use support_operations_intel.Integrity.Events.{HasUuids}
use support_operations_intel.Integrity.Rows.{ActionFits}
use support_operations_intel.Service.{Reach}
use support_operations_intel.Service.Invariant.{Reach-IsFit}

unskipped : (action : Action) → ActionFits action → action.state ≢ skipped
unskipped action fits e = cc

-- With an SQL engine of fresh keys, UUIDs of 32 characters, a policy that allows an attempt, and
-- fuel for two rounds more than the attempts: in every database that the service reaches, the loop
-- of `execute_action_with_retry` ends on every stored action. The action succeeds or fails within
-- the allowed attempts (or after the one attempt beyond them that it came with), or the transport
-- crashes.
pub Reach-Ends :
    (engine : Engine) (policy : Policy) (fuel : ℕ) (clock : Clock) {db : Database}
    → IsEngine engine
    → HasUuids engine
    → 0 < policy.max_attempts
    → policy.max_attempts + 2 ≤ fuel
    → Reach engine db
    → All
        (λ action.
          Ends policy action (execute_action_with_retry engine policy fuel clock action db))
        db.actions
Reach-Ends engine policy fuel clock {db} laws uuids pos enough r =
    All-imp _ _ db.actions
      (λ action fits.
        execute_action_with_retry-Ends engine policy fuel clock action db pos
          (unskipped action fits) enough)
      (Reach-IsFit engine laws uuids r).actions
