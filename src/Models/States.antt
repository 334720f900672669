-- ===== src/Models/States.antt =====
-- The `StrEnum`s of models.py. A constructor stands for the member, and its text is given apart.
use support_operations_intel.Prelude.{Bool, true, false, String}

pub data IncidentState : Type 0 where
  opened acknowledged resolved : IncidentState

pub data ActionState : Type 0 where
  queued retry succeeded failed skipped : ActionState

pub data CheckState : Type 0 where
  pending started waiting_confirmation confirmed timeout cancelled failed : CheckState

abbrev pub incident_state_value : IncidentState → String
incident_state_value opened = "open"
incident_state_value acknowledged = "acknowledged"
incident_state_value resolved = "resolved"

abbrev pub action_state_value : ActionState → String
action_state_value queued = "queued"
action_state_value retry = "retry"
action_state_value succeeded = "succeeded"
action_state_value ActionState.failed = "failed"
action_state_value skipped = "skipped"

abbrev pub check_state_value : CheckState → String
check_state_value pending = "pending"
check_state_value started = "started"
check_state_value waiting_confirmation = "waiting_confirmation"
check_state_value confirmed = "confirmed"
check_state_value timeout = "timeout"
check_state_value cancelled = "cancelled"
check_state_value CheckState.failed = "failed"

-- `state in {QUEUED, RETRY}`
abbrev pub is_waiting : ActionState → Bool
is_waiting queued = true
is_waiting retry = true
is_waiting _ = false

-- `state in {SUCCEEDED, FAILED}`
abbrev pub is_processed : ActionState → Bool
is_processed succeeded = true
is_processed ActionState.failed = true
is_processed _ = false

-- `state in {SUCCEEDED, FAILED, SKIPPED}`
abbrev pub is_finished : ActionState → Bool
is_finished skipped = true
is_finished s = is_processed s

abbrev pub is_queued : ActionState → Bool
is_queued queued = true
is_queued _ = false

abbrev pub is_retry : ActionState → Bool
is_retry retry = true
is_retry _ = false

abbrev pub is_succeeded : ActionState → Bool
is_succeeded succeeded = true
is_succeeded _ = false

abbrev pub is_failed : ActionState → Bool
is_failed ActionState.failed = true
is_failed _ = false

abbrev pub is_opened : IncidentState → Bool
is_opened opened = true
is_opened _ = false

abbrev pub is_resolved : IncidentState → Bool
is_resolved resolved = true
is_resolved _ = false
