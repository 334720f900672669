-- ===== src/Integrity/Rows.antt =====
-- The rows that the columns of models.py and the bounds of schemas.py allow, one by one.
use support_operations_intel.Models.States.{ActionState, skipped, is_opened}
use support_operations_intel.Prelude.{Bool, true, false, ◌≡◌, ◌≤◌}
use support_operations_intel.Models.Tables.{
  CheckRun, Incident, Action, AutomationRule, Asset, IdempotencyRecord, OperationalEvent,
}
use Prim.Native.String.{count as text_length}

abbrev pub AssetFits : Asset → Type 0
AssetFits a =
    (text_length a.external_id ≤ 80) × (text_length a.name ≤ 120) × (text_length a.group ≤ 80)

abbrev pub RuleFits : AutomationRule → Type 0
RuleFits r =
    (text_length r.name ≤ 120)
    × (text_length r.category ≤ 80)
    × (text_length r.action_type ≤ 80)
    × (r.minimum_severity ≤ 100)
    × (r.cooldown_minutes ≤ 1440)

abbrev pub EventFits : OperationalEvent → Type 0
EventFits e =
    (text_length e.source ≤ 120)
    × (text_length e.category ≤ 80)
    × (text_length e.correlation_id ≤ 80)
    × (1 ≤ e.severity)
    × (e.severity ≤ 100)

-- No call moves an incident from the state it starts in.
abbrev pub IncidentFits : Incident → Type 0
IncidentFits i = is_opened i.state ≡ true

abbrev pub is_skipped : ActionState → Bool
is_skipped skipped = true
is_skipped _ = false

-- No call skips an action.
abbrev pub ActionFits : Action → Type 0
ActionFits a = is_skipped a.state ≡ false

abbrev pub RecordFits : IdempotencyRecord → Type 0
RecordFits r = text_length r.key ≤ 120

abbrev pub CheckFits : CheckRun → Type 0
CheckFits c = (text_length c.name ≤ 120) × (text_length c.asset_external_id ≤ 80)
