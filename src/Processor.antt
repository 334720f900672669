-- ===== src/Processor.antt =====
-- services/processor.py: `EventProcessor`. A call reads the clock at numbered places, in program
-- order; `_process_new` is the whole path of an event that is no replay.
pub mod Outcome
pub mod Limits
use support_operations_intel.Prelude.{
  ℕ, ◌-◌, ◌*◌, Bool, false, not, ◌&&◌, Option, none, some, ◌∷◌, [], map, String, ◌==◌, leb,
  if◌then◌else◌, find, any, count, update_where, str_eq, or_text, f_string,
}
use support_operations_intel.Models.States.{opened, queued, is_waiting, is_resolved}
use support_operations_intel.Models.Tables.{
  Asset, AutomationRule, OperationalEvent, Incident, Action,
}
use support_operations_intel.Models.Database.{
  Database, Session, pure, gets, or_raise, unknown_asset, ok, ◌>>=◌, ◌>>◌,
}
use support_operations_intel.Models.Engine.{Engine, Clock}
use support_operations_intel.Models.Inserts.{audit}
use support_operations_intel.Schemas.{EventCreate}
use support_operations_intel.Rules

-- What `_process_new` returns.
pub record Processed : Type 0 where
  pub event : OperationalEvent
  pub incident : Option Incident
  pub action : Option Action
  pub skipped_reason : Option String

abbrev pub minute : ℕ
minute = 60_000_000

-- `_in_cooldown`: some incident of the asset is recent and not resolved.
unfoldable pub in_cooldown : ℕ → Asset → ℕ → Database → Bool
in_cooldown now asset cooldown_minutes db =
    if leb cooldown_minutes 0
    then false
    else any
        (λ i.
          i.asset_id == asset.id
          && leb (now - cooldown_minutes * minute) i.created_at
          && not (is_resolved i.state))
        db.incidents

-- `_queue_backlog`
abbrev pub queue_backlog : Database → ℕ
queue_backlog db = count (λ a. is_waiting a.state) db.actions

module _ (engine : Engine) (clock : Clock) where
  abbrev pub event_row : EventCreate → Asset → Database → OperationalEvent
  event_row payload asset db = record {
    id = engine.next_id (map (λ e. e.id) db.operational_events);
    asset_id = asset.id;
    source = payload.source;
    category = payload.category;
    severity = payload.severity;
    message = payload.message;
    correlation_id = or_text payload.correlation_id (f_string ("corr-" ∷ engine.uuid 0 ∷ []));
    created_at = clock 0;
  }

  -- The event is added, and the asset takes the event's category for its status.
  unfoldable pub record_event : EventCreate → Asset → Session OperationalEvent
  record_event payload asset db = (
    ok (event_row payload asset db),
    record db {
      operational_events = event_row payload asset db ∷ db.operational_events;
      assets =
          update_where (λ a. a.id == asset.id) (λ a. record a { status = payload.category })
            db.assets;
    },
  )

  abbrev pub incident_row : Asset → AutomationRule → OperationalEvent → Database → Incident
  incident_row asset rule event db = record {
    id = engine.next_id (map (λ i. i.id) db.incidents);
    asset_id = asset.id;
    rule_id = rule.id;
    event_id = event.id;
    state = opened;
    summary = f_string (rule.name ∷ ": " ∷ asset.external_id ∷ " reported " ∷ event.category ∷ []);
    created_at = clock 2;
    updated_at = clock 3;
  }

  unfoldable pub open_incident : Asset → AutomationRule → OperationalEvent → Session Incident
  open_incident asset rule event db = (
    ok (incident_row asset rule event db),
    record db { incidents = incident_row asset rule event db ∷ db.incidents },
  )

  abbrev pub action_row : EventCreate → AutomationRule → Incident → Database → Action
  action_row payload rule incident db = record {
    id = engine.next_id (map (λ a. a.id) db.actions);
    incident_id = incident.id;
    action_type = rule.action_type;
    state = queued;
    attempts = 0;
    detail = payload.executor_mode;
    next_attempt_at = some (clock 4);
    lease_id = none;
    leased_at = none;
    created_at = clock 5;
    updated_at = clock 6;
  }

  unfoldable pub queue_action : EventCreate → AutomationRule → Incident → Session Action
  queue_action payload rule incident db = (
    ok (action_row payload rule incident db),
    record db { actions = action_row payload rule incident db ∷ db.actions },
  )

  -- The ways in which the path of a new event ends, each with its entry in the log.
  unfoldable pub leave_unmatched : OperationalEvent → Session Processed
  unfolding audit
  leave_unmatched event = do
    audit engine (clock 7) "event_recorded" "operational_event" event.id "No rule matched event"
    pure (record {
      event = event;
      incident = none;
      action = none;
      skipped_reason = some "no_matching_rule";
    })

  unfoldable pub suppress : OperationalEvent → Session Processed
  unfolding audit
  suppress event = do
    audit engine (clock 7) "event_suppressed" "operational_event" event.id
        "Cooldown suppressed action"
    pure
        (record { event = event; incident = none; action = none; skipped_reason = some "cooldown" })

  unfoldable pub reject_action : OperationalEvent → Incident → Session Processed
  unfolding audit
  reject_action event incident = do
    audit engine (clock 7) "queue_backpressure" "incident" incident.id
        "Queue backlog limit rejected action"
    pure (record {
      event = event;
      incident = some incident;
      action = none;
      skipped_reason = some "queue_backpressure";
    })

  unfoldable pub announce : OperationalEvent → Incident → Option Action → Session Processed
  unfolding audit
  announce event incident action = do
    audit engine (clock 7) "incident_created" "incident" incident.id incident.summary
    pure
        (record { event = event; incident = some incident; action = action; skipped_reason = none })

module _ (engine : Engine) (clock : Clock) (max_queue_backlog : ℕ) where
  unfoldable pub enqueue :
      EventCreate → AutomationRule → OperationalEvent → Incident → Session Processed
  unfolding queue_action announce
  enqueue payload rule event incident = do
    action ← queue_action engine clock payload rule incident
    announce engine clock event incident (some action)

  -- The rest of `_process_new` where an incident was created.
  unfoldable pub act :
      EventCreate → AutomationRule → OperationalEvent → Incident → Session Processed
  unfolding enqueue reject_action announce
  act payload rule event incident = do
    full ← gets (λ db. leb max_queue_backlog (queue_backlog db))
    if str_eq rule.action_type "none"
        then announce engine clock event incident none
        else if full
        then reject_action engine clock event incident
        else enqueue payload rule event incident

  unfoldable pub escalate :
      EventCreate → Asset → AutomationRule → OperationalEvent → Session Processed
  unfolding open_incident act
  escalate payload asset rule event = do
    incident ← open_incident engine clock asset rule event
    act payload rule event incident

  -- The rest of `_process_new` from the rule on.
  unfoldable pub settle :
      EventCreate → Asset → OperationalEvent → Option AutomationRule → Session Processed
  unfolding in_cooldown suppress escalate leave_unmatched
  settle payload asset event none = leave_unmatched engine clock event
  settle payload asset event (some rule) = do
    suppressed ← gets (in_cooldown (clock 1) asset rule.cooldown_minutes)
    if suppressed then suppress engine clock event else escalate payload asset rule event

  -- `_process_new`
  unfoldable pub process_new : EventCreate → Session Processed
  unfolding record_event Rules.match
  process_new payload = do
    found ← gets (λ db. find (λ a. str_eq a.external_id payload.asset_external_id) db.assets)
    asset ← or_raise found (unknown_asset payload.asset_external_id)
    event ← record_event engine clock payload asset
    rule ← gets (Rules.match engine event)
    settle payload asset event rule
