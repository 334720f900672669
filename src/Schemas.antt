-- ===== src/Schemas.antt =====
-- schemas.py: the bodies of requests, with the bounds that each field is validated by.
pub mod Responses
use Prim.Native.String.{count}
use support_operations_intel.Prelude.{ℕ, Bool, true, ◌&&◌, Option, none, some, String, leb}

pub record AssetCreate : Type 0 where
  pub external_id : String
  pub name : String
  pub group : String

pub record RuleCreate : Type 0 where
  pub name : String
  pub category : String
  pub minimum_severity : ℕ
  pub cooldown_minutes : ℕ
  pub action_type : String
  pub enabled : Bool

pub record EventCreate : Type 0 where
  pub asset_external_id : String
  pub source : String
  pub category : String
  pub severity : ℕ
  pub message : String
  pub executor_mode : String
  pub idempotency_key : Option String
  pub correlation_id : Option String

pub record CheckCreate : Type 0 where
  pub name : String
  pub asset_external_id : String
  pub detail : String

pub record CheckTransition : Type 0 where
  pub target_state : String
  pub detail : String
  pub timeout_seconds : Option ℕ

-- `min_length` and `max_length` count characters; `ge` and `le` bound numbers.
abbrev pub length_within : ℕ → ℕ → String → Bool
length_within least most s = leb least (count s) && leb (count s) most

abbrev pub within : ℕ → ℕ → ℕ → Bool
within least most n = leb least n && leb n most

-- A field that may be `None` is tested only if it is given.
abbrev pub if_given : {A : Type 0} → (A → Bool) → Option A → Bool
if_given test none = true
if_given test (some a) = test a

unfoldable pub asset_is_valid : AssetCreate → Bool
asset_is_valid asset =
    length_within 3 80 asset.external_id
    && length_within 3 120 asset.name
    && length_within 2 80 asset.group

unfoldable pub rule_is_valid : RuleCreate → Bool
rule_is_valid rule =
    length_within 3 120 rule.name
    && length_within 2 80 rule.category
    && within 1 100 rule.minimum_severity
    && within 0 1440 rule.cooldown_minutes
    && length_within 3 80 rule.action_type

unfoldable pub event_is_valid : EventCreate → Bool
event_is_valid event =
    length_within 3 80 event.asset_external_id
    && length_within 3 120 event.source
    && length_within 2 80 event.category
    && within 1 100 event.severity
    && leb 5 (count event.message)
    && length_within 3 40 event.executor_mode
    && if_given (length_within 8 120) event.idempotency_key
    && if_given (length_within 3 80) event.correlation_id

unfoldable pub check_is_valid : CheckCreate → Bool
check_is_valid check =
    length_within 3 120 check.name
    && length_within 3 80 check.asset_external_id
    && leb (count check.detail) 500

unfoldable pub transition_is_valid : CheckTransition → Bool
transition_is_valid transition =
    length_within 3 40 transition.target_state
    && leb (count transition.detail) 500
    && if_given (within 1 86_400) transition.timeout_seconds
