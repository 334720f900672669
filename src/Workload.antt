-- ===== src/Workload.antt =====
-- benchmarks/workload.py: the synthetic events and the counters that they should lead to. The time
-- of an event is in seconds since 2026-01-01, which `isoformat` prints.
pub mod Counters
pub mod Files
pub mod RoundTrip
pub mod Sizes
use support_operations_intel.Prelude.{
  ◌^◌, ◌||◌, to_ℕ, ltb, ◌+◌, if◌then◌else◌, ◌==◌, zero, ◌-◌, ◌∷◌, [], suc, ◌/◌, f_string, List, ◌%◌,
  String, ℕ, str,
}

pub record SharedEvent : Type 0 where
  pub asset_id : String
  pub source : String
  pub category : String
  pub severity : ℕ
  pub occurred_at : ℕ
  pub message : String
  pub executor_mode : String

pub record ExpectedCounters : Type 0 where
  pub events : ℕ
  pub incidents : ℕ
  pub actions : ℕ
  pub cooldown_suppressions : ℕ
  pub succeeded_actions : ℕ
  pub failed_actions : ℕ
  pub retry_attempts : ℕ
  pub permanent_failures : ℕ
  pub errors : ℕ

-- `{n:06d}` and `{n:02d}`: at least so many digits.
unfoldable pub pad_from : ℕ → ℕ → String
pad_from zero n = str n
pad_from (suc more) n =
    let shorter = pad_from more n in
    if ltb n (10 ^ suc more) then f_string ("0" ∷ shorter ∷ []) else str n

unfoldable pub padded : ℕ → ℕ → String
unfolding pad_from str f_string
padded width n = pad_from (width - 1) n

abbrev pub asset_name : ℕ → ℕ → String → String
asset_name seed group kind = f_string ("SYN-" ∷ str seed ∷ "-" ∷ padded 6 group ∷ "-" ∷ kind ∷ [])

abbrev pub shared : ℕ → ℕ → String → String → ℕ → String → String → SharedEvent
shared index seed kind category severity words executor_mode = record {
  asset_id = asset_name seed (index / 20) kind;
  source = f_string ("synthetic-source-" ∷ str (seed % 997) ∷ []);
  category = category;
  severity = severity;
  occurred_at = index;
  message = f_string (words ∷ " synthetic event " ∷ str index ∷ []);
  executor_mode = executor_mode;
}

-- `event_at`
unfoldable pub event_at : ℕ → ℕ → SharedEvent
event_at index seed =
    let position = index % 20 in
    if position == 0
    then shared index seed "critical" "offline" 92 "critical" "success"
    else if position == 1
    then shared index seed "critical" "offline" 91 "cooldown duplicate" "success"
    else if position == 2
    then shared index seed "warning" "degraded" 64 "warning" "success"
    else if position == 3
    then shared index seed "transient" "offline" 93 "transient" "transient_then_success"
    else if position == 4
    then shared index seed "permanent" "offline" 94 "permanent" "permanent_failure"
    else shared index seed (f_string ("normal-" ∷ padded 2 position ∷ [])) "heartbeat" 15 "normal"
        "success"

-- `for index in range(count)`, from `index` on
unfoldable pub events_from : ℕ → ℕ → ℕ → List SharedEvent
events_from zero index seed = []
events_from (suc left) index seed = event_at index seed ∷ events_from left (suc index) seed

-- `generate_events`
abbrev pub generate_events : ℕ → ℕ → List SharedEvent
generate_events total seed = events_from total 0 seed

-- The body of the loop of `expected_counters`.
unfoldable pub count_index : ℕ → ExpectedCounters → ExpectedCounters
count_index index c =
    let position = index % 20 in
    let is = λ (n : ℕ). position == n in
    record c {
      incidents = c.incidents + to_ℕ (is 0 || is 2 || is 3 || is 4);
      actions = c.actions + to_ℕ (is 0 || is 3 || is 4);
      cooldown_suppressions = c.cooldown_suppressions + to_ℕ (is 1);
      succeeded_actions = c.succeeded_actions + to_ℕ (is 0 || is 3);
      failed_actions = c.failed_actions + to_ℕ (is 4);
      retry_attempts = c.retry_attempts + to_ℕ (is 3);
      permanent_failures = c.permanent_failures + to_ℕ (is 4);
    }

unfoldable pub counters_from : ℕ → ℕ → ExpectedCounters → ExpectedCounters
unfolding count_index
counters_from zero index c = c
counters_from (suc left) index c = counters_from left (suc index) (count_index index c)

abbrev pub no_counters : ℕ → ExpectedCounters
no_counters events = record {
  events = events;
  incidents = 0;
  actions = 0;
  cooldown_suppressions = 0;
  succeeded_actions = 0;
  failed_actions = 0;
  retry_attempts = 0;
  permanent_failures = 0;
  errors = 0;
}

-- `expected_counters`
abbrev pub expected_counters : ℕ → ExpectedCounters
expected_counters total = counters_from total 0 (no_counters total)
