-- ===== src/Benchmark.antt =====
-- The engine run of benchmarks/run_python_vs_dotnet.py: a database is seeded for a workload, its
-- events are processed, the queued actions are run, and the figures are read off. What the run
-- measures, its times and memory, is left out.
pub mod Book
pub mod Books
pub mod Steps
pub mod Events
pub mod Seeds
pub mod Tries
pub mod Acts
pub mod Batch
pub mod Figures
pub mod Names
pub mod Firsts
pub mod Generated
pub mod Agrees
use support_operations_intel.Contract.Seeding.{has_external}
use support_operations_intel.Models.States.{is_queued, is_failed, is_succeeded}
use support_operations_intel.Idempotency.{process, Reply, Others}
use support_operations_intel.Models.Tables.{Action, Asset}
use support_operations_intel.Seed.{add_rule}
use support_operations_intel.Models.Database.{
  validation_error, raise, integrity_error, ok, raised, ◌>>◌, empty_database, pure, Result,
  session_scope, Session, Database,
}
use support_operations_intel.Schemas.{event_is_valid, EventCreate}
use support_operations_intel.Prelude.Sort.{sort}
use support_operations_intel.Models.Engine.{Clock, Engine}
use support_operations_intel.Workload.{ExpectedCounters, SharedEvent}
use support_operations_intel.Contract.{distinct, run_queued}
use support_operations_intel.Actions.{default_transport, Policy}
use support_operations_intel.Prelude.{
  contains, ◌&&◌, ◌-◌, some, suc, true, [], ◌∷◌, ◌∷◌, str_eq, f_string, text_le, none, Option,
  if◌then◌else◌, List, String, ℕ, length, count, sum_of, leb, select, map, sum_of,
}
use support_operations_intel.Processor.{minute}
use Prim.Native.String.{count as text_length}

-- `text[-n:]`
abbrev last_chars : ℕ → String → String
last_chars n String.[] = ""
last_chars n (String.◌∷◌ c s) =
    let rest = last_chars n s in if leb n (text_length s) then rest else String.◌∷◌ c s

abbrev pub benchmark_asset : Engine → String → Database → Asset
benchmark_asset engine asset_id db = record {
  id = engine.next_id (map (λ a. a.id) db.assets);
  external_id = asset_id;
  name = f_string ("Synthetic " ∷ last_chars 24 asset_id ∷ []);
  group = "benchmark";
  status = "unknown";
}

-- `add_all` of the assets; the first whose external id is stored breaks the unique column.
unfoldable pub add_assets : Engine → List String → Session (Unit {0})
add_assets engine [] db = (ok tt, db)
add_assets engine (id ∷ ids) db =
    let rest =
      add_assets engine ids (record db { assets = benchmark_asset engine id db ∷ db.assets }) in
    if has_external id db.assets then (raised integrity_error, db) else rest

-- `seed_python_database`
unfoldable pub seed_python_database : Engine → List SharedEvent → Session (Unit {0})
unfolding add_assets distinct sort add_rule
seed_python_database engine events =
    add_assets engine (sort text_le (distinct (map (λ e. e.asset_id) events)))
    >> add_rule engine "Critical synthetic diagnostic" "offline" 80 5 "collect_diagnostics"
    >> add_rule engine "Warning synthetic incident" "degraded" 50 5 "none"

abbrev pub to_python_payload : SharedEvent → EventCreate
to_python_payload event = record {
  asset_external_id = event.asset_id;
  source = event.source;
  category = event.category;
  severity = event.severity;
  message = event.message;
  executor_mode = event.executor_mode;
  idempotency_key = none;
  correlation_id = none;
}

module _ (engine : Engine) (clocks : ℕ → Clock) (others : Others) (max_queue_backlog : ℕ) where
  -- The body of the `try`: the payload is checked where it is made.
  unfoldable pub process_event : ℕ → SharedEvent → Session Reply
  process_event k event =
      if event_is_valid (to_python_payload event)
      then process engine (clocks k) others max_queue_backlog (to_python_payload event)
      else raise validation_error

  -- The loop over the events, from event `k` on, with the errors so far.
  unfoldable pub process_events : List SharedEvent → ℕ → ℕ → Database → ℕ × Database
  unfolding process_event session_scope
  process_events [] k errors db = (errors, db)
  process_events (event ∷ events) k errors db =
      let (result, db') = session_scope (process_event k event) db in
      process_events events (suc k) (elim result [ ok _ ↦ errors | raised _ ↦ suc errors ]) db'

-- The arguments of `execute_action_with_retry` there, in microseconds.
abbrev pub benchmark_policy : Policy
benchmark_policy = record {
  max_attempts = 3;
  timeout_seconds = 1000;
  retry_delay_seconds = 0;
  transport = default_transport;
}

-- `python_metrics`, and the errors beside them
abbrev pub python_metrics : ℕ → Database → ExpectedCounters
python_metrics errors db = record {
  events = length db.operational_events;
  incidents = length db.incidents;
  actions = length db.actions;
  cooldown_suppressions = count (λ l. str_eq l.event_type "event_suppressed") db.audit_logs;
  succeeded_actions = count (λ a. is_succeeded a.state) db.actions;
  failed_actions = count (λ a. is_failed a.state) db.actions;
  retry_attempts = sum_of (λ a. a.attempts - 1) db.actions;
  permanent_failures = count (λ a. is_failed a.state && contains "permanent" a.detail) db.actions;
  errors = errors;
}

-- What follows the loop over the events: the queued actions in any order that the engine gives, and
-- the figures; none if a retry loop does not end within the fuel.
unfoldable pub run_actions : Engine → ℕ → Clock → ℕ × Database → Option (Result ExpectedCounters)
unfolding run_queued
run_actions engine fuel clock (errors, db) =
    let queued_actions =
      engine.order_by Action (λ a b. true) (select (λ a. is_queued a.state) db.actions) in
    elim (run_queued engine benchmark_policy fuel clock queued_actions db) [
      | none ↦ none
      | some (raised e, db') ↦ some (raised e)
      | some (ok _, db') ↦ some (ok (python_metrics errors db'))
    ]

module _ (engine : Engine) (clocks : ℕ → Clock) (others : Others) (max_queue_backlog fuel : ℕ)
    (clock : Clock) (events : List SharedEvent) where
  -- What follows the seeding.
  unfoldable pub run_seeded : Result (Unit {0}) × Database → Option (Result ExpectedCounters)
  unfolding process_events run_actions
  run_seeded (raised e, db) = some (raised e)
  run_seeded (ok _, db) =
      run_actions engine fuel clock
        (process_events engine clocks others max_queue_backlog events 0 0 db)

  -- `run_python_engine_once`
  unfoldable pub run_python_engine_once : Option (Result ExpectedCounters)
  unfolding seed_python_database run_seeded
  run_python_engine_once = run_seeded (seed_python_database engine events empty_database)
