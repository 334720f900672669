-- ===== src/Tests/Benchmark.antt =====
-- A benchmark run of six events, in memory.
use support_operations_intel.Models.Database.{ok, empty_database}
use support_operations_intel.Models.Engine.{Clock}
use support_operations_intel.Workload.{
  counters_from, padded, expected_counters, generate_events, event_at, SharedEvent, events_from,
}
use support_operations_intel.Idempotency.{Others}
use support_operations_intel.Schemas.{event_is_valid}
use support_operations_intel.Prelude.{
  ◌≤◌, refl, true, All, arith, str, f_string, false, some, ◌≡◌, List, ℕ,
}
use support_operations_intel.Samples.{clock_at, sqlite, sqlite-IsEngine}
use support_operations_intel.Benchmark.{run_python_engine_once, to_python_payload}
use support_operations_intel.Benchmark.Agrees.{run_python_engine_once-expected}

abbrev alone : Others
alone = record { claimed = λ key. false; seen = λ n. empty_database }

abbrev clocks : ℕ → Clock
clocks k = clock_at 2_000_000_000

abbrev events : List SharedEvent
events = generate_events 6 424_242

valid : All (λ e. event_is_valid (to_python_payload e) ≡ true) events
unfolding event_is_valid events_from event_at f_string str padded
valid = (refl, (refl, (refl, (refl, (refl, (refl, tt))))))

room : (expected_counters 6).actions ≤ 10_000
unfolding counters_from
room = omega arith

run_python_engine_once-expected_example :
    run_python_engine_once sqlite clocks alone 10_000 3 (clock_at 2_000_000_100) events
    ≡ some (ok (expected_counters 6))
run_python_engine_once-expected_example =
    run_python_engine_once-expected sqlite clocks alone 10_000 3 (clock_at 2_000_000_100) 6 424_242
      2_000_000_000 sqlite-IsEngine (λ k. (omega arith, omega arith)) valid room (omega arith)
