-- ===== src/Benchmark/Agrees.antt =====
-- A run of benchmarks/run_python_vs_dotnet.py against the counters of benchmarks/workload.py.
use mathlib.Core.Path.{subst}
use support_operations_intel.Models.Database.{Database, ok}
use support_operations_intel.Schemas.{event_is_valid}
use support_operations_intel.Processor.{minute}
use support_operations_intel.Idempotency.{Others}
use support_operations_intel.Prelude.{
  ◌∙◌, arith, ◌-◌, some, true, All, refl, ◌*◌, zero, ◌+◌, ap, ◌≤◌, suc, ◌≡◌, length, ℕ,
}
use support_operations_intel.Models.Engine.{IsEngine, Clock, Engine}
use support_operations_intel.Workload.{expected_counters, generate_events, events_from}
use support_operations_intel.Benchmark.Books.{KeepsBook}
use support_operations_intel.Benchmark.Book.{Book, book_events, empty_book}
use support_operations_intel.Benchmark.Figures.{book_counters, run_actions_lem}
use support_operations_intel.Benchmark.Generated.{book_events-generate_events}
use support_operations_intel.Benchmark.Seeds.{seed_python_database-KeepsBook}
use support_operations_intel.Benchmark.Events.{process_events-AllProcess}
use support_operations_intel.Benchmark.{
  run_seeded, run_python_engine_once, run_actions, process_events, to_python_payload,
}

length-events_from : (left i seed : ℕ) → length (events_from left i seed) ≡ left
unfolding events_from
length-events_from zero i seed = refl
length-events_from (suc left) i seed = ap suc (length-events_from left (suc i) seed)

-- The run of the actions, after a loop with no errors.
run_actions-KeepsBook :
    (engine : Engine) (fuel : ℕ) (clock : Clock) (first second start n total : ℕ) (book : Book)
    (out : ℕ × Database)
    → IsEngine engine
    → 3 ≤ fuel
    → n ≡ total
    → out.0 ≡ 0
    → KeepsBook first second start n book out.1
    → run_actions engine fuel clock out ≡ some (ok (book_counters total book))
run_actions-KeepsBook engine fuel clock first second start n total book out laws enough number
      none_failed kept =
    let rounds : suc (suc (suc (fuel - 3))) ≡ fuel = omega arith in
    ap (λ k. run_actions engine fuel clock (k, out.1)) none_failed
    ∙ subst (λ f. run_actions engine f clock (0, out.1) ≡ some (ok (book_counters n book))) rounds
        (run_actions_lem engine (fuel - 3) clock laws first second start n book out.1 kept)
    ∙ ap (λ m. some (ok (book_counters m book))) number

-- With a lawful SQL engine, where all incidents are created at or after some time and every cooldown
-- is looked at no later than five minutes after it, where the events of the workload pass the
-- schema, the queue has room for the actions that are expected, and the fuel is three rounds or
-- more: the engine run on a generated workload ends, no event of it fails, and its figures are the
-- counters that `expected_counters` gives for the workload.
pub run_python_engine_once-expected :
    (engine : Engine) (clocks : ℕ → Clock) (others : Others) (max_queue_backlog fuel : ℕ)
    (clock : Clock) (total seed start : ℕ)
    → IsEngine engine
    → ((k : ℕ) → (clocks k 1 ≤ start + 5 * minute) × (start ≤ clocks k 2))
    → All (λ e. event_is_valid (to_python_payload e) ≡ true) (generate_events total seed)
    → (expected_counters total).actions ≤ max_queue_backlog
    → 3 ≤ fuel
    → run_python_engine_once engine clocks others max_queue_backlog fuel clock
        (generate_events total seed)
      ≡ some (ok (expected_counters total))
unfolding run_python_engine_once run_seeded
run_python_engine_once-expected engine clocks others max_queue_backlog fuel clock total seed start
      laws times valid room enough =
    let events = generate_events total seed in
    let book = book_events events empty_book in
    let (db, seeded, keeps, stored) = seed_python_database-KeepsBook engine laws events start in
    let counters = book_events-generate_events total seed in
    let modes : length book.modes ≤ max_queue_backlog =
      let same : length book.modes ≡ (expected_counters total).actions =
        ap (λ c. c.actions) counters in
      rw same room in
    let (none_failed, kept) =
      process_events-AllProcess engine clocks others max_queue_backlog _ _ start laws times events 0
        0 0 empty_book db valid stored modes keeps in
    let after = process_events engine clocks others max_queue_backlog events 0 0 db in
    let number : 0 + length events ≡ total = omega (arith, length-events_from total 0 seed) in
    ap (run_seeded engine clocks others max_queue_backlog fuel clock events) seeded
    ∙ run_actions-KeepsBook engine fuel clock _ _ start _ total book after laws enough number
        none_failed kept
    ∙ ap (λ c. some (ok c)) counters
