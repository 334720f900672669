-- ===== src/Benchmark/Book.antt =====
-- The run of benchmarks/run_python_vs_dotnet.py on events, with no tables: a book of the assets that
-- have an incident, the modes of the queued actions, and two numbers.
use support_operations_intel.Contract.{holds_text}
use support_operations_intel.Workload.{SharedEvent}
use support_operations_intel.Prelude.{
  leb, ◌&&◌, arith, ℕ, str_eq, ◌≤◌, String, ◌∷◌, length, Bool, if◌then◌else◌, List, [], suc,
}

pub record Book : Type 0 where
  pub seen : List String
  pub modes : List String
  pub incidents : ℕ
  pub suppressions : ℕ

abbrev pub is_critical : SharedEvent → Bool
is_critical event = str_eq "offline" event.category && leb 80 event.severity

abbrev pub is_warning : SharedEvent → Bool
is_warning event = str_eq "degraded" event.category && leb 50 event.severity

abbrev pub with_incident : SharedEvent → List String → Book → Book
with_incident event modes book = record {
  seen = event.asset_id ∷ book.seen;
  modes = modes;
  incidents = suc book.incidents;
  suppressions = book.suppressions;
}

abbrev pub suppressed : Book → Book
suppressed book = record book { suppressions = suc book.suppressions }

-- A critical event queues an action, a warning does not; an asset gets one incident.
unfoldable pub book_event : SharedEvent → Book → Book
book_event event book =
    if is_critical event
    then if holds_text event.asset_id book.seen
      then suppressed book
      else with_incident event (event.executor_mode ∷ book.modes) book
    else if is_warning event
    then if holds_text event.asset_id book.seen
      then suppressed book
      else with_incident event book.modes book
    else book

unfoldable pub book_events : List SharedEvent → Book → Book
unfolding book_event
book_events [] book = book
book_events (event ∷ events) book = book_events events (book_event event book)

abbrev pub empty_book : Book
empty_book = record { seen = []; modes = []; incidents = 0; suppressions = 0 }

book_event-modes :
    (event : SharedEvent) (book : Book) → length book.modes ≤ length (book_event event book).modes
unfolding book_event
book_event-modes event book = ground arith

-- The queued actions only grow.
pub book_events-modes :
    (events : List SharedEvent) (book : Book)
    → length book.modes ≤ length (book_events events book).modes
unfolding book_events
book_events-modes [] book = omega arith
book_events-modes (event ∷ events) book =
    omega (arith, book_event-modes event book, book_events-modes events (book_event event book))
