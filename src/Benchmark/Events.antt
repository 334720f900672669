-- ===== src/Benchmark/Events.antt =====
-- The loop over the events of benchmarks/run_python_vs_dotnet.py: no event fails, and the tables keep
-- the book of all of them.
use mathlib.Core.Path.{subst}
use support_operations_intel.Workload.{SharedEvent}
use support_operations_intel.Benchmark.Steps.{settle-Goes, Goes}
use support_operations_intel.Benchmark.{process_events, to_python_payload, process_event}
use support_operations_intel.Benchmark.Book.{book_events-modes, book_events, book_event, Book}
use support_operations_intel.Models.Database.{
  session_scope, pure, raised, and_then, ok, Result, Database,
}
use support_operations_intel.Contract.Seeding.{has_external}
use support_operations_intel.Models.Tables.{AutomationRule, OperationalEvent, Asset}
use support_operations_intel.Schemas.{event_is_valid, EventCreate}
use support_operations_intel.Idempotency.{process_plain, by_key, Reply, process, Others}
use support_operations_intel.Prelude.{
  [], ◌∷◌, ◌∙◌, ap, All_find, find-holds, eq_iff, inr, any-find-none, inl, find, Option-cases,
  length, true, false, none, suc, arith, some, refl, All-imp, str_eq, any-update_where,
  All-update_where, ◌*◌, ◌==◌, Option, ◌≡◌, ◌+◌, update_where, ◌≤◌, All, List, String, ℕ,
}
use support_operations_intel.Processor.{
  event_row, process_new, Processed, record_event, minute, settle,
}
use support_operations_intel.Models.Engine.{IsEngine, Clock, Engine}
use support_operations_intel.Benchmark.Books.{rule_for, match_lem, HitAlike, Alike, KeepsBook}

-- A change of the status of an asset.
abbrev marked : ℕ → String → List Asset → List Asset
marked id status assets = update_where (λ a. a.id == id) (λ a. record a { status = status }) assets

Alike-marked :
    (id : ℕ) (status : String) (assets : List Asset) (a : Asset)
    → All (Alike a) assets
    → All (Alike a) (marked id status assets)
Alike-marked id status assets a =
    All-update_where (Alike a) (λ x. x.id == id) (λ x. record x { status = status }) assets
      (λ x e h. h)

all-Alike-marked :
    (id : ℕ) (status : String) (assets : List Asset)
    → All (λ a. All (Alike a) assets) assets
    → All (λ a. All (Alike a) (marked id status assets)) (marked id status assets)
all-Alike-marked id status assets alike =
    All-update_where (λ a. All (Alike a) (marked id status assets)) (λ x. x.id == id)
      (λ x. record x { status = status }) assets (λ x e h. h)
      (All-imp _ _ assets (Alike-marked id status assets) alike)

has_external-marked :
    (id : ℕ) (status : String) (assets : List Asset) (x : String)
    → has_external x (marked id status assets) ≡ has_external x assets
has_external-marked id status assets x =
    any-update_where (λ a. str_eq a.external_id x) (λ a. a.id == id)
      (λ a. record a { status = status }) assets (λ a e. refl)

settle-assets :
    (engine : Engine) (clock : Clock) (max_queue_backlog : ℕ) (payload : EventCreate)
    (asset : Asset) (event : OperationalEvent) (rule : Option AutomationRule) (db : Database)
    → (settle engine clock max_queue_backlog payload asset event rule db).1.assets ≡ db.assets
unfolding settle
settle-assets engine clock max_queue_backlog payload asset event none db = refl
settle-assets engine clock max_queue_backlog payload asset event (some rule) db = ground arith

module _ (engine : Engine) (clocks : ℕ → Clock) (others : Others)
    (max_queue_backlog first second start : ℕ) (laws : IsEngine engine)
    (times : (k : ℕ) → (clocks k 1 ≤ start + 5 * minute) × (start ≤ clocks k 2)) where
  recorded-KeepsBook :
      (k n : ℕ) (payload : EventCreate) (asset : Asset) (book : Book) (db : Database)
      → KeepsBook first second start n book db
      → KeepsBook first second start
          (suc n)
          book
          (record_event engine (clocks k) payload asset db).1
  unfolding record_event
  recorded-KeepsBook k n payload asset book db keeps = record {
    rules = keeps.rules;
    alike = all-Alike-marked asset.id payload.category db.assets keeps.alike;
    hit =
        All-update_where (HitAlike db book.seen) (λ x. x.id == asset.id)
          (λ x. record x { status = payload.category }) db.assets (λ x e h. h) keeps.hit;
    live = keeps.live;
    incidents = keeps.incidents;
    events = rw keeps.events refl;
    suppressions = keeps.suppressions;
    details = keeps.details;
    waiting = keeps.waiting;
    ids = keeps.ids;
  }

  -- One event: it returns, the book is kept, and the assets stay stored.
  abbrev Processes : ℕ → Book → Database → Result Reply × Database → Type 0
  Processes n book db (ok reply, db') =
      KeepsBook first second start n book db'
      × ((x : String) → has_external x db'.assets ≡ has_external x db.assets)
  Processes n book db (raised e, db') = ⊥

  Processes-Goes :
      (n : ℕ) (book : Book) (db : Database) (out : Result Processed × Database)
      → Goes first second start n book out
      → ((x : String) → has_external x out.1.assets ≡ has_external x db.assets)
      → Processes n book db (and_then {B = Reply} out.0 (λ done. pure (done, false)) out.1)
  Processes-Goes n book db (ok done, d) goes same = (goes, same)
  Processes-Goes n book db (raised e, d) goes same = absurd goes

  process_event-Processes :
      (k n : ℕ) (event : SharedEvent) (book : Book) (db : Database)
      → event_is_valid (to_python_payload event) ≡ true
      → has_external event.asset_id db.assets ≡ true
      → length (book_event event book).modes ≤ max_queue_backlog
      → KeepsBook first second start n book db
      → Processes
          (suc n)
          (book_event event book)
          db
          (process_event engine clocks others max_queue_backlog k event db)
  unfolding process_event process by_key process_plain process_new
  process_event-Processes k n event book db valid stored room keeps =
      elim (Option-cases (find (λ a. str_eq a.external_id event.asset_id) db.assets)) [
        | inl gone ↦
            let missing : has_external event.asset_id db.assets ≡ false =
              any-find-none (λ a. str_eq a.external_id event.asset_id) db.assets gone in
            cc
        | inr (asset, found) ↦
            let clock = clocks k in
            let payload = to_python_payload event in
            let db' = (record_event engine clock payload asset db).1 in
            let row = event_row engine clock payload asset db in
            let kept = recorded-KeepsBook k n payload asset book db keeps in
            let is_named = λ (a : Asset). str_eq a.external_id event.asset_id in
            let named : asset.external_id ≡ event.asset_id =
              (eq_iff asset.external_id event.asset_id).0
                (find-holds is_named db.assets asset found) in
            let alike : All (Alike asset) db'.assets =
              Alike-marked asset.id event.category db.assets asset (
                All_find (λ a. All (Alike a) db.assets) is_named db.assets asset keeps.alike
                  found) in
            let hit : HitAlike db' book.seen asset =
              All_find (HitAlike db book.seen) is_named db.assets asset keeps.hit found in
            rw (valid, found, match_lem engine first second row db' laws kept.rules)
              (Processes-Goes (suc n) (book_event event book) db _
                (settle-Goes engine clock max_queue_backlog first second start (suc n) laws
                  ((times k).0) ((times k).1) event book db' asset kept named alike hit row room)
                (λ x.
                  ap (has_external x) (
                    settle-assets engine clock max_queue_backlog payload asset row
                      (rule_for first second event.category event.severity) db')
                  ∙ has_external-marked asset.id event.category db.assets x))
      ]

  abbrev AllProcess : ℕ → ℕ → Book → ℕ × Database → Type 0
  AllProcess errors n book (errors', db) =
      (errors' ≡ errors) × KeepsBook first second start n book db

  -- The loop after an event, by how it ended.
  AllProcess-after :
      (k n errors : ℕ) (book : Book) (db : Database) (events : List SharedEvent)
      (out : Result Reply × Database)
      → Processes (suc n) book db out
      → ((d : Database)
          → KeepsBook first second start (suc n) book d
          → ((x : String) → has_external x d.assets ≡ has_external x db.assets)
          → AllProcess errors
              (suc n + length events)
              (book_events events book)
              (process_events engine clocks others max_queue_backlog events k errors d))
      → AllProcess errors (n + suc (length events)) (book_events events book) (
          process_events engine clocks others max_queue_backlog events k
            (elim (session_scope (λ _. out) db).0 [ ok _ ↦ errors | raised _ ↦ suc errors ])
            (session_scope (λ _. out) db).1)
  unfolding session_scope
  AllProcess-after k n errors book db events (ok reply, d) (kept, same) rest =
      let shift : suc n + length events ≡ n + suc (length events) = omega arith in
      subst
        (λ m.
          AllProcess errors m (book_events events book)
            (process_events engine clocks others max_queue_backlog events k errors d))
        shift (rest d kept same)
  AllProcess-after k n errors book db events (raised e, d) h rest = absurd h

  pub process_events-AllProcess :
      (events : List SharedEvent) (k n errors : ℕ) (book : Book) (db : Database)
      → All (λ e. event_is_valid (to_python_payload e) ≡ true) events
      → All (λ e. has_external e.asset_id db.assets ≡ true) events
      → length (book_events events book).modes ≤ max_queue_backlog
      → KeepsBook first second start n book db
      → AllProcess errors
          (n + length events)
          (book_events events book)
          (process_events engine clocks others max_queue_backlog events k errors db)
  unfolding process_events book_events session_scope
  process_events-AllProcess [] k n errors book db valid stored room keeps =
      let none_left : n ≡ n + 0 = omega arith in
      (refl, subst (λ m. KeepsBook first second start m book db) none_left keeps)
  process_events-AllProcess (event ∷ events) k n errors book db (valid, valids) (stored, storeds)
        room keeps =
      AllProcess-after (suc k) n errors (book_event event book) db events
        (process_event engine clocks others max_queue_backlog k event db)
        (process_event-Processes k n event book db valid stored
          (omega (arith, book_events-modes events (book_event event book), room)) keeps)
        (λ d kept same.
          process_events-AllProcess events (suc k) (suc n) errors (book_event event book) d valids
            (All-imp _ _ events (λ e h. same e.asset_id ∙ h) storeds) room kept)
