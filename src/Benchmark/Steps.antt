-- ===== src/Benchmark/Steps.antt =====
-- One event of a run of benchmarks/run_python_vs_dotnet.py, in the tables and in the book.
use support_operations_intel.Integrity.Events.{fresh_id}
use mathlib.Core.Path.{subst}
use support_operations_intel.Benchmark.{to_python_payload}
use support_operations_intel.Benchmark.Books.{
  is_suppression, warning_rule, critical_rule, rule_for, KeepsBook,
}
use support_operations_intel.Models.Inserts.{audit}
use support_operations_intel.Workload.{SharedEvent}
use support_operations_intel.Benchmark.Books.{HitAlike, Alike}
use support_operations_intel.Processor.{
  action_row, queue_backlog, enqueue, act, leave_unmatched, open_incident, incident_row, escalate,
  queue_action, settle, announce, in_cooldown, suppress, minute, Processed,
}
use support_operations_intel.Benchmark.Book.{
  is_warning, is_critical, book_event, with_incident, suppressed, Book,
}
use support_operations_intel.Models.Tables.{
  AuditLog, AutomationRule, OperationalEvent, Incident, Asset, Action,
}
use support_operations_intel.Models.Engine.{IsEngine, Clock, Engine}
use support_operations_intel.Models.Database.{raised, ok, Result, Database}
use support_operations_intel.Prelude.{
  sym, inr, none, inl, Bool-cases, some, Option, arith, leb, ◌∙◌, false, refl, suc, ap, ◌*◌, ◌+◌,
  ◌∷◌, ◌≡◌, ◌≤◌, All, length, ℕ,
}
use support_operations_intel.Contract.{holds_text}
use support_operations_intel.Benchmark.Books.{cooled, backlog_lem, length-map, hit-cons}

-- How an event goes on: it returns, and the book is kept.
abbrev pub Goes : ℕ → ℕ → ℕ → ℕ → Book → Result Processed × Database → Type 0
Goes first second start n book (ok done, db) = KeepsBook first second start n book db
Goes first second start n book (raised e, db) = ⊥

module _ (engine : Engine) (clock : Clock) (max_queue_backlog first second start n : ℕ)
    (laws : IsEngine engine) (near : clock 1 ≤ start + 5 * minute) (late : start ≤ clock 2)
    (event : SharedEvent) (book : Book) (db : Database) (asset : Asset)
    (keeps : KeepsBook first second start n book db) (named : asset.external_id ≡ event.asset_id)
    (alike : All (Alike asset) db.assets) (hit : HitAlike db book.seen asset)
    (row : OperationalEvent) where
  in_cooldown_lem : in_cooldown (clock 1) asset 5 db ≡ holds_text event.asset_id book.seen
  unfolding in_cooldown
  in_cooldown_lem =
      cooled (clock 1) start asset db.incidents near keeps.live
      ∙ hit
      ∙ ap (λ t. holds_text t book.seen) named

  suppress-Goes : Goes first second start n (suppressed book) (suppress engine clock row db)
  unfolding suppress audit
  suppress-Goes = record {
    rules = keeps.rules;
    alike = keeps.alike;
    hit = keeps.hit;
    live = keeps.live;
    incidents = keeps.incidents;
    events = keeps.events;
    suppressions = rw keeps.suppressions refl;
    details = keeps.details;
    waiting = keeps.waiting;
    ids = keeps.ids;
  }

  abbrev opened_in : AutomationRule → Database
  opened_in rule = record db {
    incidents = incident_row engine clock asset rule row db ∷ db.incidents;
  }

  -- The book after the incident, with no action yet.
  opened-KeepsBook :
      (rule : AutomationRule)
      → KeepsBook first second start n (with_incident event book.modes book) (opened_in rule)
  opened-KeepsBook rule = record {
    rules = keeps.rules;
    alike = keeps.alike;
    hit =
        subst (λ t. All (HitAlike (opened_in rule) (t ∷ book.seen)) db.assets) named
          (hit-cons db book.seen asset (incident_row engine clock asset rule row db) db.assets refl
            alike keeps.hit);
    live = ((refl, late), keeps.live);
    incidents = rw keeps.incidents refl;
    events = keeps.events;
    suppressions = keeps.suppressions;
    details = keeps.details;
    waiting = keeps.waiting;
    ids = keeps.ids;
  }

  -- An entry of the log that is no suppression.
  logged-KeepsBook :
      (entry : AuditLog) (later : Book) (d : Database)
      → is_suppression entry ≡ false
      → KeepsBook first second start n later d
      → KeepsBook first second start n later (record d { audit_logs = entry ∷ d.audit_logs })
  logged-KeepsBook entry later d other kept = record {
    rules = kept.rules;
    alike = kept.alike;
    hit = kept.hit;
    live = kept.live;
    incidents = kept.incidents;
    events = kept.events;
    suppressions = rw other kept.suppressions;
    details = kept.details;
    waiting = kept.waiting;
    ids = kept.ids;
  }

  announce-Goes :
      (incident : Incident) (action : Option Action) (later : Book) (d : Database)
      → KeepsBook first second start n later d
      → Goes first second start n later (announce engine clock row incident action d)
  unfolding announce audit
  announce-Goes incident action later d kept = logged-KeepsBook _ later d refl kept

  queued-KeepsBook :
      (rule : AutomationRule) (incident : Incident) (later : Book) (d : Database)
      → KeepsBook first second start n later d
      → KeepsBook first second start n
          (record later { modes = event.executor_mode ∷ later.modes })
          (queue_action engine clock (to_python_payload event) rule incident d).1
  unfolding queue_action
  queued-KeepsBook rule incident later d kept = record {
    rules = kept.rules;
    alike = kept.alike;
    hit = kept.hit;
    live = kept.live;
    incidents = kept.incidents;
    events = kept.events;
    suppressions = kept.suppressions;
    details = rw kept.details refl;
    waiting = ((refl, refl), kept.waiting);
    ids = (fresh_id engine laws (λ a. a.id) d.actions, kept.ids);
  }

  -- A warning opens an incident with no action; a critical event queues one where there is room.
  warning-Goes :
      holds_text event.asset_id book.seen ≡ false
      → Goes first second start n (with_incident event book.modes book) (
          settle engine clock max_queue_backlog
            (to_python_payload event)
            asset
            row
            (some (warning_rule second))
            db)
  unfolding settle escalate open_incident act
  warning-Goes calm =
      rw (in_cooldown_lem, calm)
        (announce-Goes (incident_row engine clock asset (warning_rule second) row db) none _ _
          (opened-KeepsBook (warning_rule second)))

  critical-Goes :
      holds_text event.asset_id book.seen ≡ false
      → suc (length book.modes) ≤ max_queue_backlog
      → Goes first second start n (with_incident event (event.executor_mode ∷ book.modes) book) (
          settle engine clock max_queue_backlog
            (to_python_payload event)
            asset
            row
            (some (critical_rule first))
            db)
  unfolding settle escalate open_incident act enqueue
  critical-Goes calm room =
      let backlog : queue_backlog db ≡ length book.modes =
        backlog_lem db.actions keeps.waiting
        ∙ sym (length-map (λ a. a.detail) db.actions)
        ∙ ap length keeps.details in
      let full : leb max_queue_backlog (queue_backlog db) ≡ false = ground (arith, backlog) in
      let incident = incident_row engine clock asset (critical_rule first) row db in
      rw (in_cooldown_lem, calm, full)
        (announce-Goes incident
          (some (
            action_row engine clock (to_python_payload event) (critical_rule first) incident
              (opened_in (critical_rule first))))
          _ _
          (queued-KeepsBook (critical_rule first) incident _ _
            (opened-KeepsBook (critical_rule first))))

  -- The rest of an event that is recorded, by its rule.
  pub settle-Goes :
      length (book_event event book).modes ≤ max_queue_backlog
      → Goes first second start n (book_event event book) (
          settle engine clock max_queue_backlog
            (to_python_payload event)
            asset
            row
            (rule_for first second event.category event.severity)
            db)
  unfolding settle book_event leave_unmatched audit
  settle-Goes room = elim (Bool-cases (is_critical event)) [
    | inl critical ↦ elim (Bool-cases (holds_text event.asset_id book.seen)) [
      | inl seen ↦ rw (critical, seen) (rw (in_cooldown_lem, seen) suppress-Goes)
      | inr calm ↦ rw (critical, calm) (critical-Goes calm (rw (critical, calm) at room))
    ]
    | inr quiet ↦ elim (Bool-cases (is_warning event)) [
      | inl warning ↦ elim (Bool-cases (holds_text event.asset_id book.seen)) [
        | inl seen ↦ rw (quiet, warning, seen) (rw (in_cooldown_lem, seen) suppress-Goes)
        | inr calm ↦ rw (quiet, warning, calm) (warning-Goes calm)
      ]
      | inr none_fits ↦ rw (quiet, none_fits) (logged-KeepsBook _ book db refl keeps)
    ]
  ]
