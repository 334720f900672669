-- ===== src/Integrity/Work.antt =====
-- The writes of services/actions.py and services/jobs.py.
use support_operations_intel.Api.Gauges.{is_skipped}
use support_operations_intel.Integrity.Rows.{ActionFits}
use support_operations_intel.Integrity.Events.{fresh_id}
use support_operations_intel.Processor.{minute}
use support_operations_intel.Jobs.{follow_up_row, is_stale, sweep_each, run_health_sweep}
use support_operations_intel.Actions.Attempts.{conclude-Attempted}
use mathlib.Core.Bool.{Bool-set}
use support_operations_intel.Models.States.{
  ActionState, skipped, queued, retry, succeeded, is_processed,
}
use support_operations_intel.Models.States.{is_finished}
use support_operations_intel.Integrity.{
  adds_job, adds_action, has_incident, Writes-and_then, logs, then_write, saves_action, one_write,
  Writes-trans, unchanged, Writes, ActionLinks,
}
use support_operations_intel.Models.Tables.{Incident, Action}
use support_operations_intel.Models.Database.{Database}
use support_operations_intel.Worker.{
  by_due, tally, is_due, leased, Summary, due_actions, work, process_due_actions,
}
use support_operations_intel.Actions.{
  crashed, action_timed_out, timed_out, returned, conclude, Attempt, attempt, finish, count_attempt,
  save, execute_action_once, Policy,
}
use support_operations_intel.Models.Engine.{after_reads, or_now, IsEngine, Clock, Engine}
use support_operations_intel.Integrity.Keeps.{Writes-Keeps}
use support_operations_intel.Prelude.{
  sym, false, refl, suc, arith, ◌==◌, any_of_mem, All-of_mem, true, ◌≡◌, ◌*◌, Bool, All-select_of,
  [], All-imp, All-perm, All-take, some, inr, ◌-◌, inl, ◌∷◌, ltb, select, Bool-cases, All, List,
  String, Option, ℕ,
}

is_skipped_of_processed : (s : ActionState) → is_processed s ≡ true → is_skipped s ≡ false
is_skipped_of_processed skipped h = sym h
is_skipped_of_processed queued h = refl
is_skipped_of_processed retry h = refl
is_skipped_of_processed succeeded h = refl
is_skipped_of_processed ActionState.failed h = refl

module _ (engine : Engine) (policy : Policy) (laws : IsEngine engine) where
  finish-Writes :
      (now written : ℕ) (action : Action) (outcome : Bool × String) (db : Database)
      → ActionLinks db action
      → ActionFits action
      → Writes db (finish engine policy now written (count_attempt action) outcome db).1
  unfolding finish
  finish-Writes now written action (success, detail) db linked live =
      let after =
        conclude policy.max_attempts policy.retry_delay_seconds now (count_attempt action) success
          detail in
      let tried = conclude-Attempted policy now action success detail in
      then_write
        (one_write (
          saves_action {db = db} after (rw tried.same_incident linked) (elim tried.ended [
            | inl done ↦ is_skipped_of_processed after.state done
            | inr again ↦ rw again refl
          ])))
        (logs _ (fresh_id engine laws (λ l. l.id) _))

  attempt-Writes :
      (now written : ℕ) (action : Action) (answer : Attempt) (db : Database)
      → ActionLinks db action
      → ActionFits action
      → Writes db (attempt engine policy now written (count_attempt action) answer db).1
  unfolding attempt
  attempt-Writes now written action (returned result) db linked live =
      finish-Writes now written action (result.success, result.detail) db linked live
  attempt-Writes now written action (timed_out message) db linked live =
      finish-Writes now written action _ db linked live
  attempt-Writes now written action (action_timed_out message) db linked live =
      finish-Writes now written action _ db linked live
  attempt-Writes now written action (crashed message) db linked live =
      one_write (saves_action {db = db} (count_attempt action) linked live)

  pub execute_action_once-Writes :
      (clock : Clock) (now : Option ℕ) (action : Action) (db : Database)
      → ActionLinks db action
      → ActionFits action
      → Writes db (execute_action_once engine policy clock now action db).1
  unfolding execute_action_once
  execute_action_once-Writes clock now action db linked live =
      elim (Bool-cases (ltb policy.max_attempts 1)) [
        | inl none_left ↦ rw none_left unchanged
        | inr some_left ↦ elim (Bool-cases (is_finished action.state)) [
          | inl finished ↦ rw (some_left, finished) unchanged
          | inr open_ ↦
              rw (some_left, open_)
                (attempt-Writes (or_now now (clock 0)) (clock 1) action
                  (policy.transport (count_attempt action) policy.timeout_seconds) db linked live)
        ]
      ]

  work-Writes :
      (now : ℕ) (lease_id : String) (clock : Clock) (due : List Action) (totals : Summary)
      (db : Database)
      → All (ActionLinks db) due
      → All ActionFits due
      → Writes db (work engine policy now lease_id clock due totals db).1
  unfolding work save
  work-Writes now lease_id clock [] totals db linked live = unchanged
  work-Writes now lease_id clock (action ∷ rest) totals db (first, others) (lives, all_live) =
      let held = leased engine policy lease_id now action in
      let d = (save held db).1 in
      let saved = one_write (saves_action {db = db} held first lives) in
      let step = execute_action_once engine policy clock (some now) held d in
      let made : Writes db step.1 = Writes-trans saved (
        execute_action_once-Writes clock (some now) held d
          ((Writes-Keeps saved).3 held.incident_id first) lives) in
      Writes-and_then db step
        (λ a. work engine policy now lease_id (after_reads clock 2) rest (tally a.state totals))
        made
        (λ a.
          work-Writes now lease_id (after_reads clock 2) rest (tally a.state totals) step.1
            (All-imp _ _ rest (λ b. (Writes-Keeps made).3 b.incident_id) others) all_live)

  pub process_due_actions-Writes :
      (limit lease_seconds : ℕ) (clock : Clock) (given : Option ℕ) (db : Database)
      → All (ActionLinks db) db.actions
      → All ActionFits db.actions
      → Writes db (process_due_actions engine policy limit lease_seconds clock given db).1
  unfolding process_due_actions due_actions
  process_due_actions-Writes limit lease_seconds clock given db linked live =
      let now = or_now given (clock 0) in
      let chosen = select (is_due now (now - lease_seconds)) db.actions in
      work-Writes now _ (after_reads clock 1) _ _ db
        (All-take _ limit _ (
          All-perm _ (λ a. Bool-set _ _) (laws.order_by-perm Action by_due chosen)
            (All-select_of _ _ db.actions linked)))
        (All-take _ limit _ (
          All-perm _ (λ a. Bool-set _ _) (laws.order_by-perm Action by_due chosen)
            (All-select_of _ _ db.actions live)))

module _ (engine : Engine) (laws : IsEngine engine) where
  sweep_each-Writes :
      (clock : Clock) (stale_minutes : ℕ) (incidents : List Incident) (n : ℕ) (db : Database)
      → All (λ i. has_incident db i.id ≡ true) incidents
      → Writes db (sweep_each engine clock stale_minutes incidents n db).1
  unfolding sweep_each
  sweep_each-Writes clock stale_minutes [] n db there = unchanged
  sweep_each-Writes clock stale_minutes (incident ∷ rest) n db (first, others) =
      let action = follow_up_row engine (clock 0) stale_minutes incident db in
      Writes-trans
        (one_write
          (adds_action {db = db} action (fresh_id engine laws (λ a. a.id) db.actions) first refl))
        (sweep_each-Writes (after_reads clock 1) stale_minutes rest (suc n)
          (record db { actions = action ∷ db.actions }) others)

  pub run_health_sweep-Writes :
      (clock : Clock) (stale_minutes : ℕ) (db : Database)
      → Writes db (run_health_sweep engine clock stale_minutes db).1
  unfolding run_health_sweep
  run_health_sweep-Writes clock stale_minutes db =
      let threshold = clock 0 - stale_minutes * minute in
      let incidents = select (is_stale threshold) db.incidents in
      Writes-and_then db (sweep_each engine (after_reads clock 3) stale_minutes incidents 0 db) _
        (sweep_each-Writes (after_reads clock 3) stale_minutes incidents 0 db (
          All-select_of _ _ db.incidents (
            All-of_mem _ db.incidents
              (λ i m. any_of_mem (λ x. x.id == i.id) db.incidents i m (ground arith)))))
        (λ n. one_write (adds_job _ (fresh_id engine laws (λ j. j.id) _)))
