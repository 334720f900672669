-- ===== src/Benchmark/Acts.antt =====
-- The queued actions of benchmarks/run_python_vs_dotnet.py, run by their modes.
use mathlib.Core.Path.{subst}
use support_operations_intel.Benchmark.Books.{is_suppression}
use support_operations_intel.Benchmark.{benchmark_policy}
use support_operations_intel.Models.States.{
  is_processed, is_finished, is_failed, is_succeeded, queued,
}
use support_operations_intel.Models.Database.{ok, raised, Result, Database}
use support_operations_intel.Prelude.{
  saved-saved, arith, ◌∙◌, sym, ap, refl, inr, inl, ◌+◌, leb, Bool-cases, false, to_ℕ, ◌-◌, none,
  suc, true, some, count, ◌||◌, saved, ◌&&◌, not, ◌≡◌, Option, contains, ℕ,
}
use support_operations_intel.Models.Engine.{after_reads, Clock, Engine}
use support_operations_intel.Models.Tables.{Action}
use support_operations_intel.Actions.{execute_action_with_retry, retry_loop}
use support_operations_intel.Benchmark.Tries.{
  answer, first, ran, Ended, key, is_permanent, fails_once, loop_end, loop_step, attempt-Wrote,
  once_lem, counted_first, permanent-Ended, success-Ended, first_retry,
}

-- What a run of a queued action leaves: the row with its end, and an unchanged rest.
pub record Ran (action action' : Action) (db db' : Database) : Type 0 where
  pub rows : db'.actions ≡ saved key action' db.actions
  pub same_id : action'.id ≡ action.id
  pub incidents : db'.incidents ≡ db.incidents
  pub events : db'.operational_events ≡ db.operational_events
  pub suppressions : count is_suppression db'.audit_logs ≡ count is_suppression db.audit_logs
  pub succeeds : is_succeeded action'.state ≡ not (is_permanent action.detail)
  pub fails : is_failed action'.state ≡ is_permanent action.detail
  pub detail :
      (is_failed action'.state && contains "permanent" action'.detail) ≡ is_permanent action.detail
  pub attempts : action'.attempts - 1 ≡ to_ℕ (fails_once action.detail)

abbrev pub Runs : Action → Database → Option (Result Action × Database) → Type 0
Runs action db none = ⊥
Runs action db (some (raised e, db')) = ⊥
Runs action db (some (ok action', db')) = Ran action action' db db'

module _ (engine : Engine) (fuel : ℕ) (clock : Clock) (action : Action) (db : Database) where
  -- An action that ends at this attempt.
  loop_ends :
      is_finished action.state ≡ false
      → is_processed action.state ≡ false
      → Ended action.detail (first engine clock action db)
      → retry_loop engine benchmark_policy (suc (suc fuel)) clock action db
        ≡ some (ok (first engine clock action db), ran engine clock action db)
  loop_ends open_ unprocessed done =
      loop_step engine benchmark_policy (suc fuel) clock action db (first engine clock action db)
        (ran engine clock action db) unprocessed (once_lem engine clock action db open_)
      ∙ loop_end engine benchmark_policy fuel (after_reads clock 2) (first engine clock action db)
          (ran engine clock action db) done.processed

module _ (engine : Engine) (fuel : ℕ) (clock : Clock) (action : Action) (db : Database) where
  Runs-once :
      action.state ≡ queued
      → action.attempts ≡ 0
      → fails_once action.detail ≡ false
      → Ended action.detail (first engine clock action db)
      → Runs action db (retry_loop engine benchmark_policy (suc (suc (suc fuel))) clock action db)
  Runs-once state new once done =
      let step = attempt-Wrote engine clock action db (answer engine clock action db) in
      let tried = counted_first engine clock action db in
      subst (Runs action db)
        (sym (loop_ends engine (suc fuel) clock action db (rw state refl) (rw state refl) done))
        (record {
          rows = step.rows;
          same_id = tried.same_id;
          incidents = step.incidents;
          events = step.events;
          suppressions = step.suppressions;
          succeeds = done.succeeds;
          fails = done.fails;
          detail = done.detail;
          attempts = rw (once, tried.counted, new) refl;
        })

  -- A mode that fails once: two attempts.
  Runs-twice :
      action.state ≡ queued
      → action.attempts ≡ 0
      → is_permanent action.detail ≡ false
      → (contains "fail_once" action.detail || contains "transient_then_success" action.detail)
        ≡ true
      → Runs action db (retry_loop engine benchmark_policy (suc (suc (suc fuel))) clock action db)
  Runs-twice state new lasting once =
      let again = first engine clock action db in
      let db' = ran engine clock action db in
      let later = after_reads clock 2 in
      let last = first engine later again db' in
      let step = attempt-Wrote engine clock action db (answer engine clock action db) in
      let step' = attempt-Wrote engine later again db' (answer engine later again db') in
      let tried = counted_first engine clock action db in
      let tried' = counted_first engine later again db' in
      let retried = first_retry engine clock action db lasting (rw (once, new) refl) new in
      let two : last.attempts - 1 ≡ 1 = omega (arith, tried'.counted, tried.counted, new) in
      let flag : to_ℕ (fails_once action.detail) ≡ 1 = rw (lasting, once) refl in
      let no_more : leb (again.attempts + 1) 1 ≡ false = rw (tried.counted, new) refl in
      let done : Ended again.detail last =
        success-Ended engine later again db' (rw (retried.1) lasting) (rw no_more (ground arith)) in
      subst (Runs action db)
        (sym (
          loop_step engine benchmark_policy (suc (suc fuel)) clock action db again db'
            (rw state refl) (once_lem engine clock action db (rw state refl))
          ∙ loop_ends engine fuel later again db' (rw (retried.0) refl) (rw (retried.0) refl) done))
        (record {
          rows =
              step'.rows
              ∙ ap (saved key last) step.rows
              ∙ saved-saved key again last db.actions (sym tried'.same_id);
          same_id = tried'.same_id ∙ tried.same_id;
          incidents = step'.incidents ∙ step.incidents;
          events = step'.events ∙ step.events;
          suppressions = step'.suppressions ∙ step.suppressions;
          succeeds = done.succeeds ∙ ap (λ m. not (is_permanent m)) retried.1;
          fails = done.fails ∙ ap is_permanent retried.1;
          detail = done.detail ∙ ap is_permanent retried.1;
          attempts = two ∙ sym flag;
        })

  -- A queued action ends, by its mode.
  pub execute_action_with_retry-Runs :
      action.state ≡ queued
      → action.attempts ≡ 0
      → Runs action db
          (execute_action_with_retry engine benchmark_policy (suc (suc (suc fuel))) clock action db)
  unfolding execute_action_with_retry
  execute_action_with_retry-Runs state new = elim (Bool-cases (is_permanent action.detail)) [
    | inl e ↦ Runs-once state new (rw e refl) (permanent-Ended engine clock action db e)
    | inr e ↦
        elim (Bool-cases
          (contains "fail_once" action.detail || contains "transient_then_success" action.detail)) [
            | inl t ↦ Runs-twice state new e t
            | inr t ↦
                Runs-once state new (rw (e, t) refl)
                  (success-Ended engine clock action db e (rw t refl))
          ]
  ]
