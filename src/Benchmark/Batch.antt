-- ===== src/Benchmark/Batch.antt =====
-- All queued actions of a run of benchmarks/run_python_vs_dotnet.py, one after the other.
use support_operations_intel.Actions.{execute_action_with_retry}
use support_operations_intel.Benchmark.{benchmark_policy}
use support_operations_intel.Benchmark.Books.{is_suppression}
use support_operations_intel.Contract.{run_queued}
use support_operations_intel.Models.States.{queued}
use support_operations_intel.Models.Database.{ok, raised, Result, Database}
use support_operations_intel.Models.Engine.{Clock, Engine}
use support_operations_intel.Models.Tables.{Action}
use support_operations_intel.Prelude.{
  sum_of-saved, refl, [], Stored-saved_other, length-update_where, ap, arith, ◌∙◌, ◌==◌, ◌+◌, none,
  sum_of, saved, some, ◌∷◌, suc, ◌∷◌, false, length, All, Stored, any, same_id, count, Distinct,
  Option, ℕ, ◌≡◌, List,
}
use support_operations_intel.Integrity.Sound.{Distinct-ids-update_where}
use support_operations_intel.Benchmark.Acts.{Ran, Runs, execute_action_with_retry-Runs}
use support_operations_intel.Benchmark.Tries.{key}

-- A figure of the actions that have ended is a figure of the queued ones.
abbrev pub Foretells : (Action → ℕ) → (Action → ℕ) → Type 0
Foretells f v = (a a' : Action) (d d' : Database) → Ran a a' d d' → f a' ≡ v a

pub record RanAll (actions : List Action) (db db' : Database) : Type 0 where
  pub incidents : db'.incidents ≡ db.incidents
  pub events : db'.operational_events ≡ db.operational_events
  pub suppressions : count is_suppression db'.audit_logs ≡ count is_suppression db.audit_logs
  pub number : length db'.actions ≡ length db.actions
  pub sums :
      (f v : Action → ℕ)
      → Foretells f v
      → sum_of f db'.actions + sum_of f actions ≡ sum_of f db.actions + sum_of v actions

abbrev pub RunsAll : List Action → Database → Option (Result (Unit {0}) × Database) → Type 0
RunsAll actions db none = ⊥
RunsAll actions db (some (raised e, db')) = ⊥
RunsAll actions db (some (ok _, db')) = RanAll actions db db'

abbrev pub IsNew : Action → Type 0
IsNew a = (a.state ≡ queued) × (a.attempts ≡ 0)

RanAll-cons :
    (action action' : Action) (rest : List Action) (db d db' : Database)
    → Distinct (same_id key) db.actions
    → Stored key db.actions action
    → Ran action action' db d
    → RanAll rest d db'
    → RanAll (action ∷ rest) db db'
RanAll-cons action action' rest db d db' distinct stored ran more = record {
  incidents = more.incidents ∙ ran.incidents;
  events = more.events ∙ ran.events;
  suppressions = more.suppressions ∙ ran.suppressions;
  number =
      more.number
      ∙ ap length ran.rows
      ∙ length-update_where (λ x. x.id == action'.id) (λ _. action') db.actions;
  sums = λ f v foretells.
      let one : sum_of f d.actions + f action ≡ sum_of f db.actions + f action' =
        ap (λ rows. sum_of f rows + f action) ran.rows
        ∙ sum_of-saved key f action action' db.actions distinct ran.same_id stored in
      omega (arith, one, more.sums f v foretells, foretells action action' db d ran);
}

module _ (engine : Engine) (fuel : ℕ) (clock : Clock) where
  abbrev several : List Action → Database → Option (Result (Unit {0}) × Database)
  several = run_queued engine benchmark_policy (suc (suc (suc fuel))) clock

  others-Stored :
      (action action' : Action) (rest : List Action) (rows : List Action)
      → action'.id ≡ action.id
      → any (same_id key action) rest ≡ false
      → All (Stored key rows) rest
      → All (Stored key (saved key action' rows)) rest
  others-Stored action action' [] rows same once stored = tt
  others-Stored action action' (b ∷ rest) rows same once (this, stored) =
      let other : (action'.id == b.id) ≡ false = ground arith in
      (
        Stored-saved_other key action' b rows other this,
        others-Stored action action' rest rows same (ground arith) stored,
      )

  pub run_queued-RunsAll :
      (actions : List Action) (db : Database)
      → Distinct (same_id key) db.actions
      → Distinct (same_id key) actions
      → All (Stored key db.actions) actions
      → All IsNew actions
      → RunsAll actions db (several actions db)
  unfolding run_queued
  run_queued-RunsAll [] db distinct once stored new = record {
    incidents = refl;
    events = refl;
    suppressions = refl;
    number = refl;
    sums = λ f v foretells. refl;
  }
  run_queued-RunsAll (action ∷ rest) db distinct (first, once) (this, stored)
        ((state, attempts), new) =
      goes
        (execute_action_with_retry engine benchmark_policy (suc (suc (suc fuel))) clock action db)
        (execute_action_with_retry-Runs engine fuel clock action db state attempts)
        (λ action' d ran.
          run_queued-RunsAll rest d
            (rw (ran.rows) (
              Distinct-ids-update_where key (λ x. x.id == action'.id) (λ _. action') db.actions
                (λ x e. ground arith) distinct))
            once
            (rw (ran.rows) (others-Stored action action' rest db.actions ran.same_id first stored))
            new)
    where
      goes :
          (out : Option (Result Action × Database))
          → Runs action db out
          → ((action' : Action) (d : Database)
              → Ran action action' db d
              → RunsAll rest d (several rest d))
          → RunsAll (action ∷ rest) db (elim out [
            | none ↦ none
            | some (raised e, d) ↦ some (raised e, d)
            | some (ok action', d) ↦ several rest d
          ])
      goes none h ih = absurd h
      goes (some (raised e, d)) h ih = absurd h
      goes (some (ok action', d)) ran ih = more (several rest d) (ih action' d ran)
        where
          more :
              (out : Option (Result (Unit {0}) × Database))
              → RunsAll rest d out
              → RunsAll (action ∷ rest) db out
          more none h = h
          more (some (raised e, db')) h = h
          more (some (ok _, db')) h = RanAll-cons action action' rest db d db' distinct this ran h
