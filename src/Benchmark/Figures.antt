-- ===== src/Benchmark/Figures.antt =====
-- The figures of a run of benchmarks/run_python_vs_dotnet.py, from its book.
use native.Mathlib.Nat.{ℕ_set}
use support_operations_intel.Contract.{run_queued}
use mathlib.Core.Path.{subst}
use support_operations_intel.Models.Engine.{IsEngine, Clock, Engine}
use support_operations_intel.Benchmark.{benchmark_policy, run_actions, python_metrics}
use mathlib.Core.List.{Perm}
use support_operations_intel.Workload.{ExpectedCounters}
use support_operations_intel.Models.Database.{raised, Result, ok, Database}
use support_operations_intel.Benchmark.Book.{Book}
use support_operations_intel.Models.Tables.{Action}
use support_operations_intel.Models.States.{is_failed, is_succeeded, is_queued, ActionState}
use support_operations_intel.Prelude.{
  none, All-Stored, Option, All-perm, same_id, some, Distinct-perm, suc, true, sym, ◌-◌, contains,
  ◌&&◌, refl, [], sum_of-perm, ap, ◌∙◌, arith, not, map, length, ◌∷◌, select, ◌≡◌, to_ℕ, All, count,
  sum_of, ℕ, Bool, String, List,
}
use mathlib.Core.List.Perm
use support_operations_intel.Worker.Drained.{Action-set}
use support_operations_intel.Benchmark.Acts.{Ran}
use support_operations_intel.Benchmark.Tries.{key, is_permanent, fails_once}
use support_operations_intel.Benchmark.Books.{length-map, KeepsBook}
use support_operations_intel.Benchmark.Batch.{IsNew, Foretells, RanAll, RunsAll, run_queued-RunsAll}

-- What the figures of a book are, once its actions have ended.
abbrev pub book_counters : ℕ → Book → ExpectedCounters
book_counters n book = record {
  events = n;
  incidents = book.incidents;
  actions = length book.modes;
  cooldown_suppressions = book.suppressions;
  succeeded_actions = count (λ mode. not (is_permanent mode)) book.modes;
  failed_actions = count is_permanent book.modes;
  retry_attempts = count fails_once book.modes;
  permanent_failures = count is_permanent book.modes;
  errors = 0;
}

count-sum_of :
    {A : Type 0} → (p : A → Bool) (xs : List A) → count p xs ≡ sum_of (λ x. to_ℕ (p x)) xs
count-sum_of p [] = refl
count-sum_of p (x ∷ xs) = ground (arith, count-sum_of p xs)

sum_of-details :
    (q : String → Bool) (actions : List Action)
    → sum_of (λ a. to_ℕ (q a.detail)) actions ≡ count q (map (λ a. a.detail) actions)
sum_of-details q [] = refl
sum_of-details q (a ∷ actions) = ground (arith, sum_of-details q actions)

select_new :
    (actions : List Action) → All IsNew actions → select (λ a. is_queued a.state) actions ≡ actions
select_new [] all = refl
select_new (a ∷ actions) ((state, attempts), all) =
    let first : is_queued a.state ≡ true = ap is_queued state in
    rw first (ap (λ rest. a ∷ rest) (select_new actions all))

ActionState-set : IsSet ActionState
ActionState-set = hlevel

module _ (first second start n : ℕ) (book : Book) (db db' : Database) (actions : List Action)
    (keeps : KeepsBook first second start n book db) (perm : Perm actions db.actions)
    (ran : RanAll actions db db') where
  -- A figure that the modes foretell.
  foretold :
      (f : Action → ℕ) (q : String → Bool)
      → Foretells f (λ a. to_ℕ (q a.detail))
      → sum_of f db'.actions ≡ count q book.modes
  foretold f q foretells =
      let v = λ (a : Action). to_ℕ (q a.detail) in
      let sums = ran.sums f v foretells in
      let modes : sum_of v db.actions ≡ count q book.modes =
        sum_of-details q db.actions ∙ ap (count q) keeps.details in
      omega (arith, sums, sum_of-perm f perm, sum_of-perm v perm, modes)

  counted_as :
      (p : Action → Bool) (q : String → Bool)
      → ((a a' : Action) (d d' : Database) → Ran a a' d d' → p a' ≡ q a.detail)
      → count p db'.actions ≡ count q book.modes
  counted_as p q same =
      count-sum_of p db'.actions
      ∙ foretold (λ a. to_ℕ (p a)) q (λ a a' d d' r. ap to_ℕ (same a a' d d' r))

  python_metrics_lem : python_metrics 0 db' ≡ book_counters n book
  python_metrics_lem =
      rw
        (
          ran.incidents,
          ran.events,
          ran.suppressions,
          ran.number,
          keeps.incidents,
          keeps.events,
          keeps.suppressions,
          counted_as (λ a. is_succeeded a.state) (λ m. not (is_permanent m))
              (λ a a' d d' r. r.succeeds),
          counted_as (λ a. is_failed a.state) is_permanent (λ a a' d d' r. r.fails),
          counted_as (λ a. is_failed a.state && contains "permanent" a.detail) is_permanent
              (λ a a' d d' r. r.detail),
          foretold (λ a. a.attempts - 1) fails_once (λ a a' d d' r. r.attempts),
          sym (length-map (λ a. a.detail) db.actions) ∙ ap length keeps.details,
        )
        refl

module _ (engine : Engine) (fuel : ℕ) (clock : Clock) (laws : IsEngine engine)
    (first second start n : ℕ) (book : Book) (db : Database)
    (keeps : KeepsBook first second start n book db) where
  queued_actions : List Action
  queued_actions = engine.order_by Action (λ a b. true) (select (λ a. is_queued a.state) db.actions)

  queued-perm : Perm queued_actions db.actions
  unfolding queued_actions
  queued-perm =
      subst (λ rows. Perm queued_actions rows) (select_new db.actions keeps.waiting)
        (laws.order_by-perm Action (λ a b. true) (select (λ a. is_queued a.state) db.actions))

  queued-RunsAll :
      RunsAll queued_actions db
        (run_queued engine benchmark_policy (suc (suc (suc fuel))) clock queued_actions db)
  queued-RunsAll =
      run_queued-RunsAll engine fuel clock queued_actions db keeps.ids
        (Distinct-perm (same_id key) (λ x y. ground arith) (Perm.symm queued-perm) keeps.ids)
        (All-perm _ (λ a. hlevel Action-set) queued-perm (All-Stored key db.actions keeps.ids))
        (All-perm _ (λ a. hlevel (ActionState-set, ℕ_set)) queued-perm keeps.waiting)

  -- The run of the actions ends, with the figures of the book.
  pub run_actions_lem :
      run_actions engine (suc (suc (suc fuel))) clock (0, db) ≡ some (ok (book_counters n book))
  unfolding run_actions queued_actions
  run_actions_lem =
      ends (run_queued engine benchmark_policy (suc (suc (suc fuel))) clock queued_actions db)
        queued-RunsAll
    where
      ends :
          (out : Option (Result (Unit {0}) × Database))
          → RunsAll queued_actions db out
          → (elim out [
            | none ↦ none
            | some (raised e, db') ↦ some (raised e)
            | some (ok _, db') ↦ some (ok (python_metrics 0 db'))
          ])
            ≡ some (ok (book_counters n book))
      ends none h = absurd h
      ends (some (raised e, db')) h = absurd h
      ends (some (ok _, db')) h =
          ap (λ c. some (ok c))
            (python_metrics_lem first second start n book db db' queued_actions keeps queued-perm h)
