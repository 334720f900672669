-- ===== src/Benchmark/Tries.antt =====
-- One attempt on a queued action of benchmarks/run_python_vs_dotnet.py, by its mode.
use support_operations_intel.Actions.Attempts.{conclude-Attempted, Attempted}
use support_operations_intel.Benchmark.Books.{is_suppression}
use support_operations_intel.Models.Inserts.{audit}
use support_operations_intel.Benchmark.{benchmark_policy}
use support_operations_intel.Models.States.{
  retry, is_processed, is_finished, is_failed, is_succeeded,
}
use support_operations_intel.Models.Database.{ok, raised, Result, Database}
use support_operations_intel.Prelude.{
  ap, [], refl, ◌∷◌, f_string, inr, inl, ◌+◌, leb, Bool-cases, false, if◌then◌else◌, none, suc,
  true, some, count, ◌||◌, saved, ◌&&◌, not, ◌≡◌, contains, ℕ, Bool, String,
}
use support_operations_intel.Models.Engine.{after_reads, Clock, Engine}
use support_operations_intel.Models.Tables.{Action}
use support_operations_intel.Actions.{
  Policy, count_attempt, retry_loop, execute_action_once, attempt, finish, conclude, save,
  default_transport,
}

abbrev pub is_permanent : String → Bool
is_permanent mode = contains "permanent_failure" mode

-- Fails at its first attempt only.
abbrev pub fails_once : String → Bool
fails_once mode =
    not (is_permanent mode) && (contains "fail_once" mode || contains "transient_then_success" mode)

abbrev pub key : Action → ℕ
key a = a.id

module _ (engine : Engine) (policy : Policy) (fuel : ℕ) (clock : Clock) (action : Action)
    (db : Database) where
  pub loop_end :
      is_processed action.state ≡ true
      → retry_loop engine policy (suc fuel) clock action db ≡ some (ok action, db)
  unfolding retry_loop
  loop_end done = rw (done, retry_loop) refl

  pub loop_step :
      (action' : Action) (db' : Database)
      → is_processed action.state ≡ false
      → execute_action_once engine policy clock none action db ≡ (ok action', db')
      → retry_loop engine policy (suc fuel) clock action db
        ≡ retry_loop engine policy fuel (after_reads clock 2) action' db'
  unfolding retry_loop
  loop_step action' db' open_ e =
      rw (open_, retry_loop)
        (ap
          (λ (out : Result Action × Database). elim out.0 [
            | raised e ↦ some (raised e, out.1)
            | ok a ↦ retry_loop engine policy fuel (after_reads clock 2) a out.1
          ])
          e)

module _ (engine : Engine) (clock : Clock) (action : Action) (db : Database) where
  -- The action after an attempt with an outcome, and the tables.
  abbrev pub after : Bool × String → Action
  after (success, detail) = conclude 3 0 (clock 0) (count_attempt action) success detail

  abbrev pub wrote : Bool × String → Database
  wrote outcome =
      (finish engine benchmark_policy (clock 0) (clock 1) (count_attempt action) outcome db).1

  pub record Wrote (outcome : Bool × String) : Type 0 where
    pub rows : (wrote outcome).actions ≡ saved key (after outcome) db.actions
    pub incidents : (wrote outcome).incidents ≡ db.incidents
    pub events : (wrote outcome).operational_events ≡ db.operational_events
    pub suppressions :
        count is_suppression (wrote outcome).audit_logs ≡ count is_suppression db.audit_logs

  pub attempt-Wrote : (outcome : Bool × String) → Wrote outcome
  unfolding finish save audit
  attempt-Wrote outcome = record {
    rows = refl;
    incidents = refl;
    events = refl;
    suppressions = refl;
  }

  abbrev pub answer : Bool × String
  answer =
      if is_permanent action.detail
      then (false, "synthetic permanent failure")
      else if (contains "fail_once" action.detail
            || contains "transient_then_success" action.detail)
          && leb (action.attempts + 1) 1
      then (false, "synthetic transient failure")
      else (true, f_string ("synthetic " ∷ action.action_type ∷ " completed" ∷ []))

  pub once_lem :
      is_finished action.state ≡ false
      → execute_action_once engine benchmark_policy clock none action db
        ≡ (ok (after answer), wrote answer)
  unfolding execute_action_once attempt default_transport finish
  once_lem open_ = rw open_ (elim (Bool-cases (is_permanent action.detail)) [
    | inl e ↦ rw e refl
    | inr e ↦
        elim (Bool-cases (
          (contains "fail_once" action.detail || contains "transient_then_success" action.detail)
          && leb (action.attempts + 1) 1)) [ inl t ↦ rw (e, t) refl | inr t ↦ rw (e, t) refl ]
  ])

-- How an action of a mode ends.
pub record Ended (mode : String) (a : Action) : Type 0 where
  pub processed : is_processed a.state ≡ true
  pub succeeds : is_succeeded a.state ≡ not (is_permanent mode)
  pub fails : is_failed a.state ≡ is_permanent mode
  pub detail : (is_failed a.state && contains "permanent" a.detail) ≡ is_permanent mode

module _ (engine : Engine) (clock : Clock) (action : Action) (db : Database) where
  abbrev pub first : Action
  first = after engine clock action db (answer engine clock action db)

  abbrev pub ran : Database
  ran = wrote engine clock action db (answer engine clock action db)

  pub counted_first : Attempted benchmark_policy (clock 0) action first
  counted_first =
      let (success, detail) = answer engine clock action db in
      conclude-Attempted benchmark_policy (clock 0) action success detail

  pub permanent-Ended : is_permanent action.detail ≡ true → Ended action.detail first
  unfolding conclude
  permanent-Ended e = record {
    processed = rw e refl;
    succeeds = rw e refl;
    fails = rw e refl;
    detail = rw e refl;
  }

  pub success-Ended :
      is_permanent action.detail ≡ false
      → ((contains "fail_once" action.detail || contains "transient_then_success" action.detail)
          && leb (action.attempts + 1) 1)
        ≡ false
      → Ended action.detail first
  unfolding conclude
  success-Ended e t = record {
    processed = rw (e, t) refl;
    succeeds = rw (e, t) refl;
    fails = rw (e, t) refl;
    detail = rw (e, t) refl;
  }

  -- The first attempt of a mode that fails once.
  pub first_retry :
      is_permanent action.detail ≡ false
      → ((contains "fail_once" action.detail || contains "transient_then_success" action.detail)
          && leb (action.attempts + 1) 1)
        ≡ true
      → action.attempts ≡ 0
      → (first.state ≡ retry) × (first.detail ≡ action.detail)
  unfolding conclude
  first_retry e t new = (rw (e, t, new) refl, rw (e, t, new) refl)
