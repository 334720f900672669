-- ===== src/Jobs.antt =====
-- services/jobs.py: the health sweep. The scheduler that calls it every five minutes is APScheduler.
pub mod Sweep
use support_operations_intel.Models.States.{queued, is_opened}
use support_operations_intel.Models.Database.{◌>>◌, modify, gets, pure, ◌>>=◌, Session, Database}
use support_operations_intel.Models.Tables.{Action, JobRun, Incident}
use support_operations_intel.Models.Engine.{after_reads, Clock, Engine}
use support_operations_intel.Prelude.{
  true, String, some, none, suc, ◌*◌, [], ◌-◌, str, f_string, select, leb, ◌∷◌, map, ◌&&◌, List,
  Bool, ℕ,
}
use support_operations_intel.Processor.{minute}

-- `Action(…)` with the defaults of its columns
abbrev pub follow_up_row : Engine → ℕ → ℕ → Incident → Database → Action
follow_up_row engine now stale_minutes incident db = record {
  id = engine.next_id (map (λ a. a.id) db.actions);
  incident_id = incident.id;
  action_type = "follow_up";
  state = queued;
  attempts = 0;
  detail =
      f_string
        ("health sweep found incident open for at least " ∷ str stale_minutes ∷ " minutes" ∷ []);
  next_attempt_at = none;
  lease_id = none;
  leased_at = none;
  created_at = now;
  updated_at = now;
}

-- The `where` clauses: the incident is open, and as old as the threshold.
unfoldable pub is_stale : ℕ → Incident → Bool
is_stale threshold incident = is_opened incident.state && leb incident.created_at threshold

-- The `for` loop, with `actions_created`.
unfoldable pub sweep_each : Engine → Clock → ℕ → List Incident → ℕ → Session ℕ
sweep_each engine clock stale_minutes [] actions_created = pure actions_created
sweep_each engine clock stale_minutes (incident ∷ rest) actions_created =
    modify (λ db. record db {
      actions = follow_up_row engine (clock 0) stale_minutes incident db ∷ db.actions;
    })
    >>= λ _. sweep_each engine (after_reads clock 1) stale_minutes rest (suc actions_created)

abbrev pub job_row : Engine → Clock → ℕ → Database → JobRun
job_row engine clock actions_created db = record {
  id = engine.next_id (map (λ j. j.id) db.job_runs);
  name = "health_sweep";
  status = "succeeded";
  detail = f_string ("actions_created=" ∷ str actions_created ∷ []);
  started_at = clock 1;
  finished_at = some (clock 2);
}

-- `run_health_sweep`
unfoldable pub run_health_sweep : Engine → Clock → ℕ → Session ℕ
unfolding is_stale sweep_each
run_health_sweep engine clock stale_minutes = do
  incidents ← gets (λ db. select (is_stale (clock 0 - stale_minutes * minute)) db.incidents)
  actions_created ← sweep_each engine (after_reads clock 3) stale_minutes incidents 0
  modify (λ db. record db { job_runs = job_row engine clock actions_created db ∷ db.job_runs })
  pure actions_created

-- What `add_job` is given, beside the job itself.
pub record ScheduledJob : Type 0 where
  pub trigger : String
  pub minutes : ℕ
  pub id : String
  pub replace_existing : Bool

-- `build_scheduler`
abbrev pub build_scheduler : List ScheduledJob
build_scheduler =
    record { trigger = "interval"; minutes = 5; id = "health_sweep"; replace_existing = true } ∷ []
