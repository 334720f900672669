-- ===== src/Jobs/Sweep.antt =====
-- What a sweep adds.
use support_operations_intel.Processor.{queue_backlog, minute}
use support_operations_intel.Models.States.{queued, is_waiting}
use support_operations_intel.Models.Tables.{Incident, Action}
use support_operations_intel.Models.Database.{
  pure, ◌>>◌, modify, and_then, raised, ok, Result, Database,
}
use support_operations_intel.Models.Engine.{after_reads, Clock, Engine}
use support_operations_intel.Jobs.{job_row, follow_up_row, is_stale, run_health_sweep, sweep_each}
use support_operations_intel.Prelude.{
  ap, length-select, refl, [], ◌∷◌, ◌∷◌, select, suc, arith, length, count, true, ◌+◌, ◌*◌, ◌≡◌,
  List, ◌-◌, ℕ,
}

-- A new action for each incident, in their order, on top of the rows that were there: queued, of no
-- attempt, and of that incident.
abbrev pub Follows : List Incident → List Action → List Action → Type 0
Follows [] rows rows' = rows' ≡ rows
Follows (incident ∷ rest) rows rows' =
    (a : Action) × (a.incident_id ≡ incident.id)
    × (a.action_type ≡ "follow_up")
    × (a.state ≡ queued)
    × (a.attempts ≡ 0)
    × Follows rest (a ∷ rows) rows'

-- From a count, an action that waits for each incident.
abbrev Swept : ℕ → List Incident → Database → Result ℕ × Database → Type 0
Swept from incidents db (ok total, db') =
    (total ≡ from + length incidents)
    × (queue_backlog db' ≡ queue_backlog db + length incidents)
    × (length db'.actions ≡ length db.actions + length incidents)
    × (db'.incidents ≡ db.incidents)
    × (db'.audit_logs ≡ db.audit_logs)
    × (db'.job_runs ≡ db.job_runs)
    × Follows incidents db.actions db'.actions
Swept from incidents db (raised e, db') = ⊥

module _ (engine : Engine) (now stale_minutes : ℕ) where
  Swept-later :
      (from : ℕ) (incident : Incident) (rest : List Incident) (db : Database)
      (out : Result ℕ × Database)
      → let row = follow_up_row engine now stale_minutes incident db in
        Swept (suc from) rest (record db { actions = row ∷ db.actions }) out
        → Swept from (incident ∷ rest) db out
  Swept-later from incident rest db (ok total, db') h =
      let row = follow_up_row engine now stale_minutes incident db in
      let waits : is_waiting row.state ≡ true = refl in
      let grown : queue_backlog (record db { actions = row ∷ db.actions }) ≡ queue_backlog db + 1 =
        ground (arith, waits) in
      (
        omega (arith, h.0),
        omega (arith, h.1, grown),
        omega (arith, h.2),
        h.3,
        h.4,
        h.5,
        (row, refl, refl, refl, refl, h.6),
      )
  Swept-later from incident rest db (raised e, db') h = h

sweep_each-Swept :
    (engine : Engine) (clock : Clock) (stale_minutes : ℕ) (incidents : List Incident) (from : ℕ)
    (db : Database)
    → Swept from incidents db (sweep_each engine clock stale_minutes incidents from db)
unfolding sweep_each
sweep_each-Swept engine clock stale_minutes [] from db =
    (omega arith, omega arith, omega arith, refl, refl, refl, refl)
sweep_each-Swept engine clock stale_minutes (incident ∷ rest) from db =
    Swept-later engine (clock 0) stale_minutes from incident rest db _ (
      sweep_each-Swept engine (after_reads clock 1) stale_minutes rest (suc from) (record db {
        actions = follow_up_row engine (clock 0) stale_minutes incident db ∷ db.actions;
      }))

-- What a call of the sweep leaves.
abbrev pub Sweeps : ℕ → Database → Result ℕ × Database → Type 0
Sweeps threshold db (ok n, db') =
    (n ≡ count (is_stale threshold) db.incidents)
    × (queue_backlog db' ≡ queue_backlog db + n)
    × (length db'.actions ≡ length db.actions + n)
    × (length db'.job_runs ≡ suc (length db.job_runs))
    × (db'.incidents ≡ db.incidents)
    × (db'.audit_logs ≡ db.audit_logs)
    × Follows (select (is_stale threshold) db.incidents) db.actions db'.actions
Sweeps threshold db (raised e, db') = ⊥

-- The sweep never raises. It queues one action for each open incident as old as the threshold, in
-- their order and pointing to it, of the type follow_up and with no attempt made, whatever the
-- backlog; it keeps the actions that were there, returns the number of the new ones, and writes one
-- job run and nothing to the log.
pub run_health_sweep-Sweeps :
    (engine : Engine) (clock : Clock) (stale_minutes : ℕ) (db : Database)
    → Sweeps (clock 0 - stale_minutes * minute) db (run_health_sweep engine clock stale_minutes db)
unfolding run_health_sweep
run_health_sweep-Sweeps engine clock stale_minutes db =
    let incidents = select (is_stale (clock 0 - stale_minutes * minute)) db.incidents in
    recorded (sweep_each engine (after_reads clock 3) stale_minutes incidents 0 db)
      (sweep_each-Swept engine (after_reads clock 3) stale_minutes incidents 0 db)
  where
    recorded :
        (out : Result ℕ × Database)
        → Swept 0 (select (is_stale (clock 0 - stale_minutes * minute)) db.incidents) db out
        → Sweeps (clock 0 - stale_minutes * minute) db (
            and_then out.0
              (λ n.
                modify (λ d. record d { job_runs = job_row engine clock n d ∷ d.job_runs })
                >> pure n)
              out.1)
    recorded (ok n, db') h =
        let exact = length-select (is_stale (clock 0 - stale_minutes * minute)) db.incidents in
        (
          omega (arith, h.0, exact),
          omega (arith, h.0, h.1),
          omega (arith, h.0, h.2),
          ap (λ l. suc (length l)) h.5,
          h.3,
          h.4,
          h.6,
        )
    recorded (raised e, db') h = h
