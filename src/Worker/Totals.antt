-- ===== src/Worker/Totals.antt =====
-- What a run of the worker adds up to.
use mathlib.Core.Path.{subst}
use mathlib.Core.List.{Perm}
use support_operations_intel.Worker.Rows.{saved-AllMoved, AllMoved-trans, AllMoved, none-AllMoved}
use mathlib.Core.Bool.{Bool-set}
use support_operations_intel.Actions.Attempts.{execute_action_once-Attempts, Attempts}
use support_operations_intel.Models.Tables.{Action}
use support_operations_intel.Models.Database.{
  and_then, transport_error, invalid_max_attempts, raised, ok, Result, Database,
}
use support_operations_intel.Models.Engine.{or_now, after_reads, IsEngine, Clock, Engine}
use support_operations_intel.Models.States.{
  skipped, succeeded, queued, retry, is_waiting, is_processed, ActionState,
}
use support_operations_intel.Prelude.{
  zero, sym, ◌++◌, update_where, All-perm, All-take, length-select, count, length-perm, min,
  length-take, take, All-select, All-imp, select, ◌-◌, Option, refl, [], some, ◌∷◌, ◌==◌, ap, inr,
  inl, ◌∙◌, suc, ◌⊎◌, length, All, List, true, ◌≡◌, String, ◌+◌, ℕ, arith,
}
use support_operations_intel.Worker.{
  by_due, due_actions, process_due_actions, is_due, leased, work, tally, Summary,
}
use support_operations_intel.Actions.{execute_action_once, Policy, save}

abbrev pub ended_count : Summary → ℕ
ended_count t = t.succeeded + t.failed + t.retried

-- From the counters `before`, after the actions taken: each is counted as one of the three ends and
-- has an entry in the log, its row has ended its attempt, and all other rows are as they were.
abbrev pub Adds : Policy → List Action → Summary → Database → Result Summary × Database → Type 0
Adds policy taken before db (ok after, db') =
    (after.processed ≡ before.processed)
    × (ended_count after ≡ ended_count before + length taken)
    × AllMoved taken db.actions db'.actions
    × (length db'.audit_logs ≡ length db.audit_logs + length taken)
    × (db'.incidents ≡ db.incidents)
    × (db'.operational_events ≡ db.operational_events)
Adds policy taken before db (raised e, db') =
    (e ≡ invalid_max_attempts) × (policy.max_attempts ≡ 0)
    ⊎ (message : String) × (e ≡ transport_error message)

tally_one :
    (state : ActionState) (t : Summary)
    → (is_processed state ≡ true) ⊎ (state ≡ retry)
    → ended_count (tally state t) ≡ ended_count t + 1
tally_one queued t h = ground arith
tally_one retry t h = omega arith
tally_one succeeded t h = omega arith
tally_one ActionState.failed t h = omega arith
tally_one skipped t h = ground arith

Adds-later :
    (policy : Policy) (action : Action) (taken : List Action) (totals : Summary)
    (state : ActionState) (db d : Database) (out : Result Summary × Database)
    → (is_processed state ≡ true) ⊎ (state ≡ retry)
    → AllMoved (action ∷ []) db.actions d.actions
      × (length d.audit_logs ≡ suc (length db.audit_logs))
      × (d.incidents ≡ db.incidents)
      × (d.operational_events ≡ db.operational_events)
    → Adds policy taken (tally state totals) d out
    → Adds policy (action ∷ taken) totals db out
Adds-later policy action taken totals state db d (ok after, db') ended (rows, logged, inc, ev) h =
    let one = tally_one state totals ended in
    (
      h.0,
      omega (arith, one, h.1),
      AllMoved-trans action taken db.actions d.actions db'.actions rows h.2,
      omega (arith, h.3, logged),
      h.4 ∙ inc,
      h.5 ∙ ev,
    )
Adds-later policy action taken totals state db d (raised e, db') ended same h = h

module _ (engine : Engine) (policy : Policy) (now : ℕ) (lease_id : String) where
  -- The rest of the loop after the attempt on the first action.
  step-Adds :
      (clock : Clock) (action : Action) (rest : List Action) (totals : Summary) (db d : Database)
      (step : Result Action × Database)
      → is_waiting action.state ≡ true
      → (d.actions
          ≡ update_where
              (λ x. x.id == action.id)
              (λ _. leased engine policy lease_id now action)
              db.actions)
        × (d.audit_logs ≡ db.audit_logs)
        × (d.incidents ≡ db.incidents)
        × (d.operational_events ≡ db.operational_events)
      → ((t : Summary) (d' : Database)
          → Adds policy rest t d' (work engine policy now lease_id (after_reads clock 2) rest t d'))
      → Attempts engine policy now (leased engine policy lease_id now action) d step
      → Adds policy (action ∷ rest) totals db (
          and_then step.0
            (λ a. work engine policy now lease_id (after_reads clock 2) rest (tally a.state totals))
            step.1)
  step-Adds clock action rest totals db d (ok a, d') waiting same ih (inl (finished, _, _)) =
      ground arith
  step-Adds clock action rest totals db d (ok a, d') waiting same ih
        (inr (_, tried, saved, logged, inc, ev)) =
      let (rows, logs, incidents, events) = same in
      let held = leased engine policy lease_id now action in
      let end =
        update_where (λ x. x.id == action.id) (λ _. a)
          (update_where (λ x. x.id == action.id) (λ _. held) db.actions) in
      let both : d'.actions ≡ end =
        saved ∙ ap (update_where (λ x. x.id == action.id) (λ _. a)) rows in
      Adds-later policy action rest totals a.state db d' _ tried.ended
        (
          subst (AllMoved (action ∷ []) db.actions) (sym both) (
              saved-AllMoved action held a db.actions refl tried.same_id tried.ended
                tried.unleased),
          logged ∙ ap (λ l. suc (length l)) logs,
          inc ∙ incidents,
          ev ∙ events,
        )
        (ih (tally a.state totals) d')
  step-Adds clock action rest totals db d (raised e, d') waiting same ih
        (inl (invalid, none_left, _)) =
      inl (invalid, none_left)
  step-Adds clock action rest totals db d (raised e, d') waiting same ih (inr (message, crash, _)) =
      inr (message, crash)

  -- The loop over actions that all wait.
  work-Adds :
      (clock : Clock) (due : List Action) (totals : Summary) (db : Database)
      → All (λ a. is_waiting a.state ≡ true) due
      → Adds policy due totals db (work engine policy now lease_id clock due totals db)
  unfolding work save
  work-Adds clock [] totals db waiting =
      (refl, omega arith, none-AllMoved db.actions, omega arith, refl, refl)
  work-Adds clock (action ∷ rest) totals db (first, others) =
      let held = leased engine policy lease_id now action in
      let d = (save held db).1 in
      step-Adds clock action rest totals db d
        (execute_action_once engine policy clock (some now) held d) first (refl, refl, refl, refl)
        (λ t d'. work-Adds (after_reads clock 2) rest t d' others)
        (execute_action_once-Attempts engine policy clock (some now) held d)

pub is_waiting_of_is_due :
    (now stale : ℕ) (action : Action)
    → is_due now stale action ≡ true
    → is_waiting action.state ≡ true
unfolding is_due
is_waiting_of_is_due now stale action h = ground arith

-- Some of the due actions are taken, and each of them is ended as succeeded, failed or retried, its
-- lease given back, with an entry in the log; the row of any other action is as it was.
abbrev pub Works : Policy → ℕ → ℕ → ℕ → Database → Result Summary × Database → Type 0
Works policy limit now stale db (ok after, db') =
    (after.processed ≡ min limit (count (is_due now stale) db.actions))
    × (ended_count after ≡ after.processed)
    × (length db'.audit_logs ≡ length db.audit_logs + after.processed)
    × (db'.incidents ≡ db.incidents)
    × (db'.operational_events ≡ db.operational_events)
    × (taken : List Action) × (left : List Action) × Perm (taken ++ left)
        (select (is_due now stale) db.actions)
    × (length taken ≡ after.processed)
    × AllMoved taken db.actions db'.actions
Works policy limit now stale db (raised e, db') =
    (e ≡ invalid_max_attempts) × (policy.max_attempts ≡ 0)
    ⊎ (message : String) × (e ≡ transport_error message)

take_split : {A : Type 0} (n : ℕ) (xs : List A) → (left : List A) × (take n xs ++ left ≡ xs)
take_split zero xs = (xs, refl)
take_split (suc n) [] = ([], refl)
take_split (suc n) (x ∷ xs) = let (left, e) = take_split n xs in (left, ap (λ rest. x ∷ rest) e)

Works-of_Adds :
    (policy : Policy) (limit now stale : ℕ) (taken left : List Action) (db : Database)
    (out : Result Summary × Database)
    → length taken ≡ min limit (count (is_due now stale) db.actions)
    → Perm (taken ++ left) (select (is_due now stale) db.actions)
    → Adds policy taken
        (record { processed = length taken; succeeded = 0; failed = 0; retried = 0 })
        db
        out
    → Works policy limit now stale db out
Works-of_Adds policy limit now stale taken left db (ok after, db') e perm h = (
  h.0 ∙ e,
  omega (arith, h.0, h.1),
  omega (arith, h.0, h.3),
  h.4,
  h.5,
  taken,
  left,
  perm,
  sym h.0,
  h.2,
)
Works-of_Adds policy limit now stale taken left db (raised error, db') e perm h = h

-- With an SQL engine that sorts, `process_due_actions` takes the due actions up to the limit, no
-- others: each of them ends in exactly one of the three ways, with its lease given back and one
-- entry in the log, and the row of every other action is as it was. No action is added or dropped.
-- It raises only on a policy of no attempts or where the transport crashes.
pub process_due_actions-Works :
    (engine : Engine) (policy : Policy) (limit lease_seconds : ℕ) (clock : Clock) (given : Option ℕ)
    (db : Database)
    → IsEngine engine
    → let now = or_now given (clock 0) in
      Works policy limit now
        (now - lease_seconds)
        db
        (process_due_actions engine policy limit lease_seconds clock given db)
unfolding process_due_actions due_actions
process_due_actions-Works engine policy limit lease_seconds clock given db laws =
    let now = or_now given (clock 0) in
    let stale = now - lease_seconds in
    let chosen = select (is_due now stale) db.actions in
    let ordered = engine.order_by Action by_due chosen in
    let (left, split) = take_split limit ordered in
    let perm = laws.order_by-perm Action by_due chosen in
    let waiting : All (λ a. is_waiting a.state ≡ true) chosen =
      All-imp _ _ chosen (is_waiting_of_is_due now stale)
        (All-select (is_due now stale) db.actions) in
    Works-of_Adds policy limit now stale (take limit ordered) left db _
      (length-take limit ordered
        ∙ ap (min limit) (length-perm perm ∙ length-select (is_due now stale) db.actions))
      (subst (λ l. Perm l chosen) (sym split) perm)
      (work-Adds engine policy now _ (after_reads clock 1) (take limit ordered) _ db
        (All-take _ limit ordered (All-perm _ (λ a. Bool-set _ _) perm waiting)))
