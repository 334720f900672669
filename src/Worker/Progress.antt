-- ===== src/Worker/Progress.antt =====
-- A round of the worker brings the actions that it takes closer to their end.
use mathlib.Core.Path.{subst}
use support_operations_intel.Actions.{crashed, execute_action_once, Policy, save}
use support_operations_intel.Actions.Attempts.{Attempted, Attempts, execute_action_once-Attempts}
use support_operations_intel.Models.Database.{and_then, Database, ok, raised, Result}
use support_operations_intel.Models.Engine.{after_reads, Clock, Engine}
use support_operations_intel.Models.States.{
  skipped, succeeded, queued, is_finished, is_processed, is_waiting, retry, ActionState,
}
use support_operations_intel.Models.Tables.{Action}
use support_operations_intel.Worker.{is_due, leased, Summary, tally, work}
use support_operations_intel.Prelude.{
  [], ◌∷◌, All, All-update_where, any, arith, Bool, Distinct, Distinct-update_where, false,
  if◌then◌else◌, inl, inr, length, List, not, refl, same_id, saved, saved-saved, some, Stored,
  Stored-saved_other, String, suc, sum_of, sum_of-saved, true, ℕ, ◌+◌, ◌-◌, ◌<◌, ◌==◌, ◌||◌, ◌≡◌,
  ◌≢◌, ◌≤◌, ◌∙◌, sym, update_where,
}

abbrev pub key : Action → ℕ
key a = a.id

-- The attempts that an action may still need, and one more while it waits.
abbrev pub need : Policy → Action → ℕ
need policy a = if is_waiting a.state then suc (policy.max_attempts - a.attempts) else 0

abbrev pub attempts_left : Policy → Database → ℕ
attempts_left policy db = sum_of (need policy) db.actions

-- An action that waits is due at the time.
abbrev pub due_if_waiting : ℕ → ℕ → Action → Bool
due_if_waiting lease_seconds now a = not (is_waiting a.state) || is_due now (now - lease_seconds) a

abbrev pub IsReady : ℕ → ℕ → Database → Type 0
IsReady lease_seconds now db = All (λ a. due_if_waiting lease_seconds now a ≡ true) db.actions

-- The transport returns or times out, whatever it is given.
abbrev pub NeverCrashes : Policy → Type 0
NeverCrashes policy =
    (action : Action) (message : String)
    → policy.transport action policy.timeout_seconds ≢ crashed message

is_waiting_of_processed : (s : ActionState) → is_processed s ≡ true → is_waiting s ≡ false
is_waiting_of_processed queued h = sym h
is_waiting_of_processed retry h = sym h
is_waiting_of_processed succeeded h = refl
is_waiting_of_processed ActionState.failed h = refl
is_waiting_of_processed skipped h = refl

is_finished_of_waiting : (s : ActionState) → is_waiting s ≡ true → is_finished s ≡ false
is_finished_of_waiting queued h = refl
is_finished_of_waiting retry h = refl
is_finished_of_waiting succeeded h = sym h
is_finished_of_waiting ActionState.failed h = sym h
is_finished_of_waiting skipped h = sym h

module _ (policy : Policy) (now : ℕ) (before after : Action)
    (tried : Attempted policy now before after) (waiting : is_waiting before.state ≡ true) where
  need-Attempted : need policy after < need policy before
  need-Attempted = elim tried.ended [
    | inl done ↦ rw (is_waiting_of_processed after.state done, waiting) (omega arith)
    | inr again ↦
        let room = tried.on_retry again in
        rw (again, waiting) (omega (arith, room.0, tried.counted))
  ]

  due_if_waiting-Attempted :
      (lease_seconds later : ℕ)
      → now + policy.retry_delay_seconds ≤ later
      → due_if_waiting lease_seconds later after ≡ true
  unfolding is_due
  due_if_waiting-Attempted lease_seconds later h = elim tried.ended [
    | inl done ↦ rw (is_waiting_of_processed after.state done) refl
    | inr again ↦
        let room = tried.on_retry again in rw (again, tried.unleased.0, room.3) (ground arith)
  ]

-- What the loop over `n` actions leaves: that many attempts fewer, and every action that waits is
-- due at a later time.
abbrev pub Advances : Policy → ℕ → ℕ → ℕ → Database → Result Summary × Database → Type 0
Advances policy lease_seconds later n db (ok after, d) =
    (attempts_left policy d + n ≤ attempts_left policy db)
    × Distinct (same_id key) d.actions
    × IsReady lease_seconds later d
Advances policy lease_seconds later n db (raised e, d) = ⊥

-- The actions of the batch: each waits, and is the stored one.
abbrev pub IsBatch : List Action → List Action → Type 0
IsBatch rows batch =
    All (λ a. (is_waiting a.state ≡ true) × Stored key rows a) batch × Distinct (same_id key) batch

IsBatch-saved :
    (rows : List Action) (a : Action) (batch : List Action)
    → any (same_id key a) batch ≡ false
    → All (λ c. (is_waiting c.state ≡ true) × Stored key rows c) batch
    → All (λ c. (is_waiting c.state ≡ true) × Stored key (saved key a rows) c) batch
IsBatch-saved rows a [] other all = tt
IsBatch-saved rows a (c ∷ batch) other ((waits, stored), all) = (
  (waits, Stored-saved_other key a c rows (ground arith) stored),
  IsBatch-saved rows a batch (ground arith) all,
)

Advances-step :
    (policy : Policy) (lease_seconds later n : ℕ) (db d : Database)
    (out : Result Summary × Database)
    → attempts_left policy d < attempts_left policy db
    → Advances policy lease_seconds later n d out
    → Advances policy lease_seconds later (suc n) db out
Advances-step policy lease_seconds later n db d (ok after, d') less (left, distinct, ready') =
    (omega arith, distinct, ready')
Advances-step policy lease_seconds later n db d (raised e, d') less h = h

module _ (engine : Engine) (policy : Policy) (now : ℕ) (lease_id : String) (lease_seconds later : ℕ)
    (allowed : 0 < policy.max_attempts) (steady : NeverCrashes policy)
    (spaced : now + policy.retry_delay_seconds ≤ later) where
  -- The rows after the save of the lease and the attempt.
  module _ (action : Action) (db : Database) (distinct : Distinct (same_id key) db.actions)
      (ready' : IsReady lease_seconds later db) (waiting : is_waiting action.state ≡ true)
      (stored : Stored key db.actions action) (a : Action)
      (tried : Attempted policy now (leased engine policy lease_id now action) a) where
    saved-Distinct : Distinct (same_id key) (saved key a db.actions)
    saved-Distinct =
        Distinct-update_where (same_id key) (λ x. x.id == a.id) (λ _. a) db.actions
          (λ x y e. ground arith) (λ x y e. ground arith) distinct

    saved-IsReady : All (λ x. due_if_waiting lease_seconds later x ≡ true) (saved key a db.actions)
    saved-IsReady =
        All-update_where (λ x. due_if_waiting lease_seconds later x ≡ true) (λ x. x.id == a.id)
          (λ _. a) db.actions
          (λ x e h.
            due_if_waiting-Attempted policy now (leased engine policy lease_id now action) a tried
              waiting lease_seconds later spaced)
          ready'

    saved-less : sum_of (need policy) (saved key a db.actions) < attempts_left policy db
    saved-less = omega (
      arith,
      need-Attempted policy now (leased engine policy lease_id now action) a tried waiting,
      sum_of-saved key (need policy) action a db.actions distinct tried.same_id stored,
    )

  step-Advances :
      (clock : Clock) (action : Action) (rest : List Action) (totals : Summary) (db : Database)
      (step : Result Action × Database)
      → Distinct (same_id key) db.actions
      → IsReady lease_seconds later db
      → IsBatch db.actions (action ∷ rest)
      → ((t : Summary) (d : Database)
          → Distinct (same_id key) d.actions
          → IsReady lease_seconds later d
          → IsBatch d.actions rest
          → Advances policy lease_seconds later
              (length rest)
              d
              (work engine policy now lease_id (after_reads clock 2) rest t d))
      → Attempts engine policy now
          (leased engine policy lease_id now action)
          (save (leased engine policy lease_id now action) db).1
          step
      → Advances policy lease_seconds later (suc (length rest)) db (
          and_then step.0
            (λ a. work engine policy now lease_id (after_reads clock 2) rest (tally a.state totals))
            step.1)
  unfolding save
  step-Advances clock action rest totals db (ok a, d) distinct ready'
        (((waiting, stored), others), (new, rest_distinct)) ih (inl (finished, _, _)) =
      let open_ = is_finished_of_waiting action.state waiting in cc
  step-Advances clock action rest totals db (ok a, d) distinct ready'
        (((waiting, stored), others), (new, rest_distinct)) ih (inr (_, tried, rows, _, _, _)) =
      let final : d.actions ≡ saved key a db.actions =
        subst
          (λ k.
            d.actions
            ≡ update_where (λ x. x.id == k) (λ _. a)
                (update_where (λ x. x.id == action.id)
                  (λ _. leased engine policy lease_id now action) db.actions))
          (sym tried.same_id) rows
        ∙ saved-saved key (leased engine policy lease_id now action) a db.actions
            (sym tried.same_id) in
      let new' : any (same_id key a) rest ≡ false =
        subst (λ k. any (λ x. x.id == k) rest ≡ false) (sym tried.same_id) new in
      Advances-step policy lease_seconds later (length rest) db d _
        (rw final (saved-less action db distinct ready' waiting stored a tried))
        (ih (tally a.state totals) d
          (rw final (saved-Distinct action db distinct ready' waiting stored a tried))
          (rw final (saved-IsReady action db distinct ready' waiting stored a tried))
          (rw final (IsBatch-saved db.actions a rest new' others), rest_distinct))
  step-Advances clock action rest totals db (raised e, d) distinct ready' batch ih
        (inl (_, none_left, _)) =
      absurd (omega arith)
  step-Advances clock action rest totals db (raised e, d) distinct ready' batch ih
        (inr (message, _, crash)) =
      steady _ message crash

  pub work-Advances :
      (clock : Clock) (batch : List Action) (totals : Summary) (db : Database)
      → Distinct (same_id key) db.actions
      → IsReady lease_seconds later db
      → IsBatch db.actions batch
      → Advances policy lease_seconds later
          (length batch)
          db
          (work engine policy now lease_id clock batch totals db)
  unfolding work
  work-Advances clock [] totals db distinct ready' batch = (omega arith, distinct, ready')
  work-Advances clock (action ∷ rest) totals db distinct ready' batch =
      let held = leased engine policy lease_id now action in
      let d = (save held db).1 in
      step-Advances clock action rest totals db
        (execute_action_once engine policy clock (some now) held d) distinct ready' batch
        (λ t d' distinct' ready'' batch'.
          work-Advances (after_reads clock 2) rest t d' distinct' ready'' batch')
        (execute_action_once-Attempts engine policy clock (some now) held d)
