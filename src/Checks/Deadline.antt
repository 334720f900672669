-- ===== src/Checks/Deadline.antt =====
-- The life of a check: the moves that calls make, in any order and with any arguments.
use mathlib.Core.Path.{subst}
use support_operations_intel.Models.Database.{ok, Database}
use support_operations_intel.Prelude.{
  inr, inl, Option-cases, ap, ◌≤◌, arith, ◌⊎◌, true, none, ◌<◌, false, some, ◌≡◌, suc, Option,
  String, ℕ,
}
use support_operations_intel.Models.Tables.{CheckRun}
use support_operations_intel.Checks.{
  moved, is_closed, transition_check, allowed_transitions, is_confirming, named_in,
}
use support_operations_intel.Models.Engine.{or_now, Clock, Engine}
use support_operations_intel.Models.States.{
  cancelled, timeout, confirmed, waiting_confirmation, started, pending, CheckState,
}

-- A call of `transition_check` that returns.
pub data Step (engine : Engine) : CheckRun → CheckRun → Type 0 where
  call :
      {check check' : CheckRun} (clock : Clock) (given : Option ℕ) (text detail : String)
      (timeout_seconds : Option ℕ) (db db' : Database)
      → transition_check engine clock given check text detail timeout_seconds db ≡ (ok check', db')
      → Step engine check check'

-- After some number of calls.
pub data Reach (engine : Engine) (check : CheckRun) : ℕ → CheckRun → Type 0 where
  here : Reach engine check 0 check
  next :
      {n : ℕ} {check' check'' : CheckRun}
      → Reach engine check n check'
      → Step engine check' check''
      → Reach engine check (suc n) check''

-- Only a check that waits for a confirmation has a deadline.
abbrev pub HasDeadlineInWait : CheckRun → Type 0
HasDeadlineInWait check = is_confirming check.state ≡ false → check.confirmation_due_at ≡ none

-- How far along its life a state is.
abbrev pub rank : CheckState → ℕ
rank pending = 0
rank started = 1
rank waiting_confirmation = 2
rank _ = 3

-- A state that the table allows from another is further along, and is reached with its deadline.
allowed_later :
    (from target : CheckState) (text : String)
    → named_in text (allowed_transitions from) ≡ some target
    → (rank from < rank target)
      × ((is_closed target ≡ true) ⊎ (is_confirming target ≡ true) ⊎ (from ≡ pending))
unfolding named_in
allowed_later pending target text e = ground arith
allowed_later started target text e = ground arith
allowed_later waiting_confirmation target text e = ground arith
allowed_later confirmed target text e = ground arith
allowed_later timeout target text e = ground arith
allowed_later cancelled target text e = ground arith
allowed_later CheckState.failed target text e = ground arith

module _ (engine : Engine) where
  -- What a step does: a target by its name, and the fields of `moved`.
  Step-moved :
      {check check' : CheckRun}
      → Step engine check check'
      → (target : CheckState) × (text : String) × (detail : String) × (t : Option ℕ) × (now : ℕ)
        × (named_in text (allowed_transitions check.state) ≡ some target)
        × (moved check target detail t now ≡ check')
  unfolding transition_check
  Step-moved {check} {check'} (call clock given text detail t db db' e) =
      elim (Option-cases (named_in text (allowed_transitions check.state))) [
        | inl unnamed ↦ absurd (ground (arith, unnamed, e))
        | inr (target, named) ↦
            (target, text, detail, t, or_now given (clock 0), named, ground (arith, named, e))
      ]

  -- Each move leads further along.
  Step-rank :
      {check check' : CheckRun} → Step engine check check' → rank check.state < rank check'.state
  unfolding moved
  Step-rank {check} {check'} step =
      let (target, text, detail, t, now, named, e) = Step-moved step in
      let same : target ≡ check'.state = ap (λ c. c.state) e in
      subst (λ s. rank check.state < rank s) same (allowed_later check.state target text named).0

  Step-HasDeadlineInWait :
      {check check' : CheckRun}
      → Step engine check check'
      → HasDeadlineInWait check
      → HasDeadlineInWait check'
  unfolding moved
  Step-HasDeadlineInWait {check} {check'} step h =
      let (target, text, detail, t, now, named, e) = Step-moved step in
      let later = (allowed_later check.state target text named).1 in
      subst HasDeadlineInWait e (λ not_waiting. ground (arith, h, later, not_waiting))

rank-le : (s : CheckState) → rank s ≤ 3
rank-le pending = omega arith
rank-le started = omega arith
rank-le waiting_confirmation = omega arith
rank-le _ = omega arith

module _ (engine : Engine) (check : CheckRun) where
  Reach-rank : {n : ℕ} {check' : CheckRun} → Reach engine check n check' → n ≤ rank check'.state
  Reach-rank here = omega arith
  Reach-rank (next reach step) = omega (arith, Reach-rank reach, Step-rank engine step)

  Reach-HasDeadlineInWait :
      {n : ℕ} {check' : CheckRun}
      → HasDeadlineInWait check
      → Reach engine check n check'
      → HasDeadlineInWait check'
  Reach-HasDeadlineInWait h here = h
  Reach-HasDeadlineInWait h (next reach step) =
      Step-HasDeadlineInWait engine step (Reach-HasDeadlineInWait h reach)

-- From a check with no deadline, as it is created, calls in any order and with any arguments make
-- three moves at most, and leave a deadline only while the check waits for a confirmation.
pub Reach-IsLimited :
    (engine : Engine) {n : ℕ} {check check' : CheckRun}
    → check.confirmation_due_at ≡ none
    → Reach engine check n check'
    → (n ≤ 3) × HasDeadlineInWait check'
Reach-IsLimited engine {n} {check} {check'} no_due reach = (
  omega (arith, Reach-rank engine check reach, rank-le check'.state),
  Reach-HasDeadlineInWait engine check (λ _. no_due) reach,
)
