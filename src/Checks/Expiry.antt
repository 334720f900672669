-- ===== src/Checks/Expiry.antt =====
-- What `expire_waiting_checks` leaves: no check that is overdue.
use support_operations_intel.Models.States.{pending, waiting_confirmation, CheckState, timeout}
use support_operations_intel.Models.Database.{pure, and_then, raised, ok, Result, Database}
use support_operations_intel.Models.Tables.{CheckRun}
use support_operations_intel.Models.Engine.{or_now, after_reads, Clock, Engine}
use support_operations_intel.Prelude.{
  All-select, All-imp, length-select, length, Option, any_of_mem, count, arith, mem-select_of,
  All-of_mem, select, inr, inl, ◌==◌, Bool-cases, refl, false, any, update_where, ◌∷◌, [], All,
  List, some, true, ◌≡◌, none, ℕ,
}
use support_operations_intel.Checks.{
  expire_waiting_checks, allowed_transitions, is_overdue, expire_each, named_in, move,
  is_confirming, moved, transition_check,
}

-- The call on one check that waits: it always returns, in TIMEOUT with no deadline.
expired : ℕ → CheckRun → CheckRun
unfolding moved
expired now check = moved check timeout "confirmation timeout" none now

timeout_named :
    (state : CheckState)
    → is_confirming state ≡ true
    → named_in "timeout" (allowed_transitions state) ≡ some timeout
unfolding named_in
timeout_named waiting_confirmation waiting = refl
timeout_named pending waiting = cc
timeout_named _ waiting = cc

expire_one :
    (engine : Engine) (clock : Clock) (now : ℕ) (check : CheckRun) (db : Database)
    → is_confirming check.state ≡ true
    → transition_check engine clock (some now) check "timeout" "confirmation timeout" none db
      ≡ move engine (clock 1) (expired now check) timeout db
unfolding transition_check expired
expire_one engine clock now check db waiting =
    rw (timeout_named check.state waiting, transition_check) refl

-- The overdue rows are among those that the loop still has before it.
abbrev Covered : ℕ → List CheckRun → List CheckRun → Type 0
Covered now rest rows =
    All (λ r. is_overdue now r ≡ true → any (λ c. r.id == c.id) rest ≡ true) rows

Covered-expired :
    (now : ℕ) (check : CheckRun) (rest rows : List CheckRun)
    → Covered now (check ∷ rest) rows
    → Covered now rest (update_where (λ c. c.id == check.id) (λ _. expired now check) rows)
unfolding is_overdue expired
Covered-expired now check rest [] covered = tt
Covered-expired now check rest (r ∷ rows) covered = elim (Bool-cases (r.id == check.id)) [
  | inl same ↦ (rw same (λ overdue. cc), Covered-expired now check rest rows covered.1)
  | inr other ↦ (
    rw other (λ overdue. rw other at (covered.0 overdue)),
    Covered-expired now check rest rows covered.1,
  )
]

-- After the loop nothing is overdue.
abbrev NoneOverdue : ℕ → Result (Unit {0}) × Database → Type 0
NoneOverdue now (ok _, db') = All (λ r. is_overdue now r ≡ false) db'.check_runs
NoneOverdue now (raised e, db') = ⊥

Covered-nil :
    (now : ℕ) (rows : List CheckRun)
    → Covered now [] rows
    → All (λ r. is_overdue now r ≡ false) rows
Covered-nil now [] covered = tt
Covered-nil now (r ∷ rows) covered = elim (Bool-cases (is_overdue now r)) [
  | inl overdue ↦ let never = covered.0 overdue in cc
  | inr fine ↦ (fine, Covered-nil now rows covered.1)
]

module _ (engine : Engine) (now : ℕ) where
  expire_each-NoneOverdue :
      (clock : Clock) (checks : List CheckRun) (db : Database)
      → All (λ c. is_confirming c.state ≡ true) checks
      → Covered now checks db.check_runs
      → NoneOverdue now (expire_each engine clock now checks db)
  unfolding expire_each expired
  expire_each-NoneOverdue clock [] db waiting covered = Covered-nil now db.check_runs covered
  expire_each-NoneOverdue clock (check ∷ rest) db waiting covered =
      rw (expire_one engine clock now check db waiting.0, expire_each)
        (expire_each-NoneOverdue (after_reads clock 2) rest
          (move engine (clock 1) (expired now check) timeout db).1 waiting.1
          (Covered-expired now check rest db.check_runs covered))

Covered-select : (now : ℕ) (rows : List CheckRun) → Covered now (select (is_overdue now) rows) rows
Covered-select now rows = All-of_mem _ rows λ r m overdue.
    any_of_mem (λ c. r.id == c.id) (select (is_overdue now) rows) r
      (mem-select_of (is_overdue now) rows r m overdue) (ground arith)

is_confirming_of_is_overdue :
    (now : ℕ) (check : CheckRun) → is_overdue now check ≡ true → is_confirming check.state ≡ true
unfolding is_overdue
is_confirming_of_is_overdue now check h = ground arith

-- What a call of `expire_waiting_checks` leaves.
abbrev pub Expires : ℕ → Database → Result ℕ × Database → Type 0
Expires now db (ok n, db') =
    (n ≡ count (is_overdue now) db.check_runs) × All (λ r. is_overdue now r ≡ false) db'.check_runs
Expires now db (raised e, db') = ⊥

Expires-of_NoneOverdue :
    (now : ℕ) (db : Database) (n : ℕ) (out : Result (Unit {0}) × Database)
    → n ≡ count (is_overdue now) db.check_runs
    → NoneOverdue now out
    → Expires now db (and_then out.0 (λ _. pure n) out.1)
Expires-of_NoneOverdue now db n (ok _, db') e none_left = (e, none_left)
Expires-of_NoneOverdue now db n (raised e', db') e none_left = none_left

-- The call never raises: it returns the number of checks that were overdue, and afterwards no check
-- is overdue at that time.
pub expire_waiting_checks-Expires :
    (engine : Engine) (clock : Clock) (given : Option ℕ) (db : Database)
    → Expires (or_now given (clock 0)) db (expire_waiting_checks engine clock given db)
unfolding expire_waiting_checks
expire_waiting_checks-Expires engine clock given db =
    let now = or_now given (clock 0) in
    let checks = select (is_overdue now) db.check_runs in
    Expires-of_NoneOverdue now db (length checks) _ (length-select (is_overdue now) db.check_runs) (
      expire_each-NoneOverdue engine now (after_reads clock 1) checks db
        (All-imp _ _ checks (is_confirming_of_is_overdue now)
          (All-select (is_overdue now) db.check_runs))
        (Covered-select now db.check_runs))
