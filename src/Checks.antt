-- ===== src/Checks.antt =====
-- services/checks.py: the state machine of check runs.
pub mod Moves
pub mod Deadline
pub mod Expiry
use support_operations_intel.Models.Inserts.{audit}
use support_operations_intel.Models.Database.{
  invalid_check_transition, raise, gets, ◌>>=◌, modify, ◌>>◌, Database, pure, Session,
}
use support_operations_intel.Models.Tables.{CheckRun}
use support_operations_intel.Models.Engine.{or_now, after_reads, some_le, Clock, Engine}
use support_operations_intel.Prelude.{
  lower_text, or_text, codes, ◌+◌, lower, find, if◌then◌else◌, length, select, ◌==◌, [], none,
  f_string, update_where, some, map, ◌∷◌, Option, lower_code, String, ◌&&◌, true, false, List, ℕ,
  Bool, codes_eq, ◌*◌,
}
use support_operations_intel.Models.States.{
  timeout, confirmed, check_state_value, cancelled, waiting_confirmation, started, CheckState,
  pending,
}

abbrev pub second : ℕ
second = 1_000_000

-- `ALLOWED_TRANSITIONS`
abbrev pub allowed_transitions : CheckState → List CheckState
allowed_transitions pending = started ∷ cancelled ∷ CheckState.failed ∷ []
allowed_transitions started = waiting_confirmation ∷ cancelled ∷ CheckState.failed ∷ []
allowed_transitions waiting_confirmation = confirmed ∷ timeout ∷ cancelled ∷ CheckState.failed ∷ []
allowed_transitions _ = []

-- The state among `states` that the lower case of a text names.
unfoldable pub named_in : String → List CheckState → Option CheckState
unfolding codes_eq lower_code
named_in target states = find (λ s. codes_eq (lower target) (codes (check_state_value s))) states

-- The message of the exception.
abbrev pub refusal : CheckState → String → String
refusal from target_state = f_string (
    "cannot transition check from "
    ∷ check_state_value from
    ∷ " to "
    ∷ lower_text target_state
    ∷ [])

-- `target in {CONFIRMED, TIMEOUT, CANCELLED, FAILED}`
abbrev pub is_closed : CheckState → Bool
is_closed pending = false
is_closed started = false
is_closed waiting_confirmation = false
is_closed _ = true

abbrev pub is_confirming : CheckState → Bool
is_confirming waiting_confirmation = true
is_confirming _ = false

module _ (engine : Engine) where
  abbrev pub check_row : ℕ → String → String → String → Database → CheckRun
  check_row now name asset_external_id detail db = record {
    id = engine.next_id (map (λ c. c.id) db.check_runs);
    name = name;
    asset_external_id = asset_external_id;
    state = pending;
    detail = detail;
    confirmation_due_at = none;
    created_at = now;
    updated_at = now;
  }

  -- `create_check`
  unfoldable pub create_check : Clock → Option ℕ → String → String → String → Session CheckRun
  unfolding audit
  create_check clock given name asset_external_id detail = do
    check ← gets (check_row (or_now given (clock 0)) name asset_external_id detail)
    modify (λ db. record db { check_runs = check ∷ db.check_runs })
    audit engine (clock 1) "check_created" "check" check.id
        (f_string ("Check " ∷ name ∷ " created" ∷ []))
    pure check

-- The deadline that a move sets: only a timeout that comes with the wait for a confirmation does.
abbrev pub due_after : CheckRun → CheckState → Option ℕ → ℕ → Option ℕ
due_after check target none now = check.confirmation_due_at
due_after check target (some t) now =
    if is_confirming target then some (now + t * second) else check.confirmation_due_at

-- The fields after a move to an allowed state.
unfoldable pub moved : CheckRun → CheckState → String → Option ℕ → ℕ → CheckRun
moved check target detail timeout_seconds now = record check {
  state = target;
  detail = or_text (some detail) check.detail;
  updated_at = now;
  confirmation_due_at =
      if is_closed target then none else due_after check target timeout_seconds now;
}

unfoldable pub save_check : CheckRun → Session (Unit {0})
save_check check =
    modify λ db. record db {
      check_runs = update_where (λ c. c.id == check.id) (λ _. check) db.check_runs;
    }

module _ (engine : Engine) where
  unfoldable pub move : ℕ → CheckRun → CheckState → Session CheckRun
  unfolding audit save_check
  move written check target = do
    save_check check
    audit engine written "check_transitioned" "check" check.id
        (f_string ("Check moved to " ∷ check_state_value target ∷ []))
    pure check

  -- `transition_check`
  unfoldable pub transition_check :
      Clock → Option ℕ → CheckRun → String → String → Option ℕ → Session CheckRun
  unfolding named_in moved move
  transition_check clock given check target_state detail timeout_seconds =
      elim (named_in target_state (allowed_transitions check.state)) [
        | none ↦ raise (invalid_check_transition (refusal check.state target_state))
        | some target ↦
            move (clock 1) (moved check target detail timeout_seconds (or_now given (clock 0)))
              target
      ]

-- The `where` clauses of `expire_waiting_checks`.
unfoldable pub is_overdue : ℕ → CheckRun → Bool
is_overdue now check = is_confirming check.state && some_le check.confirmation_due_at now

module _ (engine : Engine) where
  -- The `for` loop.
  unfoldable pub expire_each : Clock → ℕ → List CheckRun → Session (Unit {0})
  unfolding transition_check
  expire_each clock now [] = pure tt
  expire_each clock now (check ∷ rest) =
      transition_check engine clock (some now) check "timeout" "confirmation timeout" none >>= λ _.
      expire_each (after_reads clock 2) now rest

  -- `expire_waiting_checks`
  unfoldable pub expire_waiting_checks : Clock → Option ℕ → Session ℕ
  unfolding is_overdue expire_each
  expire_waiting_checks clock given = do
    checks ← gets (λ db. select (is_overdue (or_now given (clock 0))) db.check_runs)
    expire_each (after_reads clock 1) (or_now given (clock 0)) checks
    pure (length checks)
