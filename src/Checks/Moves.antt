-- ===== src/Checks/Moves.antt =====
-- Which moves the state machine makes.
use support_operations_intel.Models.Engine.{Clock, Engine}
use support_operations_intel.Checks.{
  refusal, named_in, transition_check, is_closed, allowed_transitions,
}
use support_operations_intel.Models.Database.{
  invalid_check_transition, raised, ok, Result, Database,
}
use mathlib.Core.List.{Mem}
use support_operations_intel.Prelude.{
  refl, find-holds, find-mem, inr, find-none, inl, Option-cases, ℕ, Option, none, suc, length, true,
  ◌==◌, codes, update_where, lower, ◌≡◌, codes_eq, String,
}
use support_operations_intel.Models.Tables.{CheckRun}
use support_operations_intel.Models.States.{check_state_value, CheckState}

-- A text that names an allowed state, up to case.
abbrev pub Names : CheckState → String → CheckState → Type 0
Names from text target =
    Mem target (allowed_transitions from)
    × (codes_eq (lower text) (codes (check_state_value target)) ≡ true)

-- What a call of `transition_check` leaves: the check in a state that its old one allows, saved
-- and logged, or nothing.
abbrev pub Moves : CheckRun → String → Database → Result CheckRun × Database → Type 0
Moves check text db (ok check', db') =
    Names check.state text check'.state
    × (check'.id ≡ check.id)
    × (db'.check_runs ≡ update_where (λ c. c.id == check.id) (λ _. check') db.check_runs)
    × (length db'.audit_logs ≡ suc (length db.audit_logs))
    × (is_closed check'.state ≡ true → check'.confirmation_due_at ≡ none)
Moves check text db (raised e, db') =
    (e ≡ invalid_check_transition (refusal check.state text))
    × (db' ≡ db)
    × ((target : CheckState) → ¬ Names check.state text target)

module _ (engine : Engine) where
  -- A call moves a check exactly to the states that its table allows, by their text in any case,
  -- saves that one row and writes one entry of the log; a closed check has no deadline after it. On
  -- any other text it raises and changes nothing.
  pub transition_check-Moves :
      (clock : Clock) (given : Option ℕ) (check : CheckRun) (text detail : String)
      (timeout_seconds : Option ℕ) (db : Database)
      → Moves check text db
          (transition_check engine clock given check text detail timeout_seconds db)
  unfolding transition_check
  transition_check-Moves clock given check text detail timeout_seconds db =
      let named = λ (s : CheckState). codes_eq (lower text) (codes (check_state_value s)) in
      elim (Option-cases (named_in text (allowed_transitions check.state))) [
        | inl e ↦
            rw (e, transition_check)
              (
                refl,
                refl,
                λ target (m, same).
                    let differs = find-none named (allowed_transitions check.state) target e m in
                    cc,
              )
        | inr (target, e) ↦
            rw (e, transition_check)
              (
                (
                  find-mem named (allowed_transitions check.state) target e,
                  find-holds named (allowed_transitions check.state) target e,
                ),
                refl,
                refl,
                refl,
                λ closed. rw closed refl,
              )
      ]
