-- ===== src/Actions/Retries.antt =====
-- The loop of `execute_action_with_retry`: when it ends, and when it does not.
use support_operations_intel.Models.Engine.{after_reads}
use support_operations_intel.Models.States.{skipped}
use support_operations_intel.Prelude.{
  refl, zero, Bool-cases, ◌≢◌, ◌<◌, ◌-◌, if◌then◌else◌, ap, inr, ◌+◌, inl, arith, ◌⊎◌, ◌∙◌, ◌≤◌,
  ◌≡◌,
}
use support_operations_intel.Actions.Attempts.{execute_action_once-Attempts, Attempts, Attempted}
use support_operations_intel.Actions.{
  ltb, execute_action_with_retry, none, execute_action_once, is_finished, Clock, retry_loop, Engine,
  transport_error, String, raised, suc, some, false, true, ok, is_processed, Database, Option,
  Result, ℕ, Action, Policy,
}

-- How the loop ends: the action succeeded or failed, with its attempts within the policy, or the
-- transport crashed. An action that had ended before comes back as it is.
abbrev pub IsEnd : Policy → Action → Result Action × Database → Type 0
IsEnd policy action (ok action', db') =
    (is_processed action'.state ≡ true)
    × (action'.id ≡ action.id)
    × (action.attempts ≤ action'.attempts)
    × ((action'.attempts ≤ policy.max_attempts) ⊎ (action'.attempts ≤ action.attempts + 1))
    × (is_processed action.state ≡ true → action' ≡ action)
IsEnd policy action (raised e, db') = (message : String) × (e ≡ transport_error message)

abbrev pub Ends : Policy → Action → Option (Result Action × Database) → Type 0
Ends policy action loop =
    (out : Result Action × Database) × (loop ≡ some out) × IsEnd policy action out

-- The rounds that the loop needs from here.
abbrev rounds : Policy → Action → ℕ
rounds policy action =
    if is_processed action.state then 1 else suc (suc (policy.max_attempts - action.attempts))

module _ (policy : Policy) (now : ℕ) (action action' : Action)
    (tried : Attempted policy now action action') (open_ : is_processed action.state ≡ false) where
  IsEnd-later :
      (out : Result Action × Database) → IsEnd policy action' out → IsEnd policy action out
  IsEnd-later (ok last, db') (processed, id, grown, within, stays) = (
    processed,
    id ∙ tried.same_id,
    omega (arith, tried.counted),
    elim tried.ended [
      | inl done ↦
          let same : last.attempts ≡ action'.attempts = ap (λ a. a.attempts) (stays done) in
          inr (omega (arith, tried.counted))
      | inr again ↦ let room = tried.on_retry again in ground (arith, room)
    ],
    λ closed. cc,
  )
  IsEnd-later (raised e, db') h = h

  Ends-later :
      (loop : Option (Result Action × Database))
      → Ends policy action' loop
      → Ends policy action loop
  Ends-later loop (out, e, h) = (out, e, IsEnd-later out h)

  rounds-Attempted : (fuel : ℕ) → rounds policy action ≤ suc fuel → rounds policy action' ≤ fuel
  rounds-Attempted fuel h = elim tried.ended [
    | inl done ↦ rw done (ground arith)
    | inr again ↦ let room = tried.on_retry again in rw again (ground (arith, room, tried.counted))
  ]

module _ (engine : Engine) (policy : Policy) where
  -- The loop after an attempt, by how the attempt ended; `ih` is the loop with less fuel.
  Ends-after :
      (fuel : ℕ) (clock : Clock) (action : Action) (db : Database) (step : Result Action × Database)
      → 0 < policy.max_attempts
      → is_processed action.state ≡ false
      → is_finished action.state ≡ false
      → rounds policy action ≤ suc fuel
      → ((a : Action) (d : Database)
          → a.state ≢ skipped
          → rounds policy a ≤ fuel
          → Ends policy a (retry_loop engine policy fuel (after_reads clock 2) a d))
      → Attempts engine policy (clock 0) action db step
      → Ends policy action (elim step.0 [
        | raised e ↦ some (raised e, step.1)
        | ok a ↦ retry_loop engine policy fuel (after_reads clock 2) a step.1
      ])
  Ends-after fuel clock action db (ok action', db') pos open_ unfinished enough ih
        (inl (finished, _, _)) =
      cc
  Ends-after fuel clock action db (ok action', db') pos open_ unfinished enough ih
        (inr (_, tried, _, _, _, _)) =
      Ends-later policy (clock 0) action action' tried open_ _ (
        ih action' db' (λ skip. elim tried.ended [ inl done ↦ cc | inr again ↦ cc ])
          (rounds-Attempted policy (clock 0) action action' tried open_ fuel enough))
  Ends-after fuel clock action db (raised e, db') pos open_ unfinished enough ih
        (inl (_, none_left, _)) =
      absurd (omega arith)
  Ends-after fuel clock action db (raised e, db') pos open_ unfinished enough ih
        (inr (message, crash, _)) =
      ((raised e, db'), refl, (message, crash))

  retry_loop-Ends :
      (fuel : ℕ) (clock : Clock) (action : Action) (db : Database)
      → 0 < policy.max_attempts
      → action.state ≢ skipped
      → rounds policy action ≤ fuel
      → Ends policy action (retry_loop engine policy fuel clock action db)
  unfolding retry_loop
  retry_loop-Ends zero clock action db pos live enough = absurd (ground arith)
  retry_loop-Ends (suc fuel) clock action db pos live enough =
      elim (Bool-cases (is_processed action.state)) [
        | inl closed ↦ (
          (ok action, db),
          rw (closed, retry_loop) refl,
          (closed, refl, omega arith, inr (omega arith), λ _. refl),
        )
        | inr open_ ↦
            rw (open_, retry_loop)
              (Ends-after fuel clock action db
                (execute_action_once engine policy clock none action db) pos open_ (ground arith)
                enough (λ a d. retry_loop-Ends fuel (after_reads clock 2) a d pos)
                (execute_action_once-Attempts engine policy clock none action db))
      ]

-- With at least one attempt allowed, and fuel for two rounds more than the attempts, the loop of
-- `execute_action_with_retry` ends on every action that is not skipped: the action succeeds or
-- fails within the allowed attempts (or after the one attempt beyond them that it came with), or
-- the transport crashes.
pub execute_action_with_retry-Ends :
    (engine : Engine) (policy : Policy) (fuel : ℕ) (clock : Clock) (action : Action) (db : Database)
    → 0 < policy.max_attempts
    → action.state ≢ skipped
    → policy.max_attempts + 2 ≤ fuel
    → Ends policy action (execute_action_with_retry engine policy fuel clock action db)
unfolding execute_action_with_retry
execute_action_with_retry-Ends engine policy fuel clock action db pos live enough =
    elim (Bool-cases (ltb policy.max_attempts 1)) [
      | inl none_left ↦ absurd (ground arith)
      | inr some_left ↦ rw some_left (
          retry_loop-Ends engine (record policy { retry_delay_seconds = 0 }) fuel clock action db
            pos live (ground arith))
    ]

skipped_loops :
    (engine : Engine) (policy : Policy) (fuel : ℕ) (clock : Clock) (action : Action) (db : Database)
    → 0 < policy.max_attempts
    → action.state ≡ skipped
    → retry_loop engine policy fuel clock action db ≡ none
unfolding retry_loop execute_action_once
skipped_loops engine policy zero clock action db pos skip = refl
skipped_loops engine policy (suc fuel) clock action db pos skip =
    ground (arith, skip, skipped_loops engine policy fuel (after_reads clock 2) action db pos skip)

-- With at least one attempt allowed, the loop of `execute_action_with_retry` never ends on a
-- skipped action: no fuel is enough.
pub execute_action_with_retry_skipped :
    (engine : Engine) (policy : Policy) (fuel : ℕ) (clock : Clock) (action : Action) (db : Database)
    → 0 < policy.max_attempts
    → action.state ≡ skipped
    → execute_action_with_retry engine policy fuel clock action db ≡ none
unfolding execute_action_with_retry
execute_action_with_retry_skipped engine policy fuel clock action db pos skip = ground (
  arith,
  skipped_loops engine (record policy { retry_delay_seconds = 0 }) fuel clock action db pos skip,
)
