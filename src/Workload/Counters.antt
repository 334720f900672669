-- ===== src/Workload/Counters.antt =====
-- The counters against the events that they count.
use support_operations_intel.Prelude.{
  inr, refl, inl, ◌==◌, zero, ◌∷◌, ◌∙◌, ◌%◌, List, suc, Bool-cases, arith, to_ℕ, count, ◌+◌, not,
  ◌≡◌, str_eq, Bool, ℕ, String,
}
use support_operations_intel.Workload.{
  no_counters, generate_events, expected_counters, events_from, counters_from, ExpectedCounters,
  event_at, count_index, SharedEvent,
}

abbrev has_mode : String → SharedEvent → Bool
has_mode mode event = str_eq event.executor_mode mode

abbrev is_alarm : SharedEvent → Bool
is_alarm event = not (str_eq event.category "heartbeat")

-- What the counters gain over the events of a range.
Agrees : ℕ → ℕ → ℕ → ExpectedCounters → Type 0
Agrees left index seed c =
    let after = counters_from left index c in
    let events = events_from left index seed in
    (after.permanent_failures ≡ c.permanent_failures + count (has_mode "permanent_failure") events)
    × (after.retry_attempts ≡ c.retry_attempts + count (has_mode "transient_then_success") events)
    × (after.incidents + after.cooldown_suppressions
        ≡ c.incidents + c.cooldown_suppressions + count is_alarm events)
    × (after.succeeded_actions + after.failed_actions + c.actions
        ≡ c.succeeded_actions + c.failed_actions + after.actions)
    × (after.events ≡ c.events)

one_event :
    (index seed : ℕ) (c : ExpectedCounters)
    → let after = count_index index c in
      let event = event_at index seed in
      (after.permanent_failures ≡ c.permanent_failures + to_ℕ (has_mode "permanent_failure" event))
      × (after.retry_attempts ≡ c.retry_attempts + to_ℕ (has_mode "transient_then_success" event))
      × (after.incidents + after.cooldown_suppressions
          ≡ c.incidents + c.cooldown_suppressions + to_ℕ (is_alarm event))
      × (after.succeeded_actions + after.failed_actions + c.actions
          ≡ c.succeeded_actions + c.failed_actions + after.actions)
      × (after.events ≡ c.events)
unfolding count_index event_at
one_event index seed c = elim (Bool-cases (index % 20 == 0)) [
  | inl p ↦ let e : index % 20 ≡ 0 = ground arith in rw e (omega arith)
  | inr n₀ ↦ elim (Bool-cases (index % 20 == 1)) [
    | inl p ↦ let e : index % 20 ≡ 1 = ground arith in rw e (omega arith)
    | inr n₁ ↦ elim (Bool-cases (index % 20 == 2)) [
      | inl p ↦ let e : index % 20 ≡ 2 = ground arith in rw e (omega arith)
      | inr n₂ ↦ elim (Bool-cases (index % 20 == 3)) [
        | inl p ↦ let e : index % 20 ≡ 3 = ground arith in rw e (omega arith)
        | inr n₃ ↦ elim (Bool-cases (index % 20 == 4)) [
          | inl p ↦ let e : index % 20 ≡ 4 = ground arith in rw e (omega arith)
          | inr n₄ ↦ rw (n₀, n₁, n₂, n₃, n₄) (omega arith)
        ]
      ]
    ]
  ]
]

count-cons :
    (p : SharedEvent → Bool) (e : SharedEvent) (es : List SharedEvent)
    → count p (e ∷ es) ≡ to_ℕ (p e) + count p es
count-cons p e es = ground arith

range-Agrees : (left index seed : ℕ) (c : ExpectedCounters) → Agrees left index seed c
unfolding Agrees counters_from events_from
range-Agrees zero index seed c = (omega arith, omega arith, omega arith, omega arith, refl)
range-Agrees (suc left) index seed c =
    let next = count_index index c in
    let event = event_at index seed in
    let events = events_from left (suc index) seed in
    let one = one_event index seed c in
    let more = range-Agrees left (suc index) seed next in
    (
      omega (arith, one.0, more.0, count-cons (has_mode "permanent_failure") event events),
      omega (arith, one.1, more.1, count-cons (has_mode "transient_then_success") event events),
      omega (arith, one.2, more.2, count-cons is_alarm event events),
      omega (arith, one.3, more.3),
      more.4 ∙ one.4,
    )

-- For every number of events and every seed: the failures and the retries that are expected are the
-- generated events of those modes, the incidents and suppressions together are the events that are
-- no heartbeats, and every action is expected to succeed or to fail.
pub expected_counters-generate_events :
    (total seed : ℕ)
    → let c = expected_counters total in
      let events = generate_events total seed in
      (c.permanent_failures ≡ count (λ e. str_eq e.executor_mode "permanent_failure") events)
      × (c.retry_attempts ≡ count (λ e. str_eq e.executor_mode "transient_then_success") events)
      × (c.incidents + c.cooldown_suppressions
          ≡ count (λ e. not (str_eq e.category "heartbeat")) events)
      × (c.succeeded_actions + c.failed_actions ≡ c.actions)
      × (c.events ≡ total)
unfolding Agrees
expected_counters-generate_events total seed =
    let all = range-Agrees total 0 seed (no_counters total) in
    (omega (arith, all.0), omega (arith, all.1), omega (arith, all.2), omega (arith, all.3), all.4)
