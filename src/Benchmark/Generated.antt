-- ===== src/Benchmark/Generated.antt =====
-- The book of the generated events of benchmarks/workload.py has the counters that are expected.
use mathlib.Core.Path.{subst}
use support_operations_intel.Prelude.{
  zero, ◌∙◌, sym, ap, inr, inl, ◌∷◌, ◌/◌, false, ◌==◌, true, Bool-cases, String, arith, refl, ◌%◌,
  suc, ◌≡◌, ℕ,
}
use support_operations_intel.Workload.{
  events_from, expected_counters, counters_from, generate_events, asset_name, SharedEvent, shared,
  event_at, count_index, ExpectedCounters,
}
use support_operations_intel.Benchmark.Book.{Book, book_event, book_events, empty_book}
use support_operations_intel.Benchmark.Figures.{book_counters}
use support_operations_intel.Benchmark.Firsts.{
  kind_of, is_first, Seen, Seen-first, Seen-other, fresh_first,
}
use support_operations_intel.Contract.{holds_text}

abbrev Same : ExpectedCounters → ExpectedCounters → Type 0
Same c d =
    (c.events ≡ d.events)
    × (c.incidents ≡ d.incidents)
    × (c.actions ≡ d.actions)
    × (c.cooldown_suppressions ≡ d.cooldown_suppressions)
    × (c.succeeded_actions ≡ d.succeeded_actions)
    × (c.failed_actions ≡ d.failed_actions)
    × (c.retry_attempts ≡ d.retry_attempts)
    × (c.permanent_failures ≡ d.permanent_failures)
    × (c.errors ≡ d.errors)

Same-counters : (c d : ExpectedCounters) → Same c d → c ≡ d
Same-counters c d same = λ i. record {
  events = same.0 i;
  incidents = same.1 i;
  actions = same.2 i;
  cooldown_suppressions = same.3 i;
  succeeded_actions = same.4 i;
  failed_actions = same.5 i;
  retry_attempts = same.6 i;
  permanent_failures = same.7 i;
  errors = same.8 i;
}

module _ (seed n i : ℕ) (book : Book) (seen : Seen seed i book.seen) where
  -- One event, in the book and in the counters.
  abbrev Counts : SharedEvent → Type 0
  Counts event =
      Seen seed (suc i) (book_event event book).seen
      × Same (count_index i (book_counters n book)) (book_counters n (book_event event book))

  abbrev name_at : ℕ → String
  name_at p = asset_name seed (i / 20) (kind_of p)

  -- The name of a first event, at its position.
  fresh_at : (p : ℕ) → i % 20 ≡ p → is_first p ≡ true → holds_text (name_at p) book.seen ≡ false
  fresh_at p e first =
      subst (λ q. is_first q ≡ true → holds_text (name_at q) book.seen ≡ false) e
        (λ h. fresh_first seed i book.seen h seen) first

  Seen-at : (p : ℕ) → i % 20 ≡ p → is_first p ≡ true → Seen seed (suc i) (name_at p ∷ book.seen)
  Seen-at p e first =
      subst (λ q. is_first q ≡ true → Seen seed (suc i) (name_at q ∷ book.seen)) e
        (λ h. Seen-first seed i book.seen h seen) first

  counts_critical : i % 20 ≡ 0 → Counts (shared i seed "critical" "offline" 92 "critical" "success")
  unfolding count_index book_event
  counts_critical e = rw (fresh_at 0 e refl) (Seen-at 0 e refl, rw e (omega arith))

  counts_again :
      i % 20 ≡ 1 → Counts (shared i seed "critical" "offline" 91 "cooldown duplicate" "success")
  unfolding count_index book_event
  counts_again e = rw (seen.1 e) (Seen-other seed i book.seen (rw e refl) seen, rw e (omega arith))

  counts_warning : i % 20 ≡ 2 → Counts (shared i seed "warning" "degraded" 64 "warning" "success")
  unfolding count_index book_event
  counts_warning e = rw (fresh_at 2 e refl) (Seen-at 2 e refl, rw e (omega arith))

  counts_transient :
      i % 20 ≡ 3
      → Counts (shared i seed "transient" "offline" 93 "transient" "transient_then_success")
  unfolding count_index book_event
  counts_transient e = rw (fresh_at 3 e refl) (Seen-at 3 e refl, rw e (omega arith))

  counts_permanent :
      i % 20 ≡ 4 → Counts (shared i seed "permanent" "offline" 94 "permanent" "permanent_failure")
  unfolding count_index book_event
  counts_permanent e = rw (fresh_at 4 e refl) (Seen-at 4 e refl, rw e (omega arith))

  counts_normal :
      (kind : String)
      → is_first (i % 20) ≡ false
      → (i % 20 == 1) ≡ false
      → Counts (shared i seed kind "heartbeat" 15 "normal" "success")
  unfolding count_index book_event
  counts_normal kind other not_again =
      (Seen-other seed i book.seen other seen, ground (arith, other, not_again))

  -- Whatever the position.
  counts_event : Counts (event_at i seed)
  unfolding event_at
  counts_event = elim (Bool-cases (i % 20 == 0)) [
    | inl e ↦ rw e (counts_critical (ground arith))
    | inr n₀ ↦ elim (Bool-cases (i % 20 == 1)) [
      | inl e ↦ rw (n₀, e) (counts_again (ground arith))
      | inr n₁ ↦ elim (Bool-cases (i % 20 == 2)) [
        | inl e ↦ rw (n₀, n₁, e) (counts_warning (ground arith))
        | inr n₂ ↦ elim (Bool-cases (i % 20 == 3)) [
          | inl e ↦ rw (n₀, n₁, n₂, e) (counts_transient (ground arith))
          | inr n₃ ↦ elim (Bool-cases (i % 20 == 4)) [
            | inl e ↦ rw (n₀, n₁, n₂, n₃, e) (counts_permanent (ground arith))
            | inr n₄ ↦ rw (n₀, n₁, n₂, n₃, n₄) (counts_normal _ (rw (n₀, n₂, n₃, n₄) refl) n₁)
          ]
        ]
      ]
    ]
  ]

module _ (seed n : ℕ) where
  counts_events :
      (left i : ℕ) (book : Book)
      → Seen seed i book.seen
      → counters_from left i (book_counters n book)
        ≡ book_counters n (book_events (events_from left i seed) book)
  unfolding counters_from events_from book_events
  counts_events zero i book seen = refl
  counts_events (suc left) i book seen =
      let (later, same) = counts_event seed n i book seen in
      ap (counters_from left (suc i)) (Same-counters _ _ same)
      ∙ counts_events left (suc i) (book_event (event_at i seed) book) later

-- The book of the generated events has the counters that are expected.
pub book_events-generate_events :
    (total seed : ℕ)
    → book_counters total (book_events (generate_events total seed) empty_book)
      ≡ expected_counters total
book_events-generate_events total seed =
    sym (counts_events seed total total 0 empty_book (tt, λ next. absurd (omega arith)))
