-- ===== src/Workload/Sizes/Mix.antt =====
-- The mix of severities in a random workload.
use support_operations_intel.Prelude.{
  Bool-cases, true, false, inl, inr, ap, ◌∙◌, ◌<◌, ◌%◌, ◌*◌, ◌+◌, ◌-◌, ◌/◌, ◌≡◌, ◌≤◌, All, arith,
  map, refl, String, suc, zero, ℕ, ltb,
}
use Prim.Native.Nat.{min}
use support_operations_intel.Workload.{SharedEvent}
use support_operations_intel.Workload.Files.{dumped, text_of}
use support_operations_intel.Workload.Sizes.{
  build_event, built_from, count_event, counted_from, Counts, draw_severity, Rng, write_workload,
}

-- `randint` draws a number within its bounds.
abbrev pub IsBounded : Rng → Type 0
IsBounded rng =
    (draw low high : ℕ) → low ≤ high → (low ≤ rng draw low high) × (rng draw low high ≤ high)

-- What the first `size` indices give: in ten, two normal events, three warnings and five critical
-- ones, in this order.
abbrev pub mix : ℕ → Counts
mix size = record {
  normal = 2 * (size / 10) + min (size % 10) 2;
  warning = 3 * (size / 10) + min (size % 10 - 2) 3;
  critical = 5 * (size / 10) + (size % 10 - 5);
}

-- Counters with the same figures are the same.
same_counts :
    (a b : Counts) → a.normal ≡ b.normal → a.warning ≡ b.warning → a.critical ≡ b.critical → a ≡ b
same_counts a b n w c = rw (n, w, c) refl

module _ (rng : Rng) (bounded : IsBounded rng) where
  -- The severity that an index leads to, by its roll.
  low_severity :
      (draw roll : ℕ)
      → roll < 2
      → (10 ≤ draw_severity rng draw roll) × (draw_severity rng draw roll < 50)
  unfolding draw_severity
  low_severity draw roll h = ground (arith, bounded draw 10 45 (omega arith))

  middle_severity :
      (draw roll : ℕ)
      → 2 ≤ roll
      → roll < 5
      → (50 ≤ draw_severity rng draw roll) × (draw_severity rng draw roll < 80)
  unfolding draw_severity
  middle_severity draw roll l h = ground (arith, bounded draw 50 79 (omega arith))

  high_severity :
      (draw roll : ℕ)
      → 5 ≤ roll
      → (80 ≤ draw_severity rng draw roll) × (draw_severity rng draw roll ≤ 99)
  unfolding draw_severity
  high_severity draw roll l = ground (arith, bounded draw 80 99 (omega arith))

  mix-suc :
      (draw index : ℕ) → count_event (build_event rng draw index) (mix index) ≡ mix (suc index)
  unfolding build_event
  mix-suc draw index =
      let roll = index % 10 in
      let severity = draw_severity rng draw roll in
      elim (Bool-cases (ltb roll 2)) [
        | inl p ↦
            let (low, high) = low_severity draw roll (ground arith) in
            let below : ltb severity 50 ≡ true = ground arith in
            rw below (same_counts _ _ (ground arith) (ground arith) (ground arith))
        | inr q ↦ elim (Bool-cases (ltb roll 5)) [
          | inl p ↦
              let (low, high) = middle_severity draw roll (ground arith) (ground arith) in
              let above : ltb severity 50 ≡ false = ground arith in
              let below : ltb severity 80 ≡ true = ground arith in
              rw (above, below) (same_counts _ _ (ground arith) (ground arith) (ground arith))
          | inr p ↦
              let (low, high) = high_severity draw roll (ground arith) in
              let above : ltb severity 50 ≡ false = ground arith in
              let top : ltb severity 80 ≡ false = ground arith in
              rw (above, top) (same_counts _ _ (ground arith) (ground arith) (ground arith))
        ]
      ]

  counted_from-mix : (left index : ℕ) → counted_from rng left index (mix index) ≡ mix (index + left)
  unfolding counted_from
  counted_from-mix zero index = ap mix (omega arith)
  counted_from-mix (suc left) index =
      rw (mix-suc (4 * index) index) (counted_from-mix left (suc index) ∙ ap mix (omega arith))

  severity_bounds :
      (draw roll : ℕ) → (10 ≤ draw_severity rng draw roll) × (draw_severity rng draw roll ≤ 99)
  unfolding draw_severity
  severity_bounds draw roll = ground (
    arith,
    bounded draw 10 45 (omega arith),
    bounded draw 50 79 (omega arith),
    bounded draw 80 99 (omega arith),
  )

  built_from-severity :
      (left index : ℕ)
      → All (λ e. (10 ≤ e.severity) × (e.severity ≤ 99)) (built_from rng left index)
  unfolding built_from build_event
  built_from-severity zero index = tt
  built_from-severity (suc left) index =
      (severity_bounds (4 * index) (index % 10), built_from-severity left (suc index))

  -- With a random generator that draws within its bounds: whatever it draws, `write_workload` counts
  -- two normal events, three warnings and five critical ones in each ten indices, in this order, the
  -- three counters add up to the number of events, and each event that it writes has a severity from
  -- 10 to 99.
  pub write_workload-mix :
      (dumps : SharedEvent → String) (size : ℕ)
      → let counts = (write_workload dumps rng size).1 in
        let events = built_from rng size 0 in
        (counts ≡ mix size)
        × (counts.normal + counts.warning + counts.critical ≡ size)
        × ((write_workload dumps rng size).0 ≡ text_of (map (dumped dumps) events))
        × All (λ e. (10 ≤ e.severity) × (e.severity ≤ 99)) events
  unfolding write_workload
  write_workload-mix dumps size =
      let e : counted_from rng size 0 (mix 0) ≡ mix size =
        counted_from-mix size 0 ∙ ap mix (omega arith) in
      (e, rw e (omega arith), refl, built_from-severity size 0)
