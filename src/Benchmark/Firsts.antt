-- ===== src/Benchmark/Firsts.antt =====
-- The events of benchmarks/workload.py that open an incident: each is the first with its asset.
use support_operations_intel.Prelude.{
  [], ap, inr, refl, eq_refl, eq_iff, ◌∙◌, arith, inl, All-imp, suc, ◌∷◌, Bool-cases, sym, ◌||◌,
  true, All, str_eq, ◌==◌, false, if◌then◌else◌, Bool, ◌/◌, ◌%◌, ◌≡◌, ◌<◌, List, String, ℕ,
}
use support_operations_intel.Workload.{asset_name}
use support_operations_intel.Benchmark.Names.{asset_name_inj}
use support_operations_intel.Contract.{holds_text}

-- The positions in a group of twenty.
abbrev pub is_first : ℕ → Bool
is_first p = p == 0 || p == 2 || p == 3 || p == 4

abbrev pub kind_of : ℕ → String
kind_of p =
    if p == 0
    then "critical"
    else if p == 2
    then "warning"
    else if p == 3
    then "transient"
    else "permanent"

abbrev position_of : String → ℕ
position_of kind =
    if str_eq kind "critical"
    then 0
    else if str_eq kind "warning"
    then 2
    else if str_eq kind "transient"
    then 3
    else 4

position_of-kind_of : (p : ℕ) → is_first p ≡ true → position_of (kind_of p) ≡ p
position_of-kind_of p h = elim (Bool-cases (p == 0)) [
  | inl e ↦ rw e (ground arith)
  | inr n₀ ↦ elim (Bool-cases (p == 2)) [
    | inl e ↦ rw (n₀, e) (ground arith)
    | inr n₂ ↦ elim (Bool-cases (p == 3)) [
      | inl e ↦ rw (n₀, n₂, e) (ground arith)
      | inr n₃ ↦ rw (n₀, n₂, n₃) (ground arith)
    ]
  ]
]

module _ (seed : ℕ) where
  abbrev pub first_name : ℕ → String
  first_name i = asset_name seed (i / 20) (kind_of (i % 20))

  first_name_inj :
      (i j : ℕ)
      → is_first (i % 20) ≡ true
      → is_first (j % 20) ≡ true
      → first_name i ≡ first_name j
      → i ≡ j
  first_name_inj i j first first' e =
      let (groups, kinds) =
        asset_name_inj seed (i / 20) (j / 20) (kind_of (i % 20)) (kind_of (j % 20)) e in
      let positions : i % 20 ≡ j % 20 =
        sym (position_of-kind_of (i % 20) first)
        ∙ ap position_of kinds
        ∙ position_of-kind_of (j % 20) first' in
      omega arith

  -- A name in the book is that of an earlier first event.
  abbrev IsBefore : ℕ → String → Type 0
  IsBefore i s = (j : ℕ) × (j < i) × (is_first (j % 20) ≡ true) × (s ≡ first_name j)

  fresh_name :
      (i : ℕ) (seen : List String)
      → is_first (i % 20) ≡ true
      → All (IsBefore i) seen
      → holds_text (first_name i) seen ≡ false
  fresh_name i [] first all = refl
  fresh_name i (s ∷ seen) first ((j, before, first', named), all) =
      elim (Bool-cases (str_eq s (first_name i))) [
        | inl e ↦
            let same : s ≡ first_name i = (eq_iff s (first_name i)).0 e in
            let one : j ≡ i = first_name_inj j i first' first (sym named ∙ same) in
            absurd (omega arith)
        | inr e ↦ rw e (fresh_name i seen first all)
      ]

  -- What the book has seen before event `i`.
  abbrev pub Seen : ℕ → List String → Type 0
  Seen i seen =
      All (IsBefore i) seen
      × (i % 20 ≡ 1 → holds_text (asset_name seed (i / 20) "critical") seen ≡ true)

  pub fresh_first :
      (i : ℕ) (seen : List String)
      → is_first (i % 20) ≡ true
      → Seen i seen
      → holds_text (first_name i) seen ≡ false
  fresh_first i seen first (before, again) = fresh_name i seen first before

  pub Seen-first :
      (i : ℕ) (seen : List String)
      → is_first (i % 20) ≡ true
      → Seen i seen
      → Seen (suc i) (first_name i ∷ seen)
  Seen-first i seen first (before, again) = (
    (
      (i, omega arith, first, refl),
      All-imp _ _ seen (λ s (j, lt, first', named). (j, omega arith, first', named)) before,
    ),
    λ next.
        let here : i % 20 ≡ 0 = omega arith in
        let group : suc i / 20 ≡ i / 20 = omega arith in
        let name : first_name i ≡ asset_name seed (suc i / 20) "critical" = rw (here, group) refl in
        rw (name, eq_refl (asset_name seed (suc i / 20) "critical")) refl,
  )

  pub Seen-other :
      (i : ℕ) (seen : List String) → is_first (i % 20) ≡ false → Seen i seen → Seen (suc i) seen
  Seen-other i seen other (before, again) = (
    All-imp _ _ seen (λ s (j, lt, first', named). (j, omega arith, first', named)) before,
    λ next.
        let here : i % 20 ≡ 0 = omega arith in
        let first : is_first (i % 20) ≡ true = rw here refl in cc,
  )
