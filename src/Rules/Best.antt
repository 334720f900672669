-- ===== src/Rules/Best.antt =====
-- Which rule the engine picks.
use mathlib.Core.List.Perm
use mathlib.Core.List.{
  Mem, Pairwise, Perm, head?, mem-cons_self, rel_of_Pairwise-cons, mem-cons, not-mem-nil,
}
use mathlib.Core.Logic.Or
use native.Mathlib.Bridge.{le_prop}
use mathlib.Core.Path.{subst}
use support_operations_intel.Prelude.{◌⊎◌, leb→le}
use support_operations_intel.Prelude.{
  ◌≤◌, ◌≡◌, refl, true, false, Option, none, some, List, [], ◌∷◌, arith, select, mem-select_of,
  mem_of_mem-select, inl, inr, Bool-cases,
}
use support_operations_intel.Models.Tables.{AutomationRule, OperationalEvent}
use support_operations_intel.Models.Database.{Database}
use support_operations_intel.Models.Engine.{Engine, IsEngine}
use support_operations_intel.Rules.{applies, by_severity, match}

-- The rule is enabled, in the table and for the category, and no rule that applies has a higher
-- threshold.
pub record IsBest (event : OperationalEvent) (db : Database) (rule : AutomationRule) : Type 0 where
  pub stored : Mem rule db.automation_rules
  pub fits : applies event rule ≡ true
  pub highest :
      (other : AutomationRule)
      → Mem other db.automation_rules
      → applies event other ≡ true
      → other.minimum_severity ≤ rule.minimum_severity

by_severity_total : (a b : AutomationRule) → (by_severity a b ≡ true) ⊎ (by_severity b a ≡ true)
by_severity_total a b = grind arith

by_severity_trans :
    (a b c : AutomationRule)
    → by_severity a b ≡ true
    → by_severity b c ≡ true
    → by_severity a c ≡ true
by_severity_trans a b c p q = ground arith

module _ (event : OperationalEvent) (db : Database) where
  -- The rows in order, as a list that is a permutation of the rules that apply and is sorted.
  head-IsBest :
      (rows : List AutomationRule) (rule : AutomationRule)
      → Perm rows (select (applies event) db.automation_rules)
      → Pairwise (λ a b. by_severity a b ≡ true) rows
      → head? rows ≡ some rule
      → IsBest event db rule
  head-IsBest [] rule perm sorted e = cc
  head-IsBest (first ∷ rest) rule perm sorted e =
      let same : first ≡ rule = cc in
      let (stored, fits) =
        mem_of_mem-select (applies event) db.automation_rules first
          (Perm.subset perm first mem-cons_self) in
      subst (IsBest event db) same (record {
        stored = stored;
        fits = fits;
        highest = λ other m other_fits.
            Or.elim le_prop
              (mem-cons.0 (
                Perm.subset (Perm.symm perm) other
                  (mem-select_of (applies event) _ other m other_fits)))
              (λ is_first. rw is_first (omega arith))
              (λ later. leb→le _ _ (rel_of_Pairwise-cons sorted later));
      })

  head-none :
      (rows : List AutomationRule)
      → Perm rows (select (applies event) db.automation_rules)
      → head? rows ≡ none
      → (rule : AutomationRule) → Mem rule db.automation_rules
      → applies event rule ≡ false
  head-none [] perm e rule m = elim (Bool-cases (applies event rule)) [
    | inl fits ↦ absurd (
        not-mem-nil
          (Perm.subset (Perm.symm perm) rule (mem-select_of (applies event) _ rule m fits)))
    | inr no_fit ↦ no_fit
  ]
  head-none (first ∷ rest) perm e rule m = cc

-- The engine's answer: the best rule, or that no stored rule applies.
abbrev pub Picks : OperationalEvent → Database → Option AutomationRule → Type 0
Picks event db none =
    (rule : AutomationRule) → Mem rule db.automation_rules → applies event rule ≡ false
Picks event db (some rule) = IsBest event db rule

module _ (event : OperationalEvent) (db : Database) where
  head-Picks :
      (rows : List AutomationRule)
      → Perm rows (select (applies event) db.automation_rules)
      → Pairwise (λ a b. by_severity a b ≡ true) rows
      → Picks event db (head? rows)
  head-Picks [] perm sorted = head-none event db [] perm refl
  head-Picks (first ∷ rest) perm sorted = head-IsBest event db (first ∷ rest) first perm sorted refl

-- With an SQL engine that sorts, `match` returns an enabled rule of the event's category whose
-- threshold the severity reaches, with the highest threshold among those, and returns none only
-- where no stored rule applies.
pub match-Picks :
    (engine : Engine) (event : OperationalEvent) (db : Database)
    → IsEngine engine
    → Picks event db (match engine event db)
unfolding match
match-Picks engine event db laws =
    head-Picks event db _ (laws.order_by-perm _ _ _)
      (laws.order_by-sorted _ _ _ by_severity_total by_severity_trans)
