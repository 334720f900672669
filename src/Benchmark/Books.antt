-- ===== src/Benchmark/Books.antt =====
-- The tables keep the book of a run of benchmarks/run_python_vs_dotnet.py.
use support_operations_intel.Processor.{minute}
use text.Mathlib.TextEquality.{IsScalar-prop}
use support_operations_intel.Rules.{applies}
use support_operations_intel.Rules.Best.{Picks, match-Picks}
use support_operations_intel.Models.States.{is_waiting, queued, is_resolved}
use support_operations_intel.Contract.{holds_text}
use support_operations_intel.Seed.{demo_rule}
use support_operations_intel.Models.Database.{Database}
use support_operations_intel.Prelude.{
  not, ◌-◌, ◌*◌, suc, ◌+◌, ap, arith, All_mem, ◌∙◌, eq_iff, true, Option, refl, inr, same_id,
  Distinct, inl, Option-cases, map, count, length, none, some, ◌≤◌, leb, false, ◌&&◌, if◌then◌else◌,
  All, [], any, String, ◌∷◌, str_eq, List, ◌≡◌, ◌==◌, Bool, ℕ,
}
use support_operations_intel.Models.Tables.{
  Incident, Action, OperationalEvent, AutomationRule, AuditLog, Asset,
}
use support_operations_intel.Models.Engine.{IsEngine, Engine}
use mathlib.Core.List.{mem-cons_of_mem, mem-cons_self}
use mathlib.Core.Path.{subst}
use support_operations_intel.Benchmark.Book.{Book}
use support_operations_intel.Rules

abbrev pub critical_rule : ℕ → AutomationRule
critical_rule id = demo_rule id "Critical synthetic diagnostic" "offline" 80 5 "collect_diagnostics"

abbrev pub warning_rule : ℕ → AutomationRule
warning_rule id = demo_rule id "Warning synthetic incident" "degraded" 50 5 "none"

-- The keys and the external ids of two assets tell them apart alike.
abbrev pub Alike : Asset → Asset → Type 0
Alike a b = (a.id == b.id) ≡ str_eq a.external_id b.external_id

-- The incidents of an asset, in the table and in the book.
abbrev pub HitAlike : Database → List String → Asset → Type 0
HitAlike db seen a = any (λ i. i.asset_id == a.id) db.incidents ≡ holds_text a.external_id seen

abbrev pub is_suppression : AuditLog → Bool
is_suppression l = str_eq l.event_type "event_suppressed"

-- The book of a database after `n` events that began at `start`.
pub record KeepsBook (first second start n : ℕ) (book : Book) (db : Database) : Type 0 where
  pub rules : db.automation_rules ≡ warning_rule second ∷ critical_rule first ∷ []
  pub alike : All (λ a. All (Alike a) db.assets) db.assets
  pub hit : All (HitAlike db book.seen) db.assets
  pub live : All (λ i. (is_resolved i.state ≡ false) × (start ≤ i.created_at)) db.incidents
  pub incidents : length db.incidents ≡ book.incidents
  pub events : length db.operational_events ≡ n
  pub suppressions : count is_suppression db.audit_logs ≡ book.suppressions
  pub details : map (λ a. a.detail) db.actions ≡ book.modes
  pub waiting : All (λ a. (a.state ≡ queued) × (a.attempts ≡ 0)) db.actions
  pub ids : Distinct (same_id (λ a. a.id)) db.actions

AutomationRule-set : IsSet AutomationRule
AutomationRule-set = hlevel IsScalar-prop

-- Which rule an event triggers.
abbrev pub rule_for : ℕ → ℕ → String → ℕ → Option AutomationRule
rule_for first second category severity =
    if str_eq "offline" category && leb 80 severity
    then some (critical_rule first)
    else if str_eq "degraded" category && leb 50 severity
    then some (warning_rule second)
    else none

abbrev IsPicked : ℕ → ℕ → OperationalEvent → AutomationRule → Type 0
IsPicked first second event rule =
    applies event rule ≡ true → some rule ≡ rule_for first second event.category event.severity

warning-IsPicked :
    (first second : ℕ) (event : OperationalEvent)
    → IsPicked first second event (warning_rule second)
warning-IsPicked first second event fits =
    let category : "degraded" ≡ event.category =
      (eq_iff "degraded" event.category).0 (ground arith) in
    let other : str_eq "offline" event.category ≡ false = rw (← category) refl in
    rw (other, fits) refl

pub match_lem :
    (engine : Engine) (first second : ℕ) (event : OperationalEvent) (db : Database)
    → IsEngine engine
    → db.automation_rules ≡ warning_rule second ∷ critical_rule first ∷ []
    → Rules.match engine event db ≡ rule_for first second event.category event.severity
match_lem engine first second event db laws rules =
    let picks = match-Picks engine event db laws in
    elim (Option-cases (Rules.match engine event db)) [
      | inl e ↦
          let misses = subst (Picks event db) e picks in
          let no_warning : applies event (warning_rule second) ≡ false =
            misses (warning_rule second) (rw rules mem-cons_self) in
          let no_critical : applies event (critical_rule first) ≡ false =
            misses (critical_rule first) (rw rules (mem-cons_of_mem _ mem-cons_self)) in
          rw (e, no_warning, no_critical) refl
      | inr (rule, e) ↦
          let best = subst (Picks event db) e picks in
          let picked : All (IsPicked first second event) db.automation_rules =
            rw rules (warning-IsPicked first second event, (λ fits. rw fits refl, tt)) in
          e
          ∙ All_mem (IsPicked first second event) (λ r. hlevel AutomationRule-set)
              db.automation_rules rule picked best.stored best.fits
    ]

-- Where all incidents are recent and open, the cooldown of five minutes is whether the asset has one.
pub cooled :
    (now start : ℕ) (asset : Asset) (incidents : List Incident)
    → now ≤ start + 5 * minute
    → All (λ i. (is_resolved i.state ≡ false) × (start ≤ i.created_at)) incidents
    → any
        (λ i.
          i.asset_id == asset.id
          && leb (now - 5 * minute) i.created_at
          && not (is_resolved i.state))
        incidents
      ≡ any (λ i. i.asset_id == asset.id) incidents
cooled now start asset [] near live = refl
cooled now start asset (i ∷ incidents) near ((open_, recent), live) =
    let inside : leb (now - 5 * minute) i.created_at ≡ true = ground arith in
    rw (open_, inside, cooled now start asset incidents near live) (ground arith)

-- All waiting actions count for the backlog.
pub backlog_lem :
    (actions : List Action)
    → All (λ a. (a.state ≡ queued) × (a.attempts ≡ 0)) actions
    → count (λ a. is_waiting a.state) actions ≡ length actions
backlog_lem [] all = refl
backlog_lem (a ∷ actions) ((state, fresh), all) = rw (state, backlog_lem actions all) refl

pub length-map : {A : Type 0} → (f : A → String) (xs : List A) → length (map f xs) ≡ length xs
length-map f [] = refl
length-map f (x ∷ xs) = ap suc (length-map f xs)

-- A new incident of `a` is seen where the assets are alike.
pub hit-cons :
    (db : Database) (seen : List String) (a : Asset) (i : Incident) (assets : List Asset)
    → i.asset_id ≡ a.id
    → All (Alike a) assets
    → All (HitAlike db seen) assets
    → All (HitAlike (record db { incidents = i ∷ db.incidents }) (a.external_id ∷ seen)) assets
hit-cons db seen a i [] same alike hit = tt
hit-cons db seen a i (b ∷ assets) same (alike, alikes) (hit, hits) =
    (rw (same, alike, hit) refl, hit-cons db seen a i assets same alikes hits)
