-- ===== src/Rules.antt =====
-- services/rules.py: the rule that an event triggers.
pub mod Best
use mathlib.Core.List.{head?}
use support_operations_intel.Prelude.{Bool, ◌&&◌, Option, leb, str_eq, select}
use support_operations_intel.Models.Tables.{AutomationRule, OperationalEvent}
use support_operations_intel.Models.Database.{Database}
use support_operations_intel.Models.Engine.{Engine}

-- The `where` clauses: the rule is enabled, for the category, and its threshold is reached.
abbrev pub applies : OperationalEvent → AutomationRule → Bool
applies event rule =
    rule.enabled && str_eq rule.category event.category && leb rule.minimum_severity event.severity

-- `order_by(minimum_severity.desc())`
abbrev pub by_severity : AutomationRule → AutomationRule → Bool
by_severity a b = leb b.minimum_severity a.minimum_severity

unfoldable pub match : Engine → OperationalEvent → Database → Option AutomationRule
match engine event db =
    head? (engine.order_by AutomationRule by_severity (select (applies event) db.automation_rules))
