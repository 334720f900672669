-- ===== src/Integrity/Fits.antt =====
-- The bounds of columns that the tables keep: a predicate for each table.
use support_operations_intel.Integrity.Rows.{
  IncidentFits, ActionFits, CheckFits, RecordFits, EventFits, RuleFits, AssetFits,
}
use support_operations_intel.Prelude.{◌==◌, All-update_where, arith, All}
use support_operations_intel.Models.Database.{Database}
use support_operations_intel.Integrity.{
  refills, saves_check, saves_action, marks_assets, logs, adds_job, adds_check, adds_record,
  unchanged, adds_action, adds_incident, adds_event, adds_rule, then_write, Writes, adds_asset,
  Write,
}

pub record IsFit (db : Database) : Type 0 where
  pub assets : All AssetFits db.assets
  pub rules : All RuleFits db.automation_rules
  pub events : All EventFits db.operational_events
  pub incidents : All IncidentFits db.incidents
  pub actions : All ActionFits db.actions
  pub records : All RecordFits db.idempotency_records
  pub checks : All CheckFits db.check_runs

pub Write-IsFit : {db db' : Database} → Write db db' → IsFit db → IsFit db'
Write-IsFit (adds_asset a fresh unique fits) f = ground arith
Write-IsFit (adds_rule r fresh unique fits) f = ground arith
Write-IsFit (adds_event e fresh links fits) f = ground arith
Write-IsFit (adds_incident i fresh links fits) f = ground arith
Write-IsFit (adds_action a fresh links fits) f = ground arith
Write-IsFit (adds_record r fresh unique links fits) f = ground arith
Write-IsFit (adds_check c fresh fits) f = ground arith
Write-IsFit (adds_job j fresh) f = ground arith
Write-IsFit (logs l fresh) f = ground arith
Write-IsFit (marks_assets {db} p status) f = ground (
  arith,
  All-update_where AssetFits p (λ a. record a { status = status }) db.assets (λ a e h. h) f.assets,
)
Write-IsFit (saves_action {db} a links fits) f = ground (
  arith,
  All-update_where ActionFits (λ x. x.id == a.id) (λ _. a) db.actions (λ x e h. fits) f.actions,
)
Write-IsFit (saves_check {db} c fits) f = ground (
  arith,
  All-update_where CheckFits (λ x. x.id == c.id) (λ _. c) db.check_runs (λ x e h. fits) f.checks,
)
Write-IsFit (refills {db} p g keep) f = ground (
  arith,
  All-update_where RecordFits p g db.idempotency_records (λ r e h. rw (keep.same_key r) h)
      f.records,
)

pub Writes-IsFit : {db db' : Database} → Writes db db' → IsFit db → IsFit db'
Writes-IsFit unchanged f = f
Writes-IsFit (then_write ws w) f = Write-IsFit w (Writes-IsFit ws f)
