-- ===== src/Integrity/Sound.antt =====
-- The primary keys of all nine tables, their unique constraints and their foreign keys, under writes.
use support_operations_intel.Models.Database.{Database}
use support_operations_intel.Prelude.{
  All-update_where, All-imp, ◌==◌, refl, All, arith, Distinct-update_where, ◌∷◌, update_where, true,
  ◌≡◌, same_id, Bool, Distinct, List, ℕ,
}
use support_operations_intel.Integrity.{
  unchanged, then_write, Writes, refills, saves_check, saves_action, marks_assets, logs, adds_job,
  adds_check, adds_record, adds_action, adds_incident, adds_event, adds_rule, RecordLinks,
  ActionLinks, IncidentLinks, EventLinks, same_key, same_rule, same_external_id, adds_asset, Write,
}
use support_operations_intel.Integrity.Keeps.{Keeps, Write-Keeps, RecordLinks-Keeps}

-- Primary keys and unique columns tell the rows of each table apart.
pub record IsKeyed (db : Database) : Type 0 where
  pub asset_ids : Distinct (same_id (λ a. a.id)) db.assets
  pub rule_ids : Distinct (same_id (λ r. r.id)) db.automation_rules
  pub event_ids : Distinct (same_id (λ e. e.id)) db.operational_events
  pub incident_ids : Distinct (same_id (λ i. i.id)) db.incidents
  pub action_ids : Distinct (same_id (λ a. a.id)) db.actions
  pub record_ids : Distinct (same_id (λ r. r.id)) db.idempotency_records
  pub job_ids : Distinct (same_id (λ j. j.id)) db.job_runs
  pub log_ids : Distinct (same_id (λ l. l.id)) db.audit_logs
  pub check_ids : Distinct (same_id (λ c. c.id)) db.check_runs
  pub external_ids : Distinct same_external_id db.assets
  pub rule_names : Distinct same_rule db.automation_rules
  pub record_keys : Distinct same_key db.idempotency_records

-- Every foreign key of the rows of `db` points to a row of `db'`.
abbrev pub IsLinked : Database → Database → Type 0
IsLinked db db' =
    All (EventLinks db') db.operational_events
    × All (IncidentLinks db') db.incidents
    × All (ActionLinks db') db.actions
    × All (RecordLinks db') db.idempotency_records

-- A database as the declarations of its tables ask.
abbrev pub IsSound : Database → Type 0
IsSound db = IsKeyed db × IsLinked db db

module _ {ℓ} {A : Type ℓ} (id : A → ℕ) where
  -- A change of rows that keeps their keys.
  pub Distinct-ids-update_where :
      (p : A → Bool) (f : A → A) (xs : List A)
      → ((x : A) → p x ≡ true → id (f x) ≡ id x)
      → Distinct (same_id id) xs
      → Distinct (same_id id) (update_where p f xs)
  Distinct-ids-update_where p f xs same =
      Distinct-update_where (same_id id) p f xs (λ x y e. rw (same x e) refl)
        (λ x y e. rw (same y e) refl)

-- The links of the old rows, into the new tables.
IsLinked-Keeps : (db db' : Database) → Keeps db db' → IsLinked db db → IsLinked db db'
IsLinked-Keeps db db' keeps (events, incidents, actions, records) = (
  All-imp _ _ db.operational_events (λ e. keeps.0 e.asset_id) events,
  All-imp _ _ db.incidents
      (λ i (a, r, e). (keeps.0 i.asset_id a, keeps.1 i.rule_id r, keeps.2 i.event_id e)) incidents,
  All-imp _ _ db.actions (λ a. keeps.3 a.incident_id) actions,
  All-imp _ _ db.idempotency_records (λ r. RecordLinks-Keeps db db' r keeps) records,
)

Write-IsKeyed : {db db' : Database} → Write db db' → IsKeyed db → IsKeyed db'
Write-IsKeyed (adds_asset a fresh unique fits) s = ground arith
Write-IsKeyed (adds_rule r fresh unique fits) s = ground arith
Write-IsKeyed (adds_event e fresh links fits) s = ground arith
Write-IsKeyed (adds_incident i fresh links fits) s = ground arith
Write-IsKeyed (adds_action a fresh links fits) s = ground arith
Write-IsKeyed (adds_record r fresh unique links fits) s = ground arith
Write-IsKeyed (adds_check c fresh fits) s = ground arith
Write-IsKeyed (adds_job j fresh) s = ground arith
Write-IsKeyed (logs l fresh) s = ground arith
Write-IsKeyed (marks_assets {db} p status) s = ground (
  arith,
  Distinct-ids-update_where (λ a. a.id) p (λ a. record a { status = status }) db.assets
      (λ x e. refl) s.asset_ids,
  Distinct-update_where same_external_id p (λ a. record a { status = status }) db.assets
      (λ x y e. refl) (λ x y e. refl) s.external_ids,
)
Write-IsKeyed (saves_action {db} a links fits) s = ground (
  arith,
  Distinct-ids-update_where (λ x. x.id) (λ x. x.id == a.id) (λ _. a) db.actions
      (λ x e. ground arith) s.action_ids,
)
Write-IsKeyed (saves_check {db} c fits) s = ground (
  arith,
  Distinct-ids-update_where (λ x. x.id) (λ x. x.id == c.id) (λ _. c) db.check_runs
      (λ x e. ground arith) s.check_ids,
)
Write-IsKeyed (refills {db} p f keep) s = ground (
  arith,
  Distinct-ids-update_where (λ x. x.id) p f db.idempotency_records (λ x e. keep.same_id x)
      s.record_ids,
  Distinct-update_where same_key p f db.idempotency_records (λ x y e. rw (keep.same_key x) refl)
      (λ x y e. rw (keep.same_key y) refl) s.record_keys,
)

-- The old rows' links hold after the write; a new or changed row brings its own.
Write-IsLinked : {db db' : Database} → Write db db' → IsLinked db db → IsLinked db' db'
Write-IsLinked (adds_asset {db} a fresh unique fits) s =
    IsLinked-Keeps db (record db { assets = a ∷ db.assets })
      (Write-Keeps (adds_asset {db = db} a fresh unique fits)) s
Write-IsLinked (adds_rule {db} r fresh unique fits) s =
    IsLinked-Keeps db (record db { automation_rules = r ∷ db.automation_rules })
      (Write-Keeps (adds_rule {db = db} r fresh unique fits)) s
Write-IsLinked (adds_event {db} e fresh links fits) s =
    let (events, incidents, actions, records) =
      IsLinked-Keeps db (record db { operational_events = e ∷ db.operational_events })
        (Write-Keeps (adds_event {db = db} e fresh links fits)) s in
    ((links, events), incidents, actions, records)
Write-IsLinked (adds_incident {db} i fresh links fits) s =
    let (events, incidents, actions, records) =
      IsLinked-Keeps db (record db { incidents = i ∷ db.incidents })
        (Write-Keeps (adds_incident {db = db} i fresh links fits)) s in
    (events, (links, incidents), actions, records)
Write-IsLinked (adds_action {db} a fresh links fits) s =
    let (events, incidents, actions, records) =
      IsLinked-Keeps db (record db { actions = a ∷ db.actions })
        (Write-Keeps (adds_action {db = db} a fresh links fits)) s in
    (events, incidents, (links, actions), records)
Write-IsLinked (adds_record r fresh unique links fits) (events, incidents, actions, records) =
    (events, incidents, actions, (links, records))
Write-IsLinked (adds_check c fresh fits) s = s
Write-IsLinked (adds_job j fresh) s = s
Write-IsLinked (logs l fresh) s = s
Write-IsLinked (marks_assets {db} p status) s =
    IsLinked-Keeps db
      (record db { assets = update_where p (λ a. record a { status = status }) db.assets })
      (Write-Keeps (marks_assets {db = db} p status)) s
Write-IsLinked (saves_action {db} a links fits) s =
    let (events, incidents, actions, records) =
      IsLinked-Keeps db
        (record db { actions = update_where (λ x. x.id == a.id) (λ _. a) db.actions })
        (Write-Keeps (saves_action {db = db} a links fits)) s in
    (
      events,
      incidents,
      All-update_where (ActionLinks db) (λ x. x.id == a.id) (λ _. a) db.actions (λ x e h. links)
          actions,
      records,
    )
Write-IsLinked (saves_check c fits) s = s
Write-IsLinked (refills {db} p f keep) (events, incidents, actions, records) = (
  events,
  incidents,
  actions,
  All-update_where (RecordLinks db) p f db.idempotency_records (λ r e. keep.links r) records,
)

-- Every write leaves a sound database sound.
pub Write-IsSound : {db db' : Database} → Write db db' → IsSound db → IsSound db'
Write-IsSound w (keyed, linked) = (Write-IsKeyed w keyed, Write-IsLinked w linked)

pub Writes-IsSound : {db db' : Database} → Writes db db' → IsSound db → IsSound db'
Writes-IsSound unchanged s = s
Writes-IsSound (then_write ws w) s = Write-IsSound w (Writes-IsSound ws s)
