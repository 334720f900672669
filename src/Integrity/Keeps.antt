-- ===== src/Integrity/Keeps.antt =====
-- Rows stay: every write leaves each row of the tables that foreign keys point to, by its key.
use support_operations_intel.Models.Tables.{IdempotencyRecord}
use support_operations_intel.Models.Database.{Database}
use support_operations_intel.Prelude.{
  none, some, Option, ◌∙◌, ◌==◌, refl, arith, any-update_where, ◌∷◌, update_where, true, has_id,
  ◌≡◌, Bool, List, ℕ,
}
use support_operations_intel.Integrity.{
  unchanged, then_write, Writes, refills, saves_check, saves_action, marks_assets, logs, adds_job,
  adds_check, adds_record, adds_action, adds_incident, adds_event, Points, adds_rule, RecordLinks,
  has_action, has_incident, has_event, has_rule_id, adds_asset, has_asset, Write,
}

-- Every row that was there is there, by its key: links that held hold.
abbrev pub Grows : (ℕ → Bool) → (ℕ → Bool) → Type 0
Grows has has' = (k : ℕ) → has k ≡ true → has' k ≡ true

abbrev pub Keeps : Database → Database → Type 0
Keeps db db' =
    Grows (has_asset db) (has_asset db')
    × Grows (has_rule_id db) (has_rule_id db')
    × Grows (has_event db) (has_event db')
    × Grows (has_incident db) (has_incident db')
    × Grows (has_action db) (has_action db')

module _ {ℓ} {A : Type ℓ} (id : A → ℕ) where
  has_id-cons : (x : A) (xs : List A) (k : ℕ) → has_id id k xs ≡ true → has_id id k (x ∷ xs) ≡ true
  has_id-cons x xs k h = ground arith

  has_id-update_where :
      (p : A → Bool) (f : A → A) (xs : List A) (k : ℕ)
      → ((x : A) → p x ≡ true → id (f x) ≡ id x)
      → has_id id k xs ≡ true
      → has_id id k (update_where p f xs) ≡ true
  has_id-update_where p f xs k same h =
      any-update_where (λ x. id x == k) p f xs (λ x e. rw (same x e) refl) ∙ h

abbrev stays : (has : ℕ → Bool) → Grows has has
stays has k h = h

pub Write-Keeps : {db db' : Database} → Write db db' → Keeps db db'
Write-Keeps (adds_asset {db} a fresh unique fits) =
    (has_id-cons (λ a. a.id) a db.assets, stays _, stays _, stays _, stays _)
Write-Keeps (adds_rule {db} r fresh unique fits) =
    (stays _, has_id-cons (λ r. r.id) r db.automation_rules, stays _, stays _, stays _)
Write-Keeps (adds_event {db} e fresh links fits) =
    (stays _, stays _, has_id-cons (λ e. e.id) e db.operational_events, stays _, stays _)
Write-Keeps (adds_incident {db} i fresh links fits) =
    (stays _, stays _, stays _, has_id-cons (λ i. i.id) i db.incidents, stays _)
Write-Keeps (adds_action {db} a fresh links fits) =
    (stays _, stays _, stays _, stays _, has_id-cons (λ a. a.id) a db.actions)
Write-Keeps (adds_record r fresh unique links fits) = (stays _, stays _, stays _, stays _, stays _)
Write-Keeps (adds_check c fresh fits) = (stays _, stays _, stays _, stays _, stays _)
Write-Keeps (adds_job j fresh) = (stays _, stays _, stays _, stays _, stays _)
Write-Keeps (logs l fresh) = (stays _, stays _, stays _, stays _, stays _)
Write-Keeps (marks_assets {db} p status) = (
  λ k. has_id-update_where (λ a. a.id) p _ db.assets k (λ x e. refl),
  stays _,
  stays _,
  stays _,
  stays _,
)
Write-Keeps (saves_action {db} a links fits) = (
  stays _,
  stays _,
  stays _,
  stays _,
  λ k. has_id-update_where (λ x. x.id) _ (λ _. a) db.actions k (λ x e. ground (arith, e)),
)
Write-Keeps (saves_check c fits) = (stays _, stays _, stays _, stays _, stays _)
Write-Keeps (refills p f keep) = (stays _, stays _, stays _, stays _, stays _)

Points-Grows : (has has' : ℕ → Bool) (o : Option ℕ) → Grows has has' → Points has o → Points has' o
Points-Grows has has' none grows h = tt
Points-Grows has has' (some k) grows h = grows k h

pub RecordLinks-Keeps :
    (db db' : Database) (r : IdempotencyRecord)
    → Keeps db db'
    → RecordLinks db r
    → RecordLinks db' r
RecordLinks-Keeps db db' r (_, _, ev, inc, act) (e, i, a) = (
  Points-Grows (has_event db) (has_event db') r.event_id ev e,
  Points-Grows (has_incident db) (has_incident db') r.incident_id inc i,
  Points-Grows (has_action db) (has_action db') r.action_id act a,
)

-- A key that was there stays there.
pub Writes-Keeps : {db db' : Database} → Writes db db' → Keeps db db'
Writes-Keeps unchanged = (stays _, stays _, stays _, stays _, stays _)
Writes-Keeps (then_write ws w) =
    let (a, r, e, i, c) = Writes-Keeps ws in
    let (a', r', e', i', c') = Write-Keeps w in
    (
      λ k h. a' k (a k h),
      λ k h. r' k (r k h),
      λ k h. e' k (e k h),
      λ k h. i' k (i k h),
      λ k h. c' k (c k h),
    )
