-- ===== src/Migrations/Upgrade.antt =====
-- What a run of the migrations leaves.
use support_operations_intel.Migrations.{
  migrate_from, Schema, run_migrations, ensure_table, names_column,
}
use support_operations_intel.Prelude.{
  refl, some, ◌∙◌, none, ap, true, false, ltb, is_some, ◌≡◌, List, String, Bool, Option, ℕ,
}

abbrev pub holds_column : String → Option (List String) → Bool
holds_column column none = false
holds_column column (some columns) = names_column column columns

-- The table is there, and has the column.
abbrev pub has_column : Schema → String → String → Bool
has_column schema table column = holds_column column (schema.tables table)

-- No table comes or goes, and no column goes.
pub record Grows (before after : Schema) : Type 0 where
  pub same_tables : (table : String) → is_some (after.tables table) ≡ is_some (before.tables table)
  pub keeps :
      (table column : String)
      → has_column before table column ≡ true
      → has_column after table column ≡ true

pub Grows-refl : (schema : Schema) → Grows schema schema
Grows-refl schema = record { same_tables = λ table. refl; keeps = λ table column h. h }

pub Grows-trans : (a b c : Schema) → Grows a b → Grows b c → Grows a c
Grows-trans a b c first second = record {
  same_tables = λ table. second.same_tables table ∙ first.same_tables table;
  keeps = λ table column h. second.keeps table column (first.keeps table column h);
}

-- One step returns: the tables grow by the column at most, and the table has it if it is there.
pub record Adds (table column : String) (before after : Schema) : Type 0 where
  pub same_version : after.version ≡ before.version
  pub grows : Grows before after
  pub adds : is_some (before.tables table) ≡ true → has_column after table column ≡ true

-- The columns of the first version, on the tables that have them.
abbrev pub IsReady : Schema → Type 0
IsReady schema =
    (is_some (schema.tables "operational_events") ≡ true
      → has_column schema "operational_events" "correlation_id" ≡ true)
    × (is_some (schema.tables "actions") ≡ true
        → (has_column schema "actions" "next_attempt_at" ≡ true)
          × (has_column schema "actions" "lease_id" ≡ true)
          × (has_column schema "actions" "leased_at" ≡ true))

-- A run on the version of the code changes nothing.
pub run_migrations_current :
    (schema : Schema) (version : ℕ)
    → schema.version ≡ some version
    → ltb version 1 ≡ false
    → run_migrations schema ≡ some schema
unfolding run_migrations ensure_table migrate_from
run_migrations_current schema version stored new =
    let ensured : ensure_table schema ≡ schema =
      ap
        (λ (v : Option ℕ). elim v as (λ _. Schema) [
          | none ↦ record schema { version = some 0 }
          | some w ↦ schema
        ])
        stored in
    ap (λ s. migrate_from s.version s) ensured
    ∙ ap (λ v. migrate_from v schema) stored
    ∙ rw (new, migrate_from) refl

-- What a run from version 0 leaves.
abbrev pub Migrates : Schema → Schema → Type 0
Migrates schema after =
    (run_migrations schema ≡ some after)
    × (after.version ≡ some 1)
    × IsReady after
    × Grows schema after
