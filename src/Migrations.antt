-- ===== src/Migrations.antt =====
-- core/migrations.py: the schema of a database as the columns of each table that is there, and the
-- version that is stored. What SQL raises on is none.
pub mod Upgrade
use support_operations_intel.Prelude.{
  none, ◌∷◌, any, some, ltb, Option, Bool, false, str_eq, if◌then◌else◌, List, String, ℕ,
}
use mathlib.Core.Option

pub record Schema : Type 0 where
  -- The columns of a table, or none where no table has the name.
  pub tables : String → Option (List String)
  -- The row of `schema_versions`, if it is there.
  pub version : Option ℕ

-- `BaseSchemaVersion.ensure_table`
unfoldable pub ensure_table : Schema → Schema
ensure_table schema = elim schema.version [
  | none ↦ record schema { version = some 0 }
  | some v ↦ schema
]

-- `BaseSchemaVersion.current`: `scalar_one` raises where no row is there.
abbrev pub current : Schema → Option ℕ
current schema = schema.version

-- `BaseSchemaVersion.set_current`: an UPDATE, which changes nothing where no row is there.
abbrev pub set_current : ℕ → Schema → Schema
set_current version schema = record schema { version = Option.map (λ _. version) schema.version }

abbrev pub names_column : String → List String → Bool
names_column column columns = any (λ c. str_eq c column) columns

abbrev pub put_table : String → List String → Schema → Schema
put_table table_name columns schema = record schema {
  tables = λ name. if str_eq table_name name then some columns else schema.tables name;
}

-- `ALTER TABLE … ADD COLUMN`, which raises without the table, and where it has a column of the name
unfoldable pub alter_table : String → String → Schema → Option Schema
alter_table table_name column_name schema = elim (schema.tables table_name) [
  | none ↦ none
  | some columns ↦
      if names_column column_name columns
      then none
      else some (put_table table_name (column_name ∷ columns) schema)
]

-- `_add_column_if_missing`: it returns early without the table, and with the column there.
unfoldable pub add_column_if_missing : String → String → Schema → Option Schema
unfolding alter_table
add_column_if_missing table_name column_name schema = elim (schema.tables table_name) [
  | none ↦ some schema
  | some existing ↦
      if names_column column_name existing
      then some schema
      else alter_table table_name column_name schema
]

abbrev pub and_then : Option Schema → (Schema → Option Schema) → Option Schema
and_then none step = none
and_then (some schema) step = step schema

-- `_upgrade_to_1`
unfoldable pub upgrade_to_1 : Schema → Option Schema
unfolding add_column_if_missing
upgrade_to_1 schema =
    and_then (add_column_if_missing "operational_events" "correlation_id" schema) λ second.
      and_then (add_column_if_missing "actions" "next_attempt_at" second) λ third.
        and_then (add_column_if_missing "actions" "lease_id" third)
          λ fourth. add_column_if_missing "actions" "leased_at" fourth

-- The body of `run_migrations`, with the version that `current` gives
unfoldable pub migrate_from : Option ℕ → Schema → Option Schema
unfolding upgrade_to_1
migrate_from none schema = none
migrate_from (some version) schema =
    if ltb version 1
    then and_then (upgrade_to_1 schema) (λ upgraded. some (set_current 1 upgraded))
    else some schema

-- `run_migrations`, with what it leaves, or none where it raises
unfoldable pub run_migrations : Schema → Option Schema
unfolding ensure_table migrate_from
run_migrations schema = let ensured = ensure_table schema in migrate_from (current ensured) ensured
