-- ===== src/Connections/Tables.antt =====
-- The schema that a session of core/database.py finds.
use support_operations_intel.Prelude.{◌||◌, Bool, true, List, none, some, String, ◌≡◌, is_some}
use support_operations_intel.Migrations.{Schema}
use support_operations_intel.Migrations.Upgrade.{holds_column, has_column, IsReady}
use support_operations_intel.Connections.{columns_of, models}

-- What SQLAlchemy documents of `create_all`: each table that is missing is created, with the columns
-- of its class; the tables that are there are left as they are, whatever their columns.
pub record CreatesAll (create_all : Schema → Schema) : Type 0 where
  pub creates :
      (schema : Schema) (table : String)
      → schema.tables table ≡ none
      → (create_all schema).tables table ≡ columns_of models table
  pub leaves :
      (schema : Schema) (table : String) (columns : List String)
      → schema.tables table ≡ some columns
      → (create_all schema).tables table ≡ some columns
  pub same_version : (schema : Schema) → (create_all schema).version ≡ schema.version

-- What the first call leaves, of a database that was fresh or of an older version.
pub record Prepared (schema after : Schema) : Type 0 where
  -- The tables of the classes and those that were there, and no other.
  pub same_tables :
      (table : String)
      → is_some (after.tables table)
        ≡ (is_some (schema.tables table) || is_some (columns_of models table))
  -- A table that was missing has every column of its class.
  pub new_tables :
      (table column : String)
      → schema.tables table ≡ none
      → holds_column column (columns_of models table) ≡ true
      → has_column after table column ≡ true
  -- A table that was there keeps every column.
  pub old_tables :
      (table column : String)
      → has_column schema table column ≡ true
      → has_column after table column ≡ true
  pub ready : IsReady after
  pub version : after.version ≡ some 1
