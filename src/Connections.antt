-- ===== src/Connections.antt =====
-- core/database.py: how the engine and the session factory are built, from the settings of
-- core/settings.py that they read. `create_all` of SQLAlchemy is an argument.
pub mod Tables
use text.Mathlib.Text.{starts_with}
use support_operations_intel.Prelude.{
  [], ◌∷◌, Bool, true, false, ◌&&◌, if◌then◌else◌, List, Option, none, some, String, str_eq,
  or_text,
}
use support_operations_intel.Migrations.{Schema, run_migrations}

pub record DatabaseSettings : Type 0 where
  pub database_url : String
  pub sqlite_mode : String

abbrev pub default_database_settings : DatabaseSettings
default_database_settings = record {
  database_url = "sqlite:///./support_ops_demo.sqlite3";
  sqlite_mode = "standard";
}

-- What `create_engine` is called with, and what each new connection runs.
pub record EngineOptions : Type 0 where
  pub url : String
  -- `check_same_thread`, where it is given.
  pub check_same_thread : Option Bool
  pub static_pool : Bool
  pub on_connect : List String

abbrev pub is_sqlite : String → Bool
is_sqlite url = starts_with url "sqlite"

-- `build_engine`
unfoldable pub build_engine : DatabaseSettings → Option String → EngineOptions
build_engine settings database_url =
    let url = or_text database_url settings.database_url in
    record {
      url = url;
      check_same_thread = if is_sqlite url then some false else none;
      static_pool = str_eq url "sqlite:///:memory:";
      on_connect =
          if is_sqlite url && str_eq settings.sqlite_mode "wal"
          then "PRAGMA busy_timeout=30000" ∷ "PRAGMA journal_mode=WAL" ∷ "PRAGMA synchronous=NORMAL"
            ∷ "PRAGMA temp_store=MEMORY" ∷ []
          else if is_sqlite url
          then "PRAGMA busy_timeout=30000" ∷ []
          else [];
    }

-- `create_session_factory`: the engine of the sessions, and the schema of its database after the
-- call, or none where the migrations raise
unfoldable pub create_session_factory :
    (Schema → Schema) → DatabaseSettings → Option String → Schema → Option (EngineOptions × Schema)
unfolding build_engine run_migrations
create_session_factory create_all settings database_url schema =
    elim (run_migrations (create_all schema)) [
      | none ↦ none
      | some after ↦ some (build_engine settings database_url, after)
    ]

-- A class of models.py with a table: `__tablename__` and the mapped columns.
pub record Model : Type 0 where
  pub table_name : String
  pub columns : List String

abbrev pub models : List Model
models =
    record {
      table_name = "assets";
      columns = "id" ∷ "external_id" ∷ "name" ∷ "group" ∷ "status" ∷ [];
    }
    ∷ record {
      table_name = "automation_rules";
      columns =
          "id" ∷ "name" ∷ "category" ∷ "minimum_severity" ∷ "cooldown_minutes" ∷ "action_type"
          ∷ "enabled" ∷ [];
    }
    ∷ record {
      table_name = "operational_events";
      columns =
          "id" ∷ "asset_id" ∷ "source" ∷ "category" ∷ "severity" ∷ "message" ∷ "correlation_id"
          ∷ "created_at" ∷ [];
    }
    ∷ record {
      table_name = "incidents";
      columns =
          "id" ∷ "asset_id" ∷ "rule_id" ∷ "event_id" ∷ "state" ∷ "summary" ∷ "created_at"
          ∷ "updated_at" ∷ [];
    }
    ∷ record {
      table_name = "actions";
      columns =
          "id" ∷ "incident_id" ∷ "action_type" ∷ "state" ∷ "attempts" ∷ "detail" ∷ "next_attempt_at"
          ∷ "lease_id" ∷ "leased_at" ∷ "created_at" ∷ "updated_at" ∷ [];
    }
    ∷ record {
      table_name = "audit_logs";
      columns = "id" ∷ "event_type" ∷ "entity_type" ∷ "entity_id" ∷ "message" ∷ "created_at" ∷ [];
    }
    ∷ record {
      table_name = "idempotency_records";
      columns =
          "id" ∷ "key" ∷ "event_id" ∷ "incident_id" ∷ "action_id" ∷ "skipped_reason" ∷ "hits"
          ∷ "created_at" ∷ "updated_at" ∷ [];
    }
    ∷ record {
      table_name = "job_runs";
      columns = "id" ∷ "name" ∷ "status" ∷ "detail" ∷ "started_at" ∷ "finished_at" ∷ [];
    }
    ∷ record {
      table_name = "check_runs";
      columns =
          "id" ∷ "name" ∷ "asset_external_id" ∷ "state" ∷ "detail" ∷ "confirmation_due_at"
          ∷ "created_at" ∷ "updated_at" ∷ [];
    }
    ∷ []

-- The columns of the class with a table of the name, if there is one.
abbrev pub columns_of : List Model → String → Option (List String)
columns_of [] table = none
columns_of (m ∷ rest) table =
    if str_eq m.table_name table then some m.columns else columns_of rest table
