-- ===== src/Models/Database.antt =====
-- The database as a value, and what runs on it: a call reads and writes the rows and may raise.
-- The rows that a call wrote stay written when it raises, until the session is rolled back.
use support_operations_intel.Prelude.{ℕ, Option, none, some, List, [], String}
use support_operations_intel.Models.Tables.{
  Asset, AutomationRule, OperationalEvent, Incident, Action, AuditLog, IdempotencyRecord, JobRun,
  CheckRun,
}

pub record Database : Type 0 where
  pub assets : List Asset
  pub automation_rules : List AutomationRule
  pub operational_events : List OperationalEvent
  pub incidents : List Incident
  pub actions : List Action
  pub audit_logs : List AuditLog
  pub idempotency_records : List IdempotencyRecord
  pub job_runs : List JobRun
  pub check_runs : List CheckRun

abbrev pub empty_database : Database
empty_database = record {
  assets = [];
  automation_rules = [];
  operational_events = [];
  incidents = [];
  actions = [];
  audit_logs = [];
  idempotency_records = [];
  job_runs = [];
  check_runs = [];
}

-- The exceptions that the code raises or catches.
pub data Exception : Type 0 where
  unknown_asset : String → Exception
  missing_event : Exception
  idempotency_timeout : Exception
  integrity_error : Exception
  invalid_check_transition : String → Exception
  invalid_max_attempts : Exception
  unpack_error : Exception
  validation_error : Exception
  key_error : Exception
  http_error : ℕ → String → Exception
  transport_error : String → Exception

pub data Result {ℓ} (A : Type ℓ) : Type ℓ where
  ok : A → Result A
  raised : Exception → Result A

abbrev pub Session : Type 0 → Type 0
Session A = Database → Result A × Database

module _ {A : Type 0} where
  abbrev pub pure : A → Session A
  pure a db = (ok a, db)

  abbrev pub raise : Exception → Session A
  raise e db = (raised e, db)

  abbrev pub gets : (Database → A) → Session A
  gets f db = (ok (f db), db)

  abbrev pub or_raise : Option A → Exception → Session A
  or_raise none e = raise e
  or_raise (some a) e = pure a

module _ {A B : Type 0} where
  abbrev pub and_then : Result A → (A → Session B) → Session B
  and_then (ok a) f db = f a db
  and_then (raised e) f db = (raised e, db)

  infixl 5 ◌>>=◌ ◌>>◌
  abbrev pub ◌>>=◌ : Session A → (A → Session B) → Session B
  ◌>>=◌ m f db = let (r, db') = m db in and_then r f db'

  abbrev pub ◌>>◌ : Session A → Session B → Session B
  m >> k = m >>= λ _. k

abbrev pub modify : (Database → Database) → Session (Unit {0})
modify f db = (ok tt, f db)

-- A session that a savepoint committed in part: if the body raises, the database is what was
-- committed.
abbrev pub session_scope_from : {A : Type 0} → Database → Session A → Session A
session_scope_from committed body db =
    let (r, db') = body db in elim r [ ok a ↦ (ok a, db') | raised e ↦ (raised e, committed) ]

-- `get_session` of api/app.py, and `session_scope` of core/database.py: the changes are kept if the
-- body returns, and dropped if it raises; the exception passes on. The body commits nothing itself.
unfoldable pub session_scope : {A : Type 0} → Session A → Session A
session_scope body db =
    let (r, db') = body db in elim r [ ok a ↦ (ok a, db') | raised e ↦ (raised e, db) ]
