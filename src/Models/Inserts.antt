-- ===== src/Models/Inserts.antt =====
-- `session.add(AuditLog(…))` and the flush that gives the row its key: every part writes the log
-- by this call.
use support_operations_intel.Prelude.{ℕ, ◌∷◌, map, String}
use support_operations_intel.Models.Tables.{AuditLog}
use support_operations_intel.Models.Database.{Database, Session, modify}
use support_operations_intel.Models.Engine.{Engine}

module _ (engine : Engine) (now : ℕ) where
  abbrev pub audit_row : Database → String → String → ℕ → String → AuditLog
  audit_row db event_type entity_type entity_id message = record {
    id = engine.next_id (map (λ a. a.id) db.audit_logs);
    event_type = event_type;
    entity_type = entity_type;
    entity_id = entity_id;
    message = message;
    created_at = now;
  }

  unfoldable pub audit : String → String → ℕ → String → Session (Unit {0})
  audit event_type entity_type entity_id message = modify λ db. record db {
    audit_logs = audit_row db event_type entity_type entity_id message ∷ db.audit_logs;
  }
