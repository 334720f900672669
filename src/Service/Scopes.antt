-- ===== src/Service/Scopes.antt =====
-- What a session, a handler and an answer make of the writes of a body.
use support_operations_intel.Api.{on_error}
use support_operations_intel.Api.Desk.{map_ok}
use support_operations_intel.Models.Database.{
  raised, ok, Result, Exception, Session, session_scope, session_scope_from, Database,
}

module _ {A : Type 0} where
  -- What holds before the body and after it holds after its session.
  pub session_scope-keeps :
      (P : Database → Type 0) (body : Session A) (db : Database)
      → P db
      → P (body db).1
      → P (session_scope body db).1
  unfolding session_scope
  session_scope-keeps P body db before after = ends (body db) after
    where
      ends :
          (out : Result A × Database)
          → P out.1
          → P
              (let r : Result A × Database = elim out.0 [
                | ok a ↦ (ok a, out.1)
                | raised e ↦ (raised e, db)
              ] in
                r).1
      ends (ok a, d) h = h
      ends (raised e, d) h = before

  pub session_scope_from-keeps :
      (P : Database → Type 0) (committed : Database) (body : Session A) (db : Database)
      → P committed
      → P (body db).1
      → P (session_scope_from committed body db).1
  session_scope_from-keeps P committed body db before after = ends (body db) after
    where
      ends :
          (out : Result A × Database)
          → P out.1
          → P
              (let r : Result A × Database = elim out.0 [
                | ok a ↦ (ok a, out.1)
                | raised e ↦ (raised e, committed)
              ] in
                r).1
      ends (ok a, d) h = h
      ends (raised e, d) h = before

  pub on_error-keeps :
      (P : Database → Type 0) (handle : Exception → Exception) (body : Session A) (db : Database)
      → P (body db).1
      → P (on_error handle body db).1
  on_error-keeps P handle body db after = ends (body db) after
    where
      ends : (out : Result A × Database) → P out.1 → P (on_error handle (λ _. out) db).1
      ends (ok a, d) h = h
      ends (raised e, d) h = h

module _ {A B : Type 0} where
  pub map_ok-keeps :
      (P : Database → Type 0) (f : A → B) (body : Session A) (db : Database)
      → P (body db).1
      → P (map_ok f body db).1
  map_ok-keeps P f body db after = ends (body db) after
    where
      ends : (out : Result A × Database) → P out.1 → P (map_ok f (λ _. out) db).1
      ends (ok a, d) h = h
      ends (raised e, d) h = h
