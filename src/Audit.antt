-- ===== src/Audit.antt =====
-- modules/audit: AuditService passes an entry on to postgres-audit.repository.ts, inside the
-- transaction of the change. An entry is kept with its actor, company, action and entity.
use voyagi.Prelude.{ℕ, Bool, Option, [], ◌∷◌, ◌++◌, if◌then◌else◌}
use voyagi.Store.Rows.{AuditAction}
use voyagi.Store.Monad.{ok, M}

-- `await this.audit?.append(tx, …)`, where the writer may be absent.
unfoldable pub append_audit : Bool → Option ℕ → ℕ → AuditAction → ℕ → M (Unit {0})
append_audit bound actor company action entity db = (
  ok tt,
  if bound
      then record db {
        audit =
            db.audit
            ++ record {
              actor_user_id = actor;
              company_id = company;
              action = action;
              entity_id = entity;
            }
              ∷ [];
      }
      else db,
)
