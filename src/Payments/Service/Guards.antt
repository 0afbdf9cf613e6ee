-- ===== src/Payments/Service/Guards.antt =====
-- payments.service.ts: what its calls share: the fail-safe guard, the audit entry and the scope of
-- a company.
use voyagi.Prelude.{ℕ, not, Option, ltb, length}
use voyagi.Identity.Identifier.{Text, uuid_of, bigint_of}
use voyagi.Identity.Roles.{Permission}
use voyagi.Identity.Access.{resolve_entitlements}
use voyagi.Identity.Scope.{AccessScope, access_scope}
use voyagi.Store.Rows.{AuditAction}
use voyagi.Store.Monad.{
  M, pure, gets, or_throw, throw_if, ◌>>=◌, payment_not_found, payment_provider_unavailable,
  payment_forbidden,
}
use voyagi.Audit.{append_audit}
use voyagi.Payments.Repository.{find_memberships}
use voyagi.Payments.Service.Inputs.{PaymentsService}

module _ (s : PaymentsService) where
  unfoldable pub assert_payments_enabled : M (Unit {0})
  assert_payments_enabled = throw_if (not (ltb 0 (length s.providers))) payment_provider_unavailable

  unfoldable pub audit : Option ℕ → ℕ → AuditAction → ℕ → M (Unit {0})
  unfolding append_audit
  audit actor company action entity = append_audit s.audits actor company action entity

  abbrev pub Scoped : Type 0
  Scoped = ℕ × AccessScope

  unfoldable pub company_scope : Text → Text → Permission → M (ℕ × Scoped)
  company_scope actor_user_id company_id permission = do
    actor ← or_throw (uuid_of actor_user_id) payment_forbidden
    company ← or_throw (bigint_of company_id) payment_not_found
    memberships ← gets (find_memberships actor company)
    pure (actor, (company, access_scope (resolve_entitlements memberships) permission))
