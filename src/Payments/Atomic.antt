-- ===== src/Payments/Atomic.antt =====
-- A call that throws changes nothing, and without a provider every call throws.
use voyagi.Prelude.{[], Option, ◌≡◌, refl}
use voyagi.Identity.Identifier.{Text}
use voyagi.Identity.Roles.{Permission}
use voyagi.Store.Rows.{Db}
use voyagi.Store.Monad.{err, payment_provider_unavailable, notation}
use voyagi.Store.Keeps.{Keeps, keeping}
use voyagi.Store.Atomic.{
  Same, Same-preorder, IsAtomic, IsAtomic-transaction, IsAtomic-forget, IsAtomic->>=, IsAtomic->>,
}
use voyagi.Payments.Service.{
  PaymentsService, CreatePaymentInput, assert_payments_enabled, company_scope, validate_create,
  create_passenger_payment, create_company_payment, confirm_cash_payment, refund_payment,
  handle_webhook,
}
use voyagi.Payments.Calls.{
  Call, passenger_payment, company_payment, cash_confirmation, refund, webhook, serve,
}

ruleset atomic = (keeping, Same-preorder, IsAtomic-transaction, IsAtomic->>=, IsAtomic->>)

module _ (s : PaymentsService) where
  enabled-Same : Keeps Same (assert_payments_enabled s)
  unfolding assert_payments_enabled
  enabled-Same = search (keeping, Same-preorder)

  company_scope-Same : (a c : Text) (p : Permission) → Keeps Same (company_scope s a c p)
  unfolding company_scope
  company_scope-Same a c p = search (keeping, Same-preorder) depth 12

  validate-Same :
      (a : Text) (key : Option Text) (i : CreatePaymentInput)
      → Keeps Same (validate_create s a key i)
  unfolding validate_create
  validate-Same a key i = search (keeping, Same-preorder) depth 12

  passenger-IsAtomic :
      (a : Text) (key : Option Text) (i : CreatePaymentInput)
      → IsAtomic (create_passenger_payment s a key i)
  unfolding create_passenger_payment
  passenger-IsAtomic a key i = search (atomic, enabled-Same, validate-Same) depth 20

  company-IsAtomic :
      (a c : Text) (key : Option Text) (i : CreatePaymentInput)
      → IsAtomic (create_company_payment s a c key i)
  unfolding create_company_payment
  company-IsAtomic a c key i =
      search (atomic, enabled-Same, validate-Same, company_scope-Same) depth 20

  confirm_cash-IsAtomic : (a c p : Text) → IsAtomic (confirm_cash_payment s a c p)
  unfolding confirm_cash_payment
  confirm_cash-IsAtomic a c p = search (atomic, enabled-Same, company_scope-Same) depth 20

  refund-IsAtomic : (a c p : Text) → IsAtomic (refund_payment s a c p)
  unfolding refund_payment
  refund-IsAtomic a c p = search (atomic, enabled-Same, company_scope-Same) depth 20

  pub serve-IsAtomic : (c : Call) → IsAtomic (serve s c)
  unfolding serve handle_webhook
  serve-IsAtomic (passenger_payment a key i) = IsAtomic-forget _ (passenger-IsAtomic a key i)
  serve-IsAtomic (company_payment a c key i) = IsAtomic-forget _ (company-IsAtomic a c key i)
  serve-IsAtomic (cash_confirmation a c p) = IsAtomic-forget _ (confirm_cash-IsAtomic a c p)
  serve-IsAtomic (refund a c p) = IsAtomic-forget _ (refund-IsAtomic a c p)
  serve-IsAtomic (webhook name r) = search (atomic, enabled-Same) depth 20

  -- Where no provider is configured, every call throws `PAYMENT_PROVIDER_UNAVAILABLE`, and the
  -- database stays as it is.
  pub serve_disabled :
      (c : Call) (db : Db)
      → s.providers ≡ []
      → serve s c db ≡ (err payment_provider_unavailable, db)
  unfolding serve create_passenger_payment create_company_payment confirm_cash_payment
      refund_payment handle_webhook assert_payments_enabled notation
  serve_disabled (passenger_payment a key i) db h = rw h refl
  serve_disabled (company_payment a c key i) db h = rw h refl
  serve_disabled (cash_confirmation a c p) db h = rw h refl
  serve_disabled (refund a c p) db h = rw h refl
  serve_disabled (webhook name r) db h = rw h refl
