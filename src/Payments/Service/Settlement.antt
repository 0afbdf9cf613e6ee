-- ===== src/Payments/Service/Settlement.antt =====
-- payments.service.ts: `settle`, `confirmCashPayment` and `refundPayment`.
use voyagi.Prelude.{ℕ, Bool, true, false, not, Option, none, some, ◌==◌, if◌then◌else◌}
use voyagi.Identity.Identifier.{Text, uuid_of}
use voyagi.Identity.Roles.{payments_confirm, payments_refund}
use voyagi.Store.Enums.{
  cash, is_method, PaymentStatus, pending, succeeded, refunded, is_payment, payment_confirmed,
  refund_created, refund_completed, CommissionStatus, commission_pending, earned, paid,
  commission_cancelled,
}
use voyagi.Store.Rows.{
  CommissionRow, payment_succeeded, payment_refunded, commission_earned,
  commission_manual_reconciliation_required,
}
use voyagi.Store.Monad.{
  M, pure, gets, or_throw, throw_if, on_unique, transaction, ◌>>=◌, ◌>>◌, payment_not_found,
  payment_already_settled, payment_not_confirmable, payment_not_refundable,
  payment_method_not_allowed,
}
use voyagi.Commissions.{create_eligible, apply_full_refund}
use voyagi.Payments.Types.{Payment, LockedPayment, TransitionPaymentParams}
use voyagi.Payments.Repository.{
  company_visible, lock_payment, transition_payment, confirm_booking_paid, append_booking_event,
}
use voyagi.Payments.Service.Inputs.{PaymentsService}
use voyagi.Payments.Service.Guards.{assert_payments_enabled, audit, company_scope}

module _ (s : PaymentsService) where
  abbrev pub success_of :
      LockedPayment → PaymentStatus → Option ℕ → Option ℕ → TransitionPaymentParams
  success_of locked from actor reference = record {
    payment_id = locked.id;
    from = from;
    to = succeeded;
    provider_reference = reference;
    confirmed_by_user_id = actor;
    set_paid_at = true;
  }

  abbrev pub is_earned : CommissionStatus → Bool
  is_earned commission_pending = false
  is_earned earned = true
  is_earned paid = false
  is_earned commission_cancelled = false

  unfoldable pub audit_earned : Option ℕ → ℕ → Option CommissionRow → M (Unit {0})
  unfolding audit
  audit_earned actor company none = pure tt
  audit_earned actor company (some c) =
      if is_earned c.status then audit s actor company commission_earned c.id else pure tt

  -- Behind the transition: the booking, the event, the commission and the audit.
  unfoldable pub after_success : LockedPayment → Option ℕ → Payment → M Payment
  after_success locked actor done = do
    confirm_booking_paid s.now locked.booking_id
    append_booking_event locked.booking_id locked.company_id actor payment_confirmed
    commission ← create_eligible s.now locked.booking_id locked.company_id
    audit s actor locked.company_id payment_succeeded done.row.id
    audit_earned actor locked.company_id commission
    pure done

  unfoldable pub settle : LockedPayment → PaymentStatus → Option ℕ → Option ℕ → M Payment
  settle locked from actor reference = do
    moved ←
        on_unique payment_already_settled
          (transition_payment s.now (success_of locked from actor reference))
    done ← or_throw moved payment_not_confirmable
    after_success locked actor done

  unfoldable pub confirm_cash_payment : Text → Text → Text → M Payment
  confirm_cash_payment actor_user_id company_id payment_id = do
    assert_payments_enabled s
    payment ← or_throw (uuid_of payment_id) payment_not_found
    c ← company_scope s actor_user_id company_id payments_confirm
    transaction (do
      found ← gets (lock_payment (λ p. p.id == payment) (company_visible c.1.0 c.1.1))
      locked ← or_throw found payment_not_found
      throw_if (not (is_method locked.method cash)) payment_method_not_allowed
      throw_if (not (is_payment locked.status pending)) payment_not_confirmable
      settle locked pending (some c.0) none)

  abbrev pub refund_of : LockedPayment → TransitionPaymentParams
  refund_of locked = record {
    payment_id = locked.id;
    from = succeeded;
    to = refunded;
    provider_reference = none;
    confirmed_by_user_id = none;
    set_paid_at = false;
  }

  abbrev pub is_paid : CommissionStatus → Bool
  is_paid commission_pending = false
  is_paid earned = false
  is_paid paid = true
  is_paid commission_cancelled = false

  unfoldable pub audit_paid : Option ℕ → ℕ → Option CommissionRow → M (Unit {0})
  unfolding audit
  audit_paid actor company none = pure tt
  audit_paid actor company (some c) =
      if is_paid c.status
      then audit s actor company commission_manual_reconciliation_required c.id
      else pure tt

  unfoldable pub refund_locked : ℕ → LockedPayment → M Payment
  refund_locked actor locked = do
    throw_if (not (is_payment locked.status succeeded)) payment_not_refundable
    moved ← transition_payment s.now (refund_of locked)
    done ← or_throw moved payment_not_refundable
    commission ← apply_full_refund s.now locked.booking_id locked.company_id
    append_booking_event locked.booking_id locked.company_id (some actor) refund_created
    append_booking_event locked.booking_id locked.company_id (some actor) refund_completed
    audit s (some actor) locked.company_id payment_refunded done.row.id
    audit_paid (some actor) locked.company_id commission
    pure done

  unfoldable pub refund_payment : Text → Text → Text → M Payment
  refund_payment actor_user_id company_id payment_id = do
    assert_payments_enabled s
    payment ← or_throw (uuid_of payment_id) payment_not_found
    c ← company_scope s actor_user_id company_id payments_refund
    transaction (do
      found ← gets (lock_payment (λ p. p.id == payment) (company_visible c.1.0 c.1.1))
      locked ← or_throw found payment_not_found
      refund_locked c.0 locked)
