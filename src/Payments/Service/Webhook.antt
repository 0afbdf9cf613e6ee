-- ===== src/Payments/Service/Webhook.antt =====
-- payments.service.ts: `handleWebhook`.
use voyagi.Prelude.{ℕ, Bool, true, false, ◌||◌, not, none, some, find, ◌==◌, if◌then◌else◌}
use voyagi.Store.Enums.{PaymentStatus, succeeded, failed}
use voyagi.Store.Monad.{
  M, pure, gets, or_throw, throw_if, transaction, ◌>>=◌, ◌>>◌, payment_not_found,
  payment_method_not_allowed, webhook_signature_invalid,
}
use voyagi.Payments.Machine.{can_transition_payment}
use voyagi.Payments.Types.{
  LockedPayment, TransitionPaymentParams, ProviderEvent, ProviderEventOutcome, event_succeeded,
  event_failed, WebhookRequest, PaymentProvider,
}
use voyagi.Payments.Repository.{lock_payment, transition_payment}
use voyagi.Payments.Service.Inputs.{PaymentsService}
use voyagi.Payments.Service.Guards.{assert_payments_enabled}
use voyagi.Payments.Service.Settlement.{settle}

module _ (s : PaymentsService) where
  -- The stored provider reference differs from the event's, or the amount or currency does.
  unfoldable pub mismatches : LockedPayment → ProviderEvent → Bool
  mismatches locked e =
      elim locked.provider_reference [ none ↦ false | some r ↦ not (r == e.provider_reference) ]
      || not (e.amount == locked.amount)
      || not (e.currency == locked.currency)

  abbrev pub target_of : ProviderEventOutcome → PaymentStatus
  target_of event_succeeded = succeeded
  target_of event_failed = failed

  abbrev pub failure_of : LockedPayment → ℕ → TransitionPaymentParams
  failure_of locked reference = record {
    payment_id = locked.id;
    from = locked.status;
    to = failed;
    provider_reference = some reference;
    confirmed_by_user_id = none;
    set_paid_at = false;
  }

  unfoldable pub apply_outcome : LockedPayment → ℕ → ProviderEventOutcome → M (Unit {0})
  apply_outcome locked reference event_succeeded = do
    settle s locked locked.status none (some reference)
    pure tt
  apply_outcome locked reference event_failed = do
    transition_payment s.now (failure_of locked reference)
    pure tt

  unfoldable pub apply_event : LockedPayment → ProviderEvent → M (Unit {0})
  apply_event locked e =
      if not (can_transition_payment locked.status (target_of e.outcome))
      then pure tt
      else apply_outcome locked e.provider_reference e.outcome

  unfoldable pub webhook_work : PaymentProvider → ProviderEvent → M (Unit {0})
  webhook_work provider e = do
    found ← gets (lock_payment (λ p. p.internal_reference == e.internal_reference) (λ b. true))
    locked ← or_throw found payment_not_found
    throw_if (not (provider.handles_method locked.method)) payment_not_found
    throw_if (mismatches locked e) payment_method_not_allowed
    apply_event locked e

  unfoldable pub handle_webhook : ℕ → WebhookRequest → M (Unit {0})
  handle_webhook provider_name request = do
    assert_payments_enabled s
    provider ← or_throw (find (λ p. p.name == provider_name) s.providers) payment_not_found
    e ← or_throw (provider.verify_and_parse request) webhook_signature_invalid
    transaction (webhook_work provider e)
