-- ===== src/Payments/Service/Creation.antt =====
-- payments.service.ts: `createPassengerPayment` and `createCompanyPayment`.
use voyagi.Prelude.{
  ℕ, zero, suc, ◌+◌, Bool, true, false, ◌&&◌, not, [], Option, none, some, find, if◌then◌else◌,
}
use voyagi.Identity.Identifier.{Text, uuid_of}
use voyagi.Identity.Roles.{payments_confirm}
use voyagi.Store.Enums.{
  PaymentMethod, is_online_method, pending, processing, is_payable_status, payment_pending,
}
use voyagi.Store.Rows.{BookingRow}
use voyagi.Store.Monad.{
  M, pure, throw, gets, or_throw, throw_if, transaction, ◌>>=◌, ◌>>◌, payment_not_found,
  payment_booking_not_found, booking_not_payable, payment_method_not_allowed,
  payment_idempotency_conflict, payment_reference_unavailable, invalid_idempotency_key,
}
use voyagi.Payments.Types.{
  PayableBooking, Payment, TransitionPaymentParams, IdempotencyClaim, claimed, conflict, replay,
}
use voyagi.Payments.Repository.{
  owned_by, company_visible, find_payable, claim_idempotency, complete_idempotency, is_unexpired,
  insert_payment, find_payment, transition_payment, append_booking_event,
}
use voyagi.Payments.Service.Inputs.{CreatePaymentInput, key_of, PaymentsService}
use voyagi.Payments.Service.Guards.{assert_payments_enabled, company_scope}

module _ (s : PaymentsService) where
  unfoldable pub validate_create : Text → Option Text → CreatePaymentInput → M (ℕ × ℕ × ℕ)
  validate_create actor_user_id idempotency_key input = do
    actor ← or_throw (uuid_of actor_user_id) payment_booking_not_found
    key ← or_throw (key_of idempotency_key) invalid_idempotency_key
    booking ← or_throw (uuid_of input.booking_id) payment_booking_not_found
    pure (actor, key, booking)

  unfoldable pub is_booking_payable : PayableBooking → Bool
  is_booking_payable b = is_payable_status b.status && is_unexpired b.expires_at s.app_now

  -- The loop over the attempts that are left; an attempt that succeeds ends it.
  unfoldable pub or_next : Option ℕ → ℕ → M (Option (ℕ × ℕ)) → M (Option (ℕ × ℕ))
  or_next none reference rest = rest
  or_next (some id) reference rest = pure (some (id, reference))

  unfoldable pub allocate : ℕ → ℕ → ℕ → PaymentMethod → M (Option (ℕ × ℕ))
  allocate zero attempt booking method = pure none
  allocate (suc left) attempt booking method = do
    inserted ← insert_payment s.now booking method (s.generate_reference attempt)
    or_next inserted (s.generate_reference attempt) (allocate left (attempt + 1) booking method)

  abbrev pub processing_of : ℕ → ℕ → TransitionPaymentParams
  processing_of payment reference = record {
    payment_id = payment;
    from = pending;
    to = processing;
    provider_reference = some reference;
    confirmed_by_user_id = none;
    set_paid_at = false;
  }

  -- The block under `if (isOnlineMethod(input.method))`.
  unfoldable pub initiate_online : PayableBooking → PaymentMethod → ℕ → ℕ → M (Unit {0})
  initiate_online b method payment reference =
      if is_online_method method
      then (do
        p ← or_throw (find (λ c. c.handles_method method) s.providers) payment_method_not_allowed
        transition_payment s.now
            (processing_of payment (p.initiate method reference b.total_amount b.currency))
        pure tt)
      else pure tt

  -- `loadPayment`: the owner's clause, or the company's with the whole company in scope.
  unfoldable pub load_payment : (BookingRow → Bool) → ℕ → M Payment
  load_payment reach payment = do
    found ← gets (find_payment reach payment)
    or_throw found payment_not_found

  unfoldable pub create_new :
      PayableBooking → ℕ → ℕ → PaymentMethod → (BookingRow → Bool) → M Payment
  create_new b actor key method reach = do
    throw_if (not (is_booking_payable b)) booking_not_payable
    allocated ← allocate 3 0 b.booking_id method
    pair ← or_throw allocated payment_reference_unavailable
    append_booking_event b.booking_id b.company_id (some actor) payment_pending
    initiate_online b method pair.0 pair.1
    complete_idempotency s.now b.company_id actor key b.booking_id pair.0
    load_payment reach pair.0

  -- The branches on `claim.kind`.
  unfoldable pub after_claim :
      PayableBooking → ℕ → ℕ → PaymentMethod → (BookingRow → Bool) → IdempotencyClaim → M Payment
  after_claim b actor key method reach claimed = create_new b actor key method reach
  after_claim b actor key method reach conflict = throw payment_idempotency_conflict
  after_claim b actor key method reach (replay payment) = load_payment reach payment

  unfoldable pub create_claimed :
      PayableBooking → ℕ → ℕ → ℕ → PaymentMethod → (BookingRow → Bool) → M Payment
  create_claimed b actor key fingerprint method reach = do
    claim ← claim_idempotency s.now b.company_id actor key fingerprint
    after_claim b actor key method reach claim

  unfoldable pub create_passenger_payment : Text → Option Text → CreatePaymentInput → M Payment
  create_passenger_payment actor_user_id idempotency_key input = do
    assert_payments_enabled s
    v ← validate_create actor_user_id idempotency_key input
    throw_if (not (is_online_method input.method)) payment_method_not_allowed
    transaction (do
      found ← gets (find_payable (owned_by v.0) v.2)
      b ← or_throw found payment_booking_not_found
      create_claimed b v.0 v.1
          (s.fingerprint (record {
            actor = v.0;
            company = none;
            booking_id = input.booking_id;
            method = input.method;
          }))
          input.method (owned_by v.0))

  unfoldable pub create_company_payment : Text → Text → Option Text → CreatePaymentInput → M Payment
  create_company_payment actor_user_id company_id idempotency_key input = do
    assert_payments_enabled s
    v ← validate_create actor_user_id idempotency_key input
    c ← company_scope s actor_user_id company_id payments_confirm
    transaction (do
      found ← gets (find_payable (company_visible c.1.0 c.1.1) v.2)
      b ← or_throw found payment_booking_not_found
      create_claimed b v.0 v.1
          (s.fingerprint (record {
            actor = v.0;
            company = some c.1.0;
            booking_id = input.booking_id;
            method = input.method;
          }))
          input.method
          (company_visible b.company_id (record { company_wide_scope = true; branch_ids = [] })))
