-- ===== src/Payments/Calls.antt =====
-- Every mutating call of PaymentsService at once: what each statement keeps, each call keeps. The
-- statements may assume what the service has checked: a change of status is in the matrix.
use voyagi.Prelude.{
  ℕ, zero, suc, ◌+◌, Bool, true, Option, none, some, ◌≡◌, refl, Bool-cases, inl, inr,
}
use voyagi.Identity.Identifier.{Text}
use voyagi.Identity.Roles.{Permission}
use voyagi.Store.Enums.{
  PaymentMethod, PaymentStatus, PaymentStatus-discrete, pending, processing, succeeded, refunded,
  BookingEventType,
}
use voyagi.Store.Rows.{Db, BookingRow, CommissionRow, AuditAction}
use voyagi.Store.Monad.{M, pure, ◌>>◌}
use voyagi.Store.Keeps.{Keeps, Keeps-pure, Keeps->>=, Keeps-if, IsPreorder, keeping}
use voyagi.Commissions.{create_eligible, apply_full_refund}
use voyagi.Payments.Machine.{can_transition_payment}
use voyagi.Payments.Types.{
  PayableBooking, Payment, LockedPayment, TransitionPaymentParams, IdempotencyClaim, claimed,
  conflict, replay, ProviderEvent, ProviderEventOutcome, event_succeeded, event_failed,
  WebhookRequest, PaymentProvider,
}
use voyagi.Payments.Repository.{
  claim_idempotency, complete_idempotency, insert_payment, transition_payment, confirm_booking_paid,
  append_booking_event,
}
use voyagi.Payments.Service.{
  PaymentsService, CreatePaymentInput, assert_payments_enabled, audit, company_scope,
  validate_create, allocate, or_next, initiate_online, after_claim, apply_outcome, load_payment,
  create_new, create_claimed, create_passenger_payment, create_company_payment, audit_earned,
  after_success, settle, confirm_cash_payment, audit_paid, refund_locked, refund_payment, target_of,
  apply_event, webhook_work, handle_webhook,
}

-- A call of the service, by its entry point.
pub data Call : Type 0 where
  passenger_payment : Text → Option Text → CreatePaymentInput → Call
  company_payment : Text → Text → Option Text → CreatePaymentInput → Call
  cash_confirmation refund : Text → Text → Text → Call
  webhook : ℕ → WebhookRequest → Call

abbrev forget : {A : Type 0} → M A → M (Unit {0})
forget m = m >> pure tt

unfoldable pub serve : PaymentsService → Call → M (Unit {0})
serve s (passenger_payment actor key input) = forget (create_passenger_payment s actor key input)
serve s (company_payment actor company key input) =
    forget (create_company_payment s actor company key input)
serve s (cash_confirmation actor company payment) =
    forget (confirm_cash_payment s actor company payment)
serve s (refund actor company payment) = forget (refund_payment s actor company payment)
serve s (webhook name request) = handle_webhook s name request

-- What the statements keep.
pub record Kept (R : Db → Db → Type 0) : Type 0 where
  pub preorder : IsPreorder R
  pub claims : (now c a k f : ℕ) → Keeps R (claim_idempotency now c a k f)
  pub completes : (now c a k b p : ℕ) → Keeps R (complete_idempotency now c a k b p)
  pub inserts : (now b : ℕ) (m : PaymentMethod) (r : ℕ) → Keeps R (insert_payment now b m r)
  pub moves :
      (now : ℕ) (params : TransitionPaymentParams)
      → can_transition_payment params.from params.to ≡ true
      → Keeps R (transition_payment now params)
  pub confirms : (now b : ℕ) → Keeps R (confirm_booking_paid now b)
  pub appends :
      (b c : ℕ) (a : Option ℕ) (t : BookingEventType) → Keeps R (append_booking_event b c a t)
  pub earns : (now b c : ℕ) → Keeps R (create_eligible now b c)
  pub reverses : (now b c : ℕ) → Keeps R (apply_full_refund now b c)
  pub audits :
      (s : PaymentsService) (a : Option ℕ) (c : ℕ) (t : AuditAction) (e : ℕ)
      → Keeps R (audit s a c t e)

module _ {R : Db → Db → Type 0} (k : Kept R) (s : PaymentsService) where
  open k use {
    preorder, claims, completes, inserts, moves, confirms, appends, earns, reverses, audits,
  }

  enabled-kept : Keeps R (assert_payments_enabled s)
  unfolding assert_payments_enabled
  enabled-kept = search (keeping, preorder)

  company_scope-kept : (a c : Text) (p : Permission) → Keeps R (company_scope s a c p)
  unfolding company_scope
  company_scope-kept a c p = search (keeping, preorder) depth 12

  validate-kept :
      (a : Text) (key : Option Text) (i : CreatePaymentInput) → Keeps R (validate_create s a key i)
  unfolding validate_create
  validate-kept a key i = search (keeping, preorder) depth 12

  or_next-kept :
      (o : Option ℕ) (r : ℕ) (rest : M (Option (ℕ × ℕ)))
      → Keeps R rest
      → Keeps R (or_next s o r rest)
  unfolding or_next
  or_next-kept none r rest h = h
  or_next-kept (some id) r rest h = search (keeping, preorder)

  allocate-kept : (left attempt b : ℕ) (m : PaymentMethod) → Keeps R (allocate s left attempt b m)
  unfolding allocate
  allocate-kept zero attempt b m = search (keeping, preorder)
  allocate-kept (suc left) attempt b m =
      Keeps->>= preorder _ _ (inserts s.now b m (s.generate_reference attempt))
        λ o. or_next-kept o _ _ (allocate-kept left (attempt + 1) b m)

  pending_processing : can_transition_payment pending processing ≡ true
  unfolding can_transition_payment PaymentStatus-discrete
  pending_processing = refl

  initiate-kept :
      (b : PayableBooking) (m : PaymentMethod) (p r : ℕ) → Keeps R (initiate_online s b m p r)
  unfolding initiate_online
  initiate-kept b m p r = search (keeping, preorder, moves, pending_processing) depth 12

  load-kept : (reach : BookingRow → Bool) (p : ℕ) → Keeps R (load_payment s reach p)
  unfolding load_payment
  load-kept reach p = search (keeping, preorder) depth 12

  create_new-kept :
      (b : PayableBooking) (a key : ℕ) (m : PaymentMethod) (reach : BookingRow → Bool)
      → Keeps R (create_new s b a key m reach)
  unfolding create_new
  create_new-kept b a key m reach =
      search (keeping, preorder, allocate-kept, appends, initiate-kept, completes, load-kept) depth
        20

  after_claim-kept :
      (b : PayableBooking) (a key : ℕ) (m : PaymentMethod) (reach : BookingRow → Bool)
      (c : IdempotencyClaim)
      → Keeps R (after_claim s b a key m reach c)
  unfolding after_claim
  after_claim-kept b a key m reach claimed = create_new-kept b a key m reach
  after_claim-kept b a key m reach conflict = search (keeping, preorder)
  after_claim-kept b a key m reach (replay p) = load-kept reach p

  create_claimed-kept :
      (b : PayableBooking) (a key f : ℕ) (m : PaymentMethod) (reach : BookingRow → Bool)
      → Keeps R (create_claimed s b a key f m reach)
  unfolding create_claimed
  create_claimed-kept b a key f m reach =
      search (keeping, preorder, claims, after_claim-kept) depth 12

  passenger-kept :
      (a : Text) (key : Option Text) (i : CreatePaymentInput)
      → Keeps R (create_passenger_payment s a key i)
  unfolding create_passenger_payment
  passenger-kept a key i =
      search (keeping, preorder, enabled-kept, validate-kept, create_claimed-kept) depth 20

  company-kept :
      (a c : Text) (key : Option Text) (i : CreatePaymentInput)
      → Keeps R (create_company_payment s a c key i)
  unfolding create_company_payment
  company-kept a c key i =
      search
        (keeping, preorder, enabled-kept, validate-kept, company_scope-kept, create_claimed-kept)
        depth 20

  audit_earned-kept :
      (a : Option ℕ) (c : ℕ) (o : Option CommissionRow) → Keeps R (audit_earned s a c o)
  unfolding audit_earned
  audit_earned-kept a c none = search (keeping, preorder)
  audit_earned-kept a c (some r) =
      Keeps-if preorder _ _ _ (audits s a c _ _) (Keeps-pure preorder tt)

  audit_paid-kept : (a : Option ℕ) (c : ℕ) (o : Option CommissionRow) → Keeps R (audit_paid s a c o)
  unfolding audit_paid
  audit_paid-kept a c none = search (keeping, preorder)
  audit_paid-kept a c (some r) = Keeps-if preorder _ _ _ (audits s a c _ _) (Keeps-pure preorder tt)

  after_success-kept :
      (l : LockedPayment) (a : Option ℕ) (p : Payment) → Keeps R (after_success s l a p)
  unfolding after_success
  after_success-kept l a p =
      search (keeping, preorder, confirms, appends, earns, audits, audit_earned-kept) depth 20

  settle-kept :
      (l : LockedPayment) (from : PaymentStatus) (a r : Option ℕ)
      → can_transition_payment from succeeded ≡ true
      → Keeps R (settle s l from a r)
  unfolding settle
  settle-kept l from a r h = search (keeping, preorder, moves, h, after_success-kept) depth 20

  pending_succeeded : can_transition_payment pending succeeded ≡ true
  unfolding can_transition_payment PaymentStatus-discrete
  pending_succeeded = refl

  succeeded_refunded : can_transition_payment succeeded refunded ≡ true
  unfolding can_transition_payment PaymentStatus-discrete
  succeeded_refunded = refl

  confirm_cash-kept : (a c p : Text) → Keeps R (confirm_cash_payment s a c p)
  unfolding confirm_cash_payment
  confirm_cash-kept a c p =
      search (keeping, preorder, enabled-kept, company_scope-kept, settle-kept, pending_succeeded)
        depth 20

  refund_locked-kept : (a : ℕ) (l : LockedPayment) → Keeps R (refund_locked s a l)
  unfolding refund_locked
  refund_locked-kept a l =
      search
        (keeping, preorder, moves, succeeded_refunded, reverses, appends, audits, audit_paid-kept)
        depth 20

  refund-kept : (a c p : Text) → Keeps R (refund_payment s a c p)
  unfolding refund_payment
  refund-kept a c p =
      search (keeping, preorder, enabled-kept, company_scope-kept, refund_locked-kept) depth 20

  apply_outcome-kept :
      (l : LockedPayment) (r : ℕ) (o : ProviderEventOutcome)
      → can_transition_payment l.status (target_of s o) ≡ true
      → Keeps R (apply_outcome s l r o)
  unfolding apply_outcome
  apply_outcome-kept l r event_succeeded h = search (keeping, preorder, settle-kept, h) depth 12
  apply_outcome-kept l r event_failed h = search (keeping, preorder, moves, h) depth 12

  apply_event-kept : (l : LockedPayment) (e : ProviderEvent) → Keeps R (apply_event s l e)
  unfolding apply_event
  apply_event-kept l e =
      elim (Bool-cases (can_transition_payment l.status (target_of s e.outcome))) [
        | inl h ↦ rw h (apply_outcome-kept l e.provider_reference e.outcome h)
        | inr h ↦ rw h (Keeps-pure preorder tt)
      ]

  webhook_work-kept : (p : PaymentProvider) (e : ProviderEvent) → Keeps R (webhook_work s p e)
  unfolding webhook_work
  webhook_work-kept p e = search (keeping, preorder, apply_event-kept) depth 20

  webhook-kept : (name : ℕ) (r : WebhookRequest) → Keeps R (handle_webhook s name r)
  unfolding handle_webhook
  webhook-kept name r = search (keeping, preorder, enabled-kept, webhook_work-kept) depth 20

  -- Every call keeps what every statement keeps.
  pub serve-kept : (c : Call) → Keeps R (serve s c)
  unfolding serve
  serve-kept (passenger_payment a key i) = search (keeping, preorder, passenger-kept)
  serve-kept (company_payment a c key i) = search (keeping, preorder, company-kept)
  serve-kept (cash_confirmation a c p) = search (keeping, preorder, confirm_cash-kept)
  serve-kept (refund a c p) = search (keeping, preorder, refund-kept)
  serve-kept (webhook name r) = webhook-kept name r
