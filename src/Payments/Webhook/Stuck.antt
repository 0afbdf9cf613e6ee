-- ===== src/Payments/Webhook/Stuck.antt =====
-- After an event has been applied it finds a payment that does not move any more.
use voyagi.Prelude.{
  ℕ, true, false, not, ◌==◌, ==_refl, Option, none, some, ◌≡◌, refl, ◌∙◌, arith, find, update,
  Bool-cases, inl, inr,
}
use voyagi.Store.Enums.{PaymentStatus-discrete}
use voyagi.Store.Rows.{Db, BookingRow, PaymentRow}
use voyagi.Store.Monad.{
  ok, pure, notation, continue, or_throw, on_unique_result, ◌>>=◌, payment_already_settled,
  payment_not_confirmable,
}
use voyagi.Store.Keeps.{Keeps, keeping}
use voyagi.Payments.Machine.{can_transition_payment}
use voyagi.Payments.Types.{
  Payment, LockedPayment, TransitionPaymentParams, ProviderEvent, ProviderEventOutcome,
  event_succeeded, event_failed, PaymentProvider,
}
use voyagi.Payments.Repository.{lock_payment, to_locked, transitioned}
use voyagi.Payments.Service.{
  PaymentsService, after_success, success_of, failure_of, settle, mismatches, target_of,
  apply_outcome, apply_event, webhook_work,
}
use voyagi.Payments.Evolution.{selected}
use voyagi.Payments.Quiet.{Quiet, Quiet-preorder, has_booking}
use voyagi.Payments.Webhook.Moves.{
  after_success-Quiet, find-booking, found-moved, forgotten, selected-found, moved_cases,
  on_unique-throws,
}

-- The payment of the event is there, the event fits it, and its status does not move any more.
pub record Replayable (provider : PaymentProvider) (e : ProviderEvent) (db : Db) : Type 0 where
  pub payment : PaymentRow
  pub found : find (λ q. q.internal_reference == e.internal_reference) db.payments ≡ some payment
  pub booked : has_booking payment.booking_id db ≡ true
  pub handled : provider.handles_method payment.method ≡ true
  pub reference :
      elim payment.provider_reference [ none ↦ false | some r ↦ not (r == e.provider_reference) ]
      ≡ false
  pub amount : e.amount ≡ payment.amount
  pub currency : e.currency ≡ payment.currency

abbrev pub Stuck : PaymentsService → PaymentProvider → ProviderEvent → Db → Type 0
Stuck s provider e db =
    (r : Replayable provider e db) × (can_transition_payment r.payment.status
        (target_of s e.outcome)
      ≡ false)

module _ (s : PaymentsService) (provider : PaymentProvider) (e : ProviderEvent) where
  pub Stuck-webhook_work :
      (db : Db) → Stuck s provider e db → webhook_work s provider e db ≡ (ok tt, db)
  unfolding webhook_work notation lock_payment mismatches apply_event
  Stuck-webhook_work db (r, stuck) =
      let (b, f) = find-booking r.payment.booking_id db.bookings r.booked in
      ground (arith, r.found, f, r.handled, r.reference, r.amount, r.currency, stuck)

  Stuck-Quiet : (a b : Db) → Quiet a b → Stuck s provider e a → Stuck s provider e b
  Stuck-Quiet a b q (r, stuck) = (
    record {
      payment = r.payment;
      found = rw q.payments r.found;
      booked = q.bookings r.payment.booking_id ∙ r.booked;
      handled = r.handled;
      reference = r.reference;
      amount = r.amount;
      currency = r.currency;
    },
    stuck,
  )

  same_status :
      (o : ProviderEventOutcome) → can_transition_payment (target_of s o) (target_of s o) ≡ false
  unfolding can_transition_payment PaymentStatus-discrete
  same_status event_succeeded = refl
  same_status event_failed = refl

  Stuck-moved :
      (now : ℕ) (params : TransitionPaymentParams) (db : Db)
      → (r : Replayable provider e db) → selected params r.payment ≡ true
      → params.to ≡ target_of s e.outcome
      → params.provider_reference ≡ some e.provider_reference
      → Stuck s provider e
          (record db { payments = update (selected params) (transitioned now params) db.payments })
  unfolding transitioned
  Stuck-moved now params db r h t v = (
    record {
      payment = transitioned now params r.payment;
      found = found-moved params now e.internal_reference db.payments r.payment r.found h;
      booked = r.booked;
      handled = r.handled;
      reference = rw v (ground (arith, ==_refl e.provider_reference));
      amount = r.amount;
      currency = r.currency;
    },
    rw t (same_status e.outcome),
  )

  module _ (db : Db) (r : Replayable provider e db) (b : BookingRow) where
    abbrev locked : LockedPayment
    locked = to_locked r.payment b

    selected_itself :
        (params : TransitionPaymentParams)
        → params.payment_id ≡ r.payment.id
        → params.from ≡ r.payment.status
        → selected params r.payment ≡ true
    selected_itself params i f = rw (i, f) (ground (arith, ==_refl r.payment.id))

    rest-Quiet :
        (m : Option Payment)
        → Keeps Quiet (or_throw m payment_not_confirmable >>= after_success s locked none)
    rest-Quiet m = search (keeping, Quiet-preorder, after_success-Quiet) depth 8

    settle-Stuck :
        (a : Payment)
        → e.outcome ≡ event_succeeded
        → (settle s locked r.payment.status none (some e.provider_reference) db).0 ≡ ok a
        → Stuck s provider e
            (settle s locked r.payment.status none (some e.provider_reference) db).1
    unfolding settle notation
    settle-Stuck a o =
        moved_cases
          (λ x.
            (continue (λ m. or_throw m payment_not_confirmable >>= after_success s locked none)
                (on_unique_result payment_already_settled x)).0
              ≡ ok a
            → Stuck s provider e
                (continue (λ m. or_throw m payment_not_confirmable >>= after_success s locked none)
                  (on_unique_result payment_already_settled x)).1)
          s.now (success_of s locked r.payment.status none (some e.provider_reference)) db
          (λ x h. absurd (on_unique-throws _ payment_already_settled x db a h)) (λ _ h. cc)
          (λ _ p h. Stuck-Quiet _ _ ((rest-Quiet p).kept _) (
            Stuck-moved s.now
              (success_of s locked r.payment.status none (some e.provider_reference)) db r
              (selected_itself
                (success_of s locked r.payment.status none (some e.provider_reference)) refl refl)
              (rw o refl) refl))

    fail-Stuck :
        e.outcome ≡ event_failed
        → (apply_outcome s locked e.provider_reference event_failed db).0 ≡ ok tt
        → Stuck s provider e (apply_outcome s locked e.provider_reference event_failed db).1
    unfolding apply_outcome notation
    fail-Stuck o =
        moved_cases
          (λ x.
            (continue (λ _. pure tt) x).0 ≡ ok tt
            → Stuck s provider e (continue (λ _. pure tt) x).1)
          s.now (failure_of s locked e.provider_reference) db (λ x h. cc)
          (λ f h. absurd (
            selected-found (failure_of s locked e.provider_reference) e.internal_reference
              db.payments r.payment r.found
              (selected_itself (failure_of s locked e.provider_reference) refl refl) f))
          (λ _ p h.
            Stuck-moved s.now (failure_of s locked e.provider_reference) db r
              (selected_itself (failure_of s locked e.provider_reference) refl refl) (rw o refl)
              refl)

    outcome-Stuck :
        (o : ProviderEventOutcome)
        → e.outcome ≡ o
        → (apply_outcome s locked e.provider_reference o db).0 ≡ ok tt
        → Stuck s provider e (apply_outcome s locked e.provider_reference o db).1
    unfolding apply_outcome notation
    outcome-Stuck event_succeeded o h =
        forgotten (Stuck s provider e)
          (settle s locked r.payment.status none (some e.provider_reference) db)
          (λ a g. settle-Stuck a o g) h
    outcome-Stuck event_failed o h = fail-Stuck o h

    -- An event that is applied, where that succeeds.
    pub apply_event-Stuck :
        (apply_event s locked e db).0 ≡ ok tt → Stuck s provider e (apply_event s locked e db).1
    unfolding apply_event notation
    apply_event-Stuck h =
        elim (Bool-cases (can_transition_payment r.payment.status (target_of s e.outcome))) [
          | inl c ↦ rw (c, apply_event) (outcome-Stuck e.outcome refl (rw (c, apply_event) at h))
          | inr c ↦ rw (c, apply_event) (r, c)
        ]
