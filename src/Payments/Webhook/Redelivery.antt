-- ===== src/Payments/Webhook/Redelivery.antt =====
-- An event that was applied changes nothing when it is delivered again.
use voyagi.Prelude.{
  ℕ, true, false, ◌&&◌, ◌==◌, some, ◌≡◌, refl, ◌∙◌, sym, subst, arith, find, Bool-cases,
  Option-cases, inl, inr, ◌⊎◌, ltb, length,
}
use voyagi.Store.Rows.{Db, BookingRow, PaymentRow}
use voyagi.Store.Monad.{Result, ok, err, notation, transaction, settle_transaction}
use voyagi.Payments.Types.{ProviderEvent, WebhookRequest, PaymentProvider}
use voyagi.Payments.Repository.{lock_payment, to_locked}
use voyagi.Payments.Service.{
  PaymentsService, mismatches, apply_event, webhook_work, handle_webhook, assert_payments_enabled,
}
use voyagi.Payments.Webhook.Moves.{booking-found}
use voyagi.Payments.Webhook.Stuck.{Replayable, Stuck, Stuck-webhook_work, apply_event-Stuck}

module _ (s : PaymentsService) (provider : PaymentProvider) (e : ProviderEvent) where
  -- The way of an event that fits the payment it names.
  webhook_work-applies :
      (db : Db) (p : PaymentRow) (b : BookingRow)
      → find (λ q. q.internal_reference == e.internal_reference) db.payments ≡ some p
      → find (λ b. b.id == p.booking_id && true) db.bookings ≡ some b
      → provider.handles_method p.method ≡ true
      → mismatches s (to_locked p b) e ≡ false
      → webhook_work s provider e db ≡ apply_event s (to_locked p b) e db
  unfolding webhook_work lock_payment notation
  webhook_work-applies db p b f g h m = ground (arith, f, g, h, m)

  fitting :
      (db : Db) (p : PaymentRow) (b : BookingRow)
      → find (λ q. q.internal_reference == e.internal_reference) db.payments ≡ some p
      → find (λ b. b.id == p.booking_id && true) db.bookings ≡ some b
      → provider.handles_method p.method ≡ true
      → mismatches s (to_locked p b) e ≡ false
      → Replayable provider e db
  unfolding mismatches
  fitting db p b f g h m = record {
    payment = p;
    found = f;
    booked = booking-found p.booking_id db.bookings b g;
    handled = h;
    reference = ground (arith, m);
    amount = ground (arith, m);
    currency = ground (arith, m);
  }

  unfit :
      (db : Db) (p : PaymentRow) (b : BookingRow)
      → find (λ q. q.internal_reference == e.internal_reference) db.payments ≡ some p
      → find (λ b. b.id == p.booking_id && true) db.bookings ≡ some b
      → (provider.handles_method p.method ≡ false) ⊎ (mismatches s (to_locked p b) e ≡ true)
      → (webhook_work s provider e db).0 ≡ ok tt
      → ⊥
  unfolding webhook_work lock_payment notation
  unfit db p b f g u h = ground (arith, f, g, u, h)

  -- The first delivery, where it succeeds.
  webhook_work-Stuck :
      (db : Db)
      → (webhook_work s provider e db).0 ≡ ok tt
      → Stuck s provider e (webhook_work s provider e db).1
  unfolding webhook_work lock_payment notation fitting
  webhook_work-Stuck db h =
      elim (Option-cases (find (λ q. q.internal_reference == e.internal_reference) db.payments)) [
        | inl f ↦ absurd (ground (arith, f, h))
        | inr (p, f) ↦ elim (Option-cases (find (λ b. b.id == p.booking_id && true) db.bookings)) [
          | inl g ↦ absurd (ground (arith, f, g, h))
          | inr (b, g) ↦ elim (Bool-cases (provider.handles_method p.method)) [
            | inr n ↦ absurd (unfit db p b f g (inl n) h)
            | inl y ↦ elim (Bool-cases (mismatches s (to_locked p b) e)) [
              | inl n ↦ absurd (unfit db p b f g (inr n) h)
              | inr m ↦
                  let w = webhook_work-applies db p b f g y m in
                  subst (λ x. Stuck s provider e x.1) (sym w)
                    (apply_event-Stuck s provider e db (fitting db p b f g y m) b
                      (subst (λ x. x.0 ≡ ok tt) w h))
            ]
          ]
        ]
      ]

again-settled :
    (s t : PaymentsService) (provider : PaymentProvider) (e : ProviderEvent) (db : Db)
    (x : Result (Unit {0}) × Db)
    → (x.0 ≡ ok tt → Stuck s provider e x.1)
    → (settle_transaction db x).0 ≡ ok tt
    → transaction (webhook_work t provider e) (settle_transaction db x).1
      ≡ (ok tt, (settle_transaction db x).1)
unfolding settle_transaction transaction
again-settled s t provider e db (ok tt, db') q h =
    rw (Stuck-webhook_work t provider e db' (q refl)) refl
again-settled s t provider e db (err x, db') q h = absurd (ground arith)

handles :
    (s : PaymentsService) (name : ℕ) (request : WebhookRequest) (db : Db)
    (provider : PaymentProvider) (e : ProviderEvent)
    → ltb 0 (length s.providers) ≡ true
    → find (λ c. c.name == name) s.providers ≡ some provider
    → provider.verify_and_parse request ≡ some e
    → handle_webhook s name request db ≡ transaction (webhook_work s provider e) db
unfolding handle_webhook assert_payments_enabled notation
handles s name request db provider e y f v = ground (arith, y, f, v)

-- A webhook request that was answered with success is answered with success when it comes again,
-- to a service with the same providers and at any time, and the database stays as the first
-- delivery left it.
pub handle_webhook_redelivered :
    (s t : PaymentsService) (name : ℕ) (request : WebhookRequest) (db : Db)
    → t.providers ≡ s.providers
    → (handle_webhook s name request db).0 ≡ ok tt
    → handle_webhook t name request (handle_webhook s name request db).1
      ≡ (ok tt, (handle_webhook s name request db).1)
unfolding handle_webhook assert_payments_enabled transaction notation
handle_webhook_redelivered s t name request db p h =
    elim (Bool-cases (ltb 0 (length s.providers))) [
      | inr n ↦ absurd (ground (arith, n, h))
      | inl y ↦ elim (Option-cases (find (λ c. c.name == name) s.providers)) [
        | inl n ↦ absurd (ground (arith, y, n, h))
        | inr (provider, f) ↦ elim (Option-cases (provider.verify_and_parse request)) [
          | inl n ↦ absurd (ground (arith, y, f, n, h))
          | inr (e, v) ↦
              let now = handles s name request db provider e y f v in
              let later =
                handles t name request (handle_webhook s name request db).1 provider e
                  (subst (λ l. ltb 0 (length l) ≡ true) (sym p) y)
                  (subst (λ l. find (λ c. c.name == name) l ≡ some provider) (sym p) f) v in
              later
              ∙ subst (λ x. transaction (webhook_work t provider e) x.1 ≡ (ok tt, x.1)) (sym now)
                  (again-settled s t provider e db (webhook_work s provider e db)
                    (webhook_work-Stuck s provider e db) (subst (λ x. x.0 ≡ ok tt) now h))
        ]
      ]
    ]
