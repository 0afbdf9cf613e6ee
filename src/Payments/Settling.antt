-- ===== src/Payments/Settling.antt =====
-- What a settlement leaves of the payment, its booking and its seats.
use voyagi.Prelude.{
  ℕ, Bool, true, false, ◌&&◌, ◌==◌, List, [], ◌∷◌, Option, none, some, ◌≡◌, refl, ◌∙◌, arith, any,
  update, Rewritten, Rewritten-update, update_reaches, update_absent, any-update, ◌||◌, subst,
}
use voyagi.Store.Enums.{
  BookingStatus-discrete, PaymentStatus, PaymentStatus-discrete, confirmed, is_booking,
  is_payable_status, is_held_seat, is_payment, succeeded, seat_confirmed,
}
use voyagi.Store.Rows.{Db, BookingRow, SeatRow, PaymentRow}
use voyagi.Store.Changes.{BookingIn, SeatIn}
use voyagi.Store.Monad.{
  ok, M, ◌>>=◌, notation, continue, or_throw, on_unique_result, payment_already_settled,
  payment_not_confirmable,
}
use voyagi.Payments.Types.{Payment, LockedPayment, TransitionPaymentParams}
use voyagi.Payments.Repository.{transitioned, confirm_booking_paid}
use voyagi.Payments.Service.{PaymentsService, after_success, settle, success_of}
use voyagi.Payments.Evolution.{selected}
use voyagi.Payments.Webhook.Moves.{moved_cases, on_unique-throws}
use voyagi.Payments.Calm.{Calm, after_success-Calm}

module _ (s : PaymentsService) where
  abbrev pub is_open : ℕ → BookingRow → Bool
  is_open booking b = b.id == booking && is_payable_status b.status

  abbrev pub is_confirmed : ℕ → BookingRow → Bool
  is_confirmed booking b = b.id == booking && is_booking b.status confirmed

  abbrev pub is_held_for : ℕ → SeatRow → Bool
  is_held_for booking q = q.booking_id == booking && is_held_seat q.status

  abbrev pub is_settled_as : ℕ → PaymentRow → Bool
  is_settled_as payment p = p.id == payment && is_payment p.status succeeded

  confirmed_bookings :
      (k : ℕ) (db : Db)
      → any (is_confirmed k) (confirm_booking_paid s.now k db).1.bookings
        ≡ (any (is_open k) db.bookings || any (is_confirmed k) db.bookings)
  unfolding confirm_booking_paid BookingStatus-discrete
  confirmed_bookings k db =
      any-update (is_open k) (is_confirmed k) _ (λ b e. ground (arith, e)) db.bookings

  bookings_change :
      (k : ℕ) (db : Db)
      → Rewritten
          (is_open k)
          (BookingIn confirmed)
          db.bookings
          (confirm_booking_paid s.now k db).1.bookings
  unfolding confirm_booking_paid
  bookings_change k db =
      Rewritten-update (is_open k) (BookingIn confirmed) _
        (λ b. record {
          id = refl;
          trip_id = refl;
          company_id = refl;
          booked_by_user_id = refl;
          total_amount = refl;
          version = refl;
          status = refl;
        })
        db.bookings

  seats_change :
      (k : ℕ) (db : Db)
      → any (is_open k) db.bookings ≡ true
      → Rewritten
          (is_held_for k)
          (SeatIn seat_confirmed)
          db.seats
          (confirm_booking_paid s.now k db).1.seats
  unfolding confirm_booking_paid
  seats_change k db h = rw h (
      Rewritten-update (is_held_for k) (SeatIn seat_confirmed) _
        (λ q. record {
          id = refl;
          trip_id = refl;
          booking_id = refl;
          passenger_id = refl;
          seat_number = refl;
          status = refl;
        })
        db.seats)

  untouched :
      (k : ℕ) (db : Db)
      → any (is_open k) db.bookings ≡ false
      → Calm db (confirm_booking_paid s.now k db).1
  unfolding confirm_booking_paid
  untouched k db h = record {
    bookings = update_absent (is_open k) _ db.bookings h;
    seats = no_seats db.seats;
    payments = refl;
  }
    where
      no_seats :
          (qs : List SeatRow)
          → update
              (λ q. any (is_open k) db.bookings && q.booking_id == k && is_held_seat q.status)
              (λ q. record q { status = seat_confirmed; updated_at = s.now })
              qs
            ≡ qs
      no_seats [] = refl
      no_seats (q ∷ qs) = ground (arith, h, no_seats qs)

  -- The way of a settlement that returns: the payment, then the booking, then what leaves both.
  record Settled (l : LockedPayment) (db final : Db) : Type 0 where
    paid : Db
    payments : any (is_settled_as l.id) paid.payments ≡ true
    bookings : paid.bookings ≡ db.bookings
    seats : paid.seats ≡ db.seats
    rest : Calm (confirm_booking_paid s.now l.booking_id paid).1 final

  Settled-bookings :
      (l : LockedPayment) (db final : Db)
      → Settled l db final
      → Rewritten (is_open l.booking_id) (BookingIn confirmed) db.bookings final.bookings
  Settled-bookings l db final w =
      let k = l.booking_id in
      let e : final.bookings ≡ (confirm_booking_paid s.now k w.paid).1.bookings = w.rest.bookings in
      rw e (
        subst
          (λ xs.
            Rewritten (is_open k) (BookingIn confirmed) xs
              (confirm_booking_paid s.now k w.paid).1.bookings)
          w.bookings (bookings_change k w.paid))

  Settled-seats :
      (l : LockedPayment) (db final : Db)
      → any (is_open l.booking_id) db.bookings ≡ true
      → Settled l db final
      → Rewritten (is_held_for l.booking_id) (SeatIn seat_confirmed) db.seats final.seats
  Settled-seats l db final o w =
      let k = l.booking_id in
      let e : final.seats ≡ (confirm_booking_paid s.now k w.paid).1.seats = w.rest.seats in
      rw e (
        subst
          (λ xs.
            Rewritten (is_held_for k) (SeatIn seat_confirmed) xs
              (confirm_booking_paid s.now k w.paid).1.seats)
          w.seats (seats_change k w.paid (rw w.bookings o)))

  module _ (l : LockedPayment) (from : PaymentStatus) (actor reference : Option ℕ) (db : Db) where
    abbrev params : TransitionPaymentParams
    params = success_of s l from actor reference

    marked :
        (p : PaymentRow)
        → selected params p ≡ true
        → is_settled_as l.id (transitioned s.now params p) ≡ true
    unfolding transitioned PaymentStatus-discrete
    marked p h = ground (arith, h)

    abbrev next : Option Payment → M Payment
    next m = or_throw m payment_not_confirmable >>= after_success s l actor

    Settled-next :
        (m : Option Payment) (a : Payment) (db1 : Db)
        → any (is_settled_as l.id) db1.payments ≡ true
        → db1.bookings ≡ db.bookings
        → db1.seats ≡ db.seats
        → (next m db1).0 ≡ ok a
        → Settled l db (next m db1).1
    unfolding notation
    Settled-next none a db1 p b q h = cc
    Settled-next (some done) a db1 p b q h = record {
      paid = db1;
      payments = p;
      bookings = b;
      seats = q;
      rest = after_success-Calm s l actor done db1;
    }

    settle-Settled :
        (a : Payment)
        → (settle s l from actor reference db).0 ≡ ok a
        → Settled l db (settle s l from actor reference db).1
    unfolding settle notation
    settle-Settled a =
        moved_cases
          (λ x.
            (continue next (on_unique_result payment_already_settled x)).0 ≡ ok a
            → Settled l db (continue next (on_unique_result payment_already_settled x)).1)
          s.now params db (λ x h. absurd (on_unique-throws _ payment_already_settled x db a h))
          (λ _ h. cc)
          (λ f p h.
            Settled-next p a _
              (update_reaches (selected params) (is_settled_as l.id) (transitioned s.now params)
                marked db.payments f)
              refl refl h)

    -- Where the booking of the payment waits for payment, a settlement that returns has marked the
    -- payment SUCCEEDED; each row of the booking that waited is CONFIRMED, one version on, each HELD
    -- seat of the booking is CONFIRMED, and all other bookings and seats are as they were.
    pub settle_confirms :
        (a : Payment)
        → any (is_open l.booking_id) db.bookings ≡ true
        → (settle s l from actor reference db).0 ≡ ok a
        → let final = (settle s l from actor reference db).1 in
          (any (is_settled_as l.id) final.payments ≡ true)
          × (any (is_confirmed l.booking_id) final.bookings ≡ true)
          × Rewritten (is_open l.booking_id) (BookingIn confirmed) db.bookings final.bookings
          × Rewritten (is_held_for l.booking_id) (SeatIn seat_confirmed) db.seats final.seats
    unfolding confirm_booking_paid
    settle_confirms a o h =
        let w = settle-Settled a h in
        let k = l.booking_id in
        (
          rw w.rest.payments w.payments,
          rw w.rest.bookings (confirmed_bookings k w.paid ∙ ground (arith, w.bookings, o)),
          Settled-bookings l db _ w,
          Settled-seats l db _ o w,
        )

    -- Where no booking of the payment waits for payment any more (it was cancelled, has expired or
    -- is confirmed), a settlement that returns has marked the payment SUCCEEDED just the same, and
    -- the bookings and the seats are as they were.
    pub settle_unconfirmed :
        (a : Payment)
        → any (is_open l.booking_id) db.bookings ≡ false
        → (settle s l from actor reference db).0 ≡ ok a
        → let final = (settle s l from actor reference db).1 in
          (any (is_settled_as l.id) final.payments ≡ true)
          × (final.bookings ≡ db.bookings)
          × (final.seats ≡ db.seats)
    unfolding confirm_booking_paid
    settle_unconfirmed a o h =
        let w = settle-Settled a h in
        let u = untouched l.booking_id w.paid (rw w.bookings o) in
        (
          rw w.rest.payments w.payments,
          w.rest.bookings ∙ (u.bookings ∙ w.bookings),
          w.rest.seats ∙ (u.seats ∙ w.seats),
        )
