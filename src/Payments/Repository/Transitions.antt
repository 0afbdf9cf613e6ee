-- ===== src/Payments/Repository/Transitions.antt =====
-- postgres-payments.repository.ts: `transitionPayment`, `confirmBookingPaid` and
-- `appendBookingEvent`, with what the triggers, the checks and the unique indexes of
-- supabase/migrations refuse.
use voyagi.Prelude.{
  ℕ, ◌+◌, Bool, true, false, ◌&&◌, not, [], ◌∷◌, ◌++◌, Option, none, some, any, find, update, ◌==◌,
  is_some_of, is_none, or_else, if◌then◌else◌,
}
use voyagi.Store.Enums.{
  confirmed, seat_confirmed, is_held_seat, cash, is_method, is_payment, is_settled,
  is_payable_status, is_online_method, BookingEventType,
}
use voyagi.Store.Rows.{Db, BookingRow, PaymentRow}
use voyagi.Store.Monad.{
  Error, unique_violation, check_violation, unknown_database_error, ok, err, M,
}
use voyagi.Payments.Machine.{trigger_allows}
use voyagi.Payments.Types.{Payment, TransitionPaymentParams}
use voyagi.Payments.Repository.Reads.{with_company}

-- The `SET` list of `transitionPayment`.
unfoldable pub transitioned : ℕ → TransitionPaymentParams → PaymentRow → PaymentRow
transitioned now params p = record p {
  status = params.to;
  provider_reference = or_else params.provider_reference p.provider_reference;
  confirmed_by_user_id = or_else params.confirmed_by_user_id p.confirmed_by_user_id;
  paid_at = if params.set_paid_at then some now else p.paid_at;
  updated_at = now;
}

-- `new.provider_reference is distinct from old.provider_reference`, where the old one is stored.
abbrev overwrites : Option ℕ → Option ℕ → Bool
overwrites none new = false
overwrites (some r) none = true
overwrites (some r) (some s) = not (r == s)

-- The triggers `enforce_payment_transition` and `validate_payment_snapshot` (an update changes
-- neither the amount nor the currency, so these still match the booking), then the checks, then
-- the unique indexes `uq_successful_payment_per_booking` and `uq_payment_provider_ref`.
unfoldable pub payment_violation : Db → PaymentRow → PaymentRow → Option Error
payment_violation db old new =
    if overwrites old.provider_reference new.provider_reference
    then some unknown_database_error
    else if not (is_payment new.status old.status) && not (trigger_allows old.status new.status)
    then some check_violation
    else if is_online_method new.method && is_settled new.status && is_none new.provider_reference
    then some check_violation
    else if is_method new.method cash && is_settled new.status && is_none new.confirmed_by_user_id
    then some check_violation
    else if is_settled new.status && is_none new.paid_at
    then some check_violation
    else if is_settled new.status
        && any (λ q. not (q.id == new.id) && q.booking_id == new.booking_id && is_settled q.status)
            db.payments
    then some unique_violation
    else if any
        (λ q. not (q.id == new.id) && is_method q.method new.method && elim new.provider_reference [
          | none ↦ false
          | some r ↦ is_some_of q.provider_reference r
        ])
        db.payments
    then some unique_violation
    else none

-- `UPDATE … WHERE p.id = $1 AND p.status = $2 RETURNING`, joined with the booking.
unfoldable pub transition_payment : ℕ → TransitionPaymentParams → M (Option Payment)
transition_payment now params db =
    let selected =
      λ (p : PaymentRow). p.id == params.payment_id && is_payment p.status params.from in
    elim (find selected db.payments) [
      | none ↦ (ok none, db)
      | some old ↦
          let new = transitioned now params old in
          elim (payment_violation db old new) [
            | some e ↦ (err e, db)
            | none ↦ (
              ok (with_company db new),
              record db { payments = update selected (transitioned now params) db.payments },
            )
          ]
    ]

-- The two updates of `confirmBookingPaid`, in one statement.
unfoldable pub confirm_booking_paid : ℕ → ℕ → M Bool
confirm_booking_paid now booking_id db =
    let open_ = λ (b : BookingRow). b.id == booking_id && is_payable_status b.status in
    let found = any open_ db.bookings in
    (
      ok found,
      record db {
        bookings =
            update open_
              (λ b. record b { status = confirmed; version = b.version + 1; updated_at = now })
              db.bookings;
        seats =
            update (λ s. found && s.booking_id == booking_id && is_held_seat s.status)
              (λ s. record s { status = seat_confirmed; updated_at = now }) db.seats;
      },
    )

unfoldable pub append_booking_event : ℕ → ℕ → Option ℕ → BookingEventType → M (Unit {0})
append_booking_event booking company actor type db = (
  ok tt,
  record db {
    events =
        db.events
        ++ record {
          booking_id = booking;
          company_id = company;
          actor_user_id = actor;
          event_type = type;
        }
          ∷ [];
  },
)
