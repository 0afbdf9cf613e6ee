-- ===== src/Bookings/Service.antt =====
-- modules/bookings/bookings.service.ts: cancelling and expiring bookings. What the service is given
-- by its environment is a record: the generator of references, the hash of a request, the clocks of
-- the database and of the application, and whether an audit writer is bound.
use voyagi.Prelude.{ℕ, Bool, not, List, [], ◌∷◌, Option, none, some, is_none, length}
use voyagi.Identity.Identifier.{Text, uuid_of, bigint_of}
use voyagi.Identity.Roles.{bookings_cancel}
use voyagi.Identity.Access.{resolve_entitlements}
use voyagi.Identity.Scope.{access_scope}
use voyagi.Store.Enums.{BookingStatus, booking_cancelled, booking_expired}
use voyagi.Bookings.Inputs.{CreateBookingInput}
use voyagi.Store.Rows.{BookingRow, Operation, audit_booking_cancelled}
use voyagi.Store.Monad.{
  M, pure, throw, gets, or_throw, throw_if, transaction, ◌>>=◌, ◌>>◌, booking_not_found,
  booking_not_cancellable,
}
use voyagi.Audit.{append_audit}
use voyagi.Payments.Repository.{find_memberships, owned_by, company_visible, append_booking_event}
use voyagi.Bookings.Repository.{
  Booking, find_one, lock_booking_aggregate, cancel_booking, release_booking_seats, release_expired,
}

-- What the fingerprint of a creation is taken of; company and branch are absent for a passenger's.
pub record CreatePayload : Type 0 where
  pub operation : Operation
  pub company : Option ℕ
  pub branch : Option ℕ
  pub input : CreateBookingInput

pub record BookingsService : Type 0 where
  pub generate_reference : ℕ → ℕ
  pub fingerprint : CreatePayload → ℕ
  pub now : ℕ
  pub app_now : ℕ
  pub audits : Bool

module _ (s : BookingsService) where
  -- `if (!cancelled)`: the booking that is there cannot be cancelled.
  unfoldable pub or_refuse :
      Option (ℕ × BookingStatus) → (BookingRow → Bool) → ℕ → M (ℕ × BookingStatus)
  or_refuse (some c) reach booking = pure c
  or_refuse none reach booking = do
    existing ← gets (find_one reach booking)
    throw_if (not (is_none existing)) booking_not_cancellable
    throw booking_not_found

  -- The company of the event: the caller's, or that of the booking.
  abbrev pub event_company : Option ℕ → ℕ → ℕ
  event_company none found = found
  event_company (some company) found = company

  -- The work of both cancellations, for a clause over the bookings that the actor reaches.
  unfoldable pub cancel_within : ℕ → Option ℕ → (BookingRow → Bool) → ℕ → M Booking
  cancel_within actor company reach booking = do
    visible ← gets (lock_booking_aggregate reach booking)
    throw_if (not visible) booking_not_found
    attempt ← cancel_booking s.now reach booking
    cancelled ← or_refuse attempt reach booking
    release_booking_seats s.now booking
    append_booking_event booking (event_company company cancelled.0) (some actor) booking_cancelled
    append_audit s.audits (some actor) cancelled.0 audit_booking_cancelled booking
    found ← gets (find_one reach booking)
    or_throw found booking_not_found

  -- An actor that is no UUID owns no booking.
  unfoldable pub cancel_owned_booking : ℕ → Text → M Booking
  cancel_owned_booking actor booking_id = do
    booking ← or_throw (uuid_of booking_id) booking_not_found
    transaction (cancel_within actor none (owned_by actor) booking)

  unfoldable pub cancel_company_booking : ℕ → Text → Text → M Booking
  cancel_company_booking actor company_id booking_id = do
    booking ← or_throw (uuid_of booking_id) booking_not_found
    company ← or_throw (bigint_of company_id) booking_not_found
    transaction (do
      memberships ← gets (find_memberships actor company)
      cancel_within actor (some company)
          (company_visible company
            (access_scope (resolve_entitlements memberships) bookings_cancel))
          booking)

  -- `for (const booking of expired)`
  unfoldable pub append_expired : ℕ → List BookingRow → M (Unit {0})
  append_expired company [] = pure tt
  append_expired company (b ∷ bs) = do
    append_booking_event b.id company none booking_expired
    append_expired company bs

  unfoldable pub expire_within : ℕ → M ℕ
  expire_within company = do
    expired ← release_expired s.now company none
    append_expired company expired
    pure (length expired)

  unfoldable pub expire_bookings : Text → M ℕ
  expire_bookings company_id = elim (bigint_of company_id) [
    | none ↦ pure 0
    | some company ↦ transaction (expire_within company)
  ]
