-- ===== src/Bookings/Repository.antt =====
-- modules/bookings/postgres-bookings.repository.ts: finding, cancelling and expiring bookings. A
-- row lock (`FOR UPDATE`) is no step of its own: a transaction runs alone.
use voyagi.Prelude.{
  ℕ, ◌+◌, Bool, true, false, ◌&&◌, not, List, [], ◌∷◌, ◌++◌, Option, none, some, any, find, select,
  update, ◌==◌, leb, if◌then◌else◌,
}
use voyagi.Store.Enums.{
  BookingStatus, cancelled, expired, SeatStatus, seat_held, seat_confirmed, seat_checked_in,
  seat_released, seat_cancelled, is_held_seat, PassengerGender,
}
use voyagi.Store.Rows.{Db, BookingRow, PassengerRow, SeatRow}
use voyagi.Store.Monad.{ok, M}
use voyagi.Bookings.Transitions.{cancel, expire, can_apply_booking_action}

pub record BookingPassenger : Type 0 where
  pub id : ℕ
  pub full_name : ℕ
  pub phone : Option ℕ
  pub document_number : Option ℕ
  pub boarding_station_id : Option ℕ
  pub gender : PassengerGender
  pub seat_id : ℕ

-- A booking as the domain exposes it: its row and its passengers with their seats.
pub record Booking : Type 0 where
  pub row : BookingRow
  pub passengers : List BookingPassenger

abbrev to_passenger : PassengerRow → SeatRow → BookingPassenger
to_passenger p s = record {
  id = p.id;
  full_name = p.full_name;
  phone = p.phone;
  document_number = p.document_number;
  boarding_station_id = p.boarding_station_id;
  gender = p.gender;
  seat_id = s.seat_number;
}

-- The join of one passenger with the seats, and of all the passengers of a booking.
abbrev seats_of : PassengerRow → List SeatRow → List BookingPassenger
seats_of p [] = []
seats_of p (s ∷ ss) =
    if s.passenger_id == p.id && s.booking_id == p.booking_id
    then to_passenger p s ∷ seats_of p ss
    else seats_of p ss

unfoldable pub list_passengers : ℕ → List SeatRow → List PassengerRow → List BookingPassenger
list_passengers booking seats [] = []
list_passengers booking seats (p ∷ ps) =
    if p.booking_id == booking
    then seats_of p seats ++ list_passengers booking seats ps
    else list_passengers booking seats ps

unfoldable pub map_booking : Db → BookingRow → Booking
map_booking db row = record {
  row = row;
  passengers = list_passengers row.id db.seats db.passengers;
}

-- `findOne`, for the owner's clause or the company's.
unfoldable pub find_one : (BookingRow → Bool) → ℕ → Db → Option Booking
find_one where_ booking_id db = elim (find (λ b. b.id == booking_id && where_ b) db.bookings) [
  | none ↦ none
  | some row ↦ some (map_booking db row)
]

-- `lockBookingAggregate`
unfoldable pub lock_booking_aggregate : (BookingRow → Bool) → ℕ → Db → Bool
lock_booking_aggregate where_ booking_id db = any (λ b. b.id == booking_id && where_ b) db.bookings

abbrev pub is_checked_in : SeatStatus → Bool
is_checked_in seat_held = false
is_checked_in seat_confirmed = false
is_checked_in seat_checked_in = true
is_checked_in seat_released = false
is_checked_in seat_cancelled = false

-- The `WHERE` clause of `cancel`.
unfoldable pub is_cancellable : (BookingRow → Bool) → ℕ → Db → BookingRow → Bool
is_cancellable where_ booking_id db b =
    b.id == booking_id
    && where_ b
    && can_apply_booking_action b.status cancel
    && not (any (λ s. s.booking_id == b.id && is_checked_in s.status) db.seats)

abbrev pub cancelled_row : ℕ → BookingRow → BookingRow
cancelled_row now b = record b { status = cancelled; version = b.version + 1; updated_at = now }

-- `UPDATE … RETURNING company_id, status`
unfoldable pub cancel_booking : ℕ → (BookingRow → Bool) → ℕ → M (Option (ℕ × BookingStatus))
cancel_booking now where_ booking_id db = (
  ok (elim (find (is_cancellable where_ booking_id db) db.bookings) [
    | none ↦ none
    | some b ↦ some (b.company_id, cancelled)
  ]),
  record db {
    bookings = update (is_cancellable where_ booking_id db) (cancelled_row now) db.bookings;
  },
)

-- `status IN ('HELD', 'CONFIRMED')`
abbrev pub is_releasable : SeatStatus → Bool
is_releasable seat_held = true
is_releasable seat_confirmed = true
is_releasable seat_checked_in = false
is_releasable seat_released = false
is_releasable seat_cancelled = false

unfoldable pub release_booking_seats : ℕ → ℕ → M (Unit {0})
release_booking_seats now booking_id db = (
  ok tt,
  record db {
    seats =
        update (λ s. s.booking_id == booking_id && is_releasable s.status)
          (λ s. record s { status = seat_cancelled; updated_at = now }) db.seats;
  },
)

-- `$2 IS NULL OR trip_id = $2`
abbrev pub of_trip : Option ℕ → ℕ → Bool
of_trip none trip = true
of_trip (some t) trip = trip == t

-- `expires_at <= now()`, which no booking without an expiry satisfies.
abbrev pub is_past : Option ℕ → ℕ → Bool
is_past none now = false
is_past (some t) now = leb t now

-- The `WHERE` clause of `releaseExpired`.
unfoldable pub is_expirable : ℕ → ℕ → Option ℕ → BookingRow → Bool
is_expirable now company trip b =
    b.company_id == company
    && of_trip trip b.trip_id
    && can_apply_booking_action b.status expire
    && is_past b.expires_at now

abbrev pub expired_row : ℕ → BookingRow → BookingRow
expired_row now b = record b { status = expired; version = b.version + 1; updated_at = now }

-- The two updates of `releaseExpired`, in one statement; it returns the bookings that expired.
unfoldable pub release_expired : ℕ → ℕ → Option ℕ → M (List BookingRow)
release_expired now company trip db =
    let gone = select (is_expirable now company trip) db.bookings in
    (
      ok gone,
      record db {
        bookings = update (is_expirable now company trip) (expired_row now) db.bookings;
        seats =
            update (λ s. any (λ b. s.booking_id == b.id) gone && is_held_seat s.status)
              (λ s. record s { status = seat_released; updated_at = now }) db.seats;
      },
    )
