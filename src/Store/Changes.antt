-- ===== src/Store/Changes.antt =====
-- What a change of status leaves of a booking and of a seat.
use voyagi.Prelude.{◌+◌, ◌≡◌}
use voyagi.Store.Enums.{BookingStatus, SeatStatus}
use voyagi.Store.Rows.{BookingRow, SeatRow}

-- The booking is the same, in the status `to` and one version on.
pub record BookingIn (to : BookingStatus) (a b : BookingRow) : Type 0 where
  pub id : b.id ≡ a.id
  pub trip_id : b.trip_id ≡ a.trip_id
  pub company_id : b.company_id ≡ a.company_id
  pub booked_by_user_id : b.booked_by_user_id ≡ a.booked_by_user_id
  pub total_amount : b.total_amount ≡ a.total_amount
  pub version : b.version ≡ a.version + 1
  pub status : b.status ≡ to

-- The seat is the same, in the status `to`.
pub record SeatIn (to : SeatStatus) (a b : SeatRow) : Type 0 where
  pub id : b.id ≡ a.id
  pub trip_id : b.trip_id ≡ a.trip_id
  pub booking_id : b.booking_id ≡ a.booking_id
  pub passenger_id : b.passenger_id ≡ a.passenger_id
  pub seat_number : b.seat_number ≡ a.seat_number
  pub status : b.status ≡ to
