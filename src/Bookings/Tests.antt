-- ===== src/Bookings/Tests.antt =====
-- A booking on hold until 900 with one seat and a payment that is waiting, and one that is confirmed.
use voyagi.Prelude.{
  ℕ, ◌+◌, ◌≡◌, refl, true, false, any, select, length, [], ◌∷◌, none, some, inl, Rewritten,
}
use voyagi.Store.Enums.{
  seat_cancelled, seat_released, expired, cash, pending, BookingStatus-discrete, web, held,
  confirmed, cancelled, is_online_channel, seat_held, seat_confirmed,
}
use voyagi.Store.Network.{no_network, active_bus, scheduled}
use voyagi.Bookings.Inputs.{BookingPassengerInput, trim}
use voyagi.Bookings.Inserts.{
  insert_passenger, insert_seat, seat_violation, seats_of_trip, new_passenger,
}
use voyagi.Bookings.Creation.{insert_seats}
use voyagi.Bookings.Placing.{Placed, insert_seats-Placed}
use voyagi.Store.Rows.{Db, BookingRow, SeatRow, PaymentRow}
use voyagi.Store.Monad.{ok, err, notation, booking_not_cancellable}
use voyagi.Payments.Repository.{owned_by}
use voyagi.Bookings.Repository.{Booking, lock_booking_aggregate}
use voyagi.Bookings.Service.{BookingsService, cancel_within, expire_within}
use voyagi.Store.Changes.{BookingIn, SeatIn}
use voyagi.Bookings.Cancelling.{awaits, of_booking, cancel_effect, cancel_refused}
use voyagi.Bookings.Expiring.{is_overdue, expire_effect, expire_again, of_gone}

abbrev waiting : BookingRow
waiting = record {
  id = 10;
  booking_reference = 1000;
  trip_id = 5;
  company_id = 3;
  branch_id = none;
  booked_by_user_id = some 40;
  booking_channel = web;
  status = held;
  ticket_price_snapshot = 50000;
  subtotal_amount = 50000;
  service_fee_amount = 0;
  discount_amount = 0;
  total_amount = 50000;
  currency = 1;
  expires_at = some 900;
  version = 1;
  created_at = 0;
  updated_at = 0;
}

abbrev paid : BookingRow
paid = record waiting { id = 11; booking_reference = 1001; status = confirmed }

abbrev seat : SeatRow
seat = record {
  id = 12;
  trip_id = 5;
  booking_id = 10;
  passenger_id = 13;
  seat_number = 4;
  status = seat_held;
  held_until = some 900;
  updated_at = 0;
}

abbrev payment : PaymentRow
payment = record {
  id = 20;
  booking_id = 10;
  method = cash;
  status = pending;
  amount = 50000;
  currency = 1;
  provider_reference = none;
  internal_reference = 2000;
  confirmed_by_user_id = none;
  paid_at = none;
  created_at = 0;
  updated_at = 100;
}

abbrev db : Db
db = record {
  network = no_network;
  trips = [];
  trip_events = [];
  memberships = [];
  bookings = waiting ∷ paid ∷ [];
  passengers = [];
  seats =
      seat
      ∷ record seat {
        id = 14;
        booking_id = 11;
        passenger_id = 15;
        seat_number = 5;
        status = seat_confirmed;
      }
      ∷ [];
  payments = payment ∷ [];
  tickets = [];
  events = [];
  idempotency = [];
  commissions = [];
  audit = [];
  next_id = 30;
}

abbrev service : BookingsService
service = record {
  generate_reference = λ n. 1002 + n;
  fingerprint = λ p. 7;
  now = 1000;
  app_now = 1000;
  audits = true;
}

waiting-awaits : any (awaits service 40 none (owned_by 40) 10) db.bookings ≡ true
unfolding BookingStatus-discrete is_online_channel
waiting-awaits = refl

cancel_effect_example :
    let r = cancel_within service 40 none (owned_by 40) 10 db in
    ((b : Booking) × (r.0 ≡ ok b))
    × Rewritten
        (awaits service 40 none (owned_by 40) 10)
        (BookingIn cancelled)
        db.bookings
        r.1.bookings
    × Rewritten
        (of_booking service 40 none (owned_by 40) 10)
        (SeatIn seat_cancelled)
        db.seats
        r.1.seats
    × (r.1.payments ≡ db.payments)
cancel_effect_example =
    cancel_effect service 40 none (owned_by 40) 10 db (λ b. refl) waiting-awaits refl

paid-visible : lock_booking_aggregate (owned_by 40) 11 db ≡ true
unfolding lock_booking_aggregate is_online_channel
paid-visible = refl

paid-not_awaiting : any (awaits service 40 none (owned_by 40) 11) db.bookings ≡ false
unfolding BookingStatus-discrete is_online_channel
paid-not_awaiting = refl

cancel_refused_example :
    cancel_within service 40 none (owned_by 40) 11 db ≡ (err booking_not_cancellable, db)
cancel_refused_example =
    cancel_refused service 40 none (owned_by 40) 11 db paid-visible (inl paid-not_awaiting)

expire_effect_example :
    let gone = select (is_overdue service 3) db.bookings in
    let r = expire_within service 3 db in
    (r.0 ≡ ok (length gone))
    × Rewritten (is_overdue service 3) (BookingIn expired) db.bookings r.1.bookings
    × Rewritten (of_gone service 3 gone) (SeatIn seat_released) db.seats r.1.seats
    × (r.1.payments ≡ db.payments)
expire_effect_example = expire_effect service 3 db

expire_again_example : (expire_within service 3 (expire_within service 3 db).1).0 ≡ ok 0
expire_again_example = expire_again service 3 db

-- A bus with the seats 4 and 5 on trip 5.
abbrev bus_db : Db
bus_db = record db {
  network = record no_network {
    buses =
        record {
          id = 2;
          company_id = 3;
          seat_layout_id = 1;
          status = active_bus;
          is_active = true;
          deleted_at = none;
        }
        ∷ [];
    layouts = record { id = 1; seat_numbers = 50 ∷ 53 ∷ [] } ∷ [];
  };
  trips =
      record {
        id = 5;
        company_id = 3;
        route_id = 6;
        bus_id = 2;
        driver_id = none;
        assistant_id = none;
        departure_time = 5000;
        estimated_arrival_time = 9000;
        actual_departure_time = none;
        actual_arrival_time = none;
        boarding_closes_at = 4000;
        price_mru = 50000;
        currency = 1;
        status = scheduled;
        is_active = true;
        version = 1;
        created_at = 0;
        updated_at = 0;
      }
      ∷ [];
  seats = record seat { seat_number = 50 } ∷ [];
}

-- A passenger for the seat of one character.
abbrev for_seat : ℕ → BookingPassengerInput
for_seat c = record {
  full_name = b'a' ∷ [];
  phone = none;
  document_number = none;
  boarding_station_id = none;
  gender = none;
  seat_id = c ∷ [];
}

placed_runs : (insert_seats service 5 10 (for_seat 52 ∷ []) bus_db).0 ≡ ok tt
unfolding insert_seats insert_passenger insert_seat seat_violation seats_of_trip new_passenger trim
    notation
placed_runs = refl

insert_seats-Placed_example :
    Placed service 5 10 bus_db
      (insert_seats service 5 10 (for_seat 52 ∷ []) bus_db).1
      (for_seat 52 ∷ [])
insert_seats-Placed_example =
    insert_seats-Placed service 5 10 (for_seat 52 ∷ []) bus_db {b = waiting} refl placed_runs
