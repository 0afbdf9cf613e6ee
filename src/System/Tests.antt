-- ===== src/System/Tests.antt =====
-- An empty company, and a payment that is waiting beside a seat that is taken.
use voyagi.Prelude.{◌≡◌, [], ◌∷◌, refl, arith, true, false, List, none, some}
use voyagi.Identity.Identifier.{Text, bigint_of}
use voyagi.Store.Network.{no_network, TripRow, TripStatus-discrete, scheduled}
use voyagi.Store.Enums.{seat_held, seat_cancelled, cash, pending, is_settled}
use voyagi.Store.Rows.{Db, SeatRow, PaymentRow}
use voyagi.Tickets.Service.{TicketsService}
use voyagi.Bookings.Service.{BookingsService}
use voyagi.Bookings.Calls.{expiry}
use voyagi.Tickets.Calls.{validation}
use voyagi.System.Calls.{
  SystemCall, booking_call, ticket_call, trip_call, serve_system, system_history,
}
use voyagi.System.Preserving.{IsSound}
use voyagi.System.Soundness.{system_history-IsSound}
use voyagi.System.Rollback.{system_call_rolls_back}
use voyagi.Trips.Transitions.{start}
use voyagi.Trips.Calls.{action, serve}
use voyagi.Store.Monad.{err, trip_not_found, transaction, settle_transaction, notation}
use voyagi.Trips.Service.{apply_transition, transition_within, after_transition}
use voyagi.Trips.Repository.{transition, change_trip, find_in_company}

abbrev seat : SeatRow
seat = record {
  id = 12;
  trip_id = 5;
  booking_id = 10;
  passenger_id = 13;
  seat_number = 4;
  status = seat_held;
  held_until = some 900;
  updated_at = 0;
}

abbrev payment : PaymentRow
payment = record {
  id = 20;
  booking_id = 10;
  method = cash;
  status = pending;
  amount = 50000;
  currency = 1;
  provider_reference = none;
  internal_reference = 2000;
  confirmed_by_user_id = none;
  paid_at = none;
  created_at = 0;
  updated_at = 100;
}

abbrev trip : TripRow
trip = record {
  id = 5;
  company_id = 3;
  route_id = 6;
  bus_id = 2;
  driver_id = none;
  assistant_id = none;
  departure_time = 5000;
  estimated_arrival_time = 9000;
  actual_departure_time = none;
  actual_arrival_time = none;
  boarding_closes_at = 4000;
  price_mru = 50000;
  currency = 1;
  status = scheduled;
  is_active = true;
  version = 1;
  created_at = 0;
  updated_at = 0;
}

abbrev db : Db
db = record {
  network = no_network;
  trips = trip ∷ [];
  trip_events = [];
  memberships = [];
  bookings = [];
  passengers = [];
  seats = record seat { id = 11; status = seat_cancelled } ∷ seat ∷ [];
  payments = payment ∷ [];
  tickets = [];
  events = [];
  idempotency = [];
  commissions = [];
  audit = [];
  next_id = 30;
}

abbrev bookings_service : BookingsService
bookings_service = record {
  generate_reference = λ n. n;
  fingerprint = λ p. 7;
  now = 1000;
  app_now = 1000;
  audits = true;
}

abbrev tickets_service : TicketsService
tickets_service = record {
  random_token = λ n. b'a' ∷ [];
  hash = λ t. 3;
  generate_ticket_number = λ n. n;
  now = 1000;
  audits = false;
}

abbrev one : Text
one = b'1' ∷ []

abbrev calls : List SystemCall
calls =
    booking_call bookings_service (expiry one)
    ∷ ticket_call tickets_service (validation one one one)
    ∷ trip_call (action 100 one one start 40)
    ∷ []

db-IsSound : IsSound db
unfolding is_settled TripStatus-discrete
db-IsSound = record {
  payments = record { distinct = (refl, tt); once = (refl, tt); below = (omega arith, tt) };
  tickets = record { distinct = tt; consistent = refl; below = refl };
  seats = (refl, (refl, tt));
  schedule = record { apart = (refl, tt); timed = refl; below = refl };
}

system_history-IsSound_example : IsSound (system_history calls db)
system_history-IsSound_example = system_history-IsSound calls db db-IsSound

-- Company 1 has no trip 1.
missing-throws : (serve_system (trip_call (action 100 one one start 40)) db).0 ≡ err trip_not_found
unfolding serve_system serve apply_transition transaction settle_transaction transition_within
    transition change_trip after_transition find_in_company bigint_of notation
missing-throws = refl

system_call_rolls_back_example : (serve_system (trip_call (action 100 one one start 40)) db).1 ≡ db
system_call_rolls_back_example =
    system_call_rolls_back (trip_call (action 100 one one start 40)) db trip_not_found
      missing-throws
