-- ===== src/Bookings/Inserts.antt =====
-- postgres-bookings.repository.ts: the facts of a trip, and the inserts of a booking, its passengers
-- and its seats, with what the triggers and the constraints of supabase/migrations refuse.
use voyagi.Prelude.{
  ℕ, ◌+◌, ◌*◌, Bool, true, false, ◌&&◌, not, List, [], ◌∷◌, ◌++◌, Option, none, some, any, find,
  includes, ◌==◌, ltb, is_none, map_option, if◌then◌else◌,
}
use voyagi.Identity.Identifier.{bigint_of}
use voyagi.Store.Enums.{
  BookingChannel, PassengerGender, unspecified, held, SeatStatus, seat_held, seat_confirmed,
  seat_checked_in, seat_released, seat_cancelled,
}
use voyagi.Store.Network.{
  Network, CompanyRow, SettingsRow, RouteRow, StationRow, BusRow, TripRow, TripStatus, is_trip,
  scheduled, is_operational,
}
use voyagi.Store.Rows.{Db, BookingRow, PassengerRow, SeatRow}
use voyagi.Store.Monad.{Error, ok, err, M, unique_violation, check_violation, foreign_key_violation}
use voyagi.Bookings.Inputs.{BookingPassengerInput, text_value, trim}

unfoldable pub find_trip_company : ℕ → Db → Option ℕ
find_trip_company trip db =
    map_option (λ (t : TripRow). t.company_id) (find (λ t. t.id == trip) db.trips)

abbrev is_open_company : ℕ → CompanyRow → Bool
is_open_company company c = c.id == company && c.is_active && is_none c.archived_at

abbrev is_open_station : ℕ → StationRow → Bool
is_open_station station s = s.id == station && s.is_active && is_none s.deleted_at

abbrev is_open_route : Network → TripRow → RouteRow → Bool
is_open_route n t r =
    r.id == t.route_id
    && r.company_id == t.company_id
    && r.is_active
    && is_none r.deleted_at
    && any (is_open_station r.origin_station_id) n.stations
    && any (is_open_station r.destination_station_id) n.stations

abbrev is_open_bus : TripRow → BusRow → Bool
is_open_bus t b =
    b.id == t.bus_id
    && b.company_id == t.company_id
    && b.is_active
    && is_none b.deleted_at
    && is_operational b.status

-- The joins that both queries make, with their conditions on the joined rows.
unfoldable pub is_offered : Network → TripRow → Bool
is_offered n t =
    any (is_open_company t.company_id) n.companies
    && any (is_open_route n t) n.routes
    && any (is_open_bus t) n.buses

pub record BookingTripFacts : Type 0 where
  pub trip_id : ℕ
  pub company_id : ℕ
  pub price : ℕ
  pub currency : ℕ
  pub status : TripStatus
  pub is_active : Bool
  pub boarding_closes_at : ℕ
  pub seat_hold_minutes : ℕ

abbrev to_facts : TripRow → SettingsRow → BookingTripFacts
to_facts t s = record {
  trip_id = t.id;
  company_id = t.company_id;
  price = t.price_mru;
  currency = t.currency;
  status = t.status;
  is_active = t.is_active;
  boarding_closes_at = t.boarding_closes_at;
  seat_hold_minutes = s.seat_hold_minutes;
}

abbrev settings_of : Db → TripRow → Option SettingsRow
settings_of db t = find (λ s. s.company_id == t.company_id) db.network.settings

unfoldable pub find_trip_for_booking : ℕ → ℕ → Db → Option BookingTripFacts
find_trip_for_booking trip company db =
    elim (find (λ t. t.id == trip && t.company_id == company && is_offered db.network t) db.trips) [
      | none ↦ none
      | some t ↦ map_option (to_facts t) (settings_of db t)
    ]

pub record InsertBookingParams : Type 0 where
  pub company_id : ℕ
  pub trip_id : ℕ
  pub branch_id : Option ℕ
  pub actor_user_id : ℕ
  pub booking_reference : ℕ
  pub booking_channel : BookingChannel
  pub passenger_count : ℕ

abbrev pub new_booking : ℕ → ℕ → InsertBookingParams → TripRow → SettingsRow → BookingRow
new_booking now id params t s = record {
  id = id;
  booking_reference = params.booking_reference;
  trip_id = t.id;
  company_id = t.company_id;
  branch_id = params.branch_id;
  booked_by_user_id = some params.actor_user_id;
  booking_channel = params.booking_channel;
  status = held;
  ticket_price_snapshot = t.price_mru;
  subtotal_amount = t.price_mru * params.passenger_count;
  service_fee_amount = 0;
  discount_amount = 0;
  total_amount = t.price_mru * params.passenger_count;
  currency = t.currency;
  expires_at = some (now + 60 * s.seat_hold_minutes);
  version = 1;
  created_at = now;
  updated_at = now;
}

-- The `WHERE` clause of the insert.
unfoldable pub is_bookable_row : ℕ → InsertBookingParams → Db → TripRow → Bool
is_bookable_row now params db t =
    t.id == params.trip_id
    && t.company_id == params.company_id
    && t.is_active
    && is_trip t.status scheduled
    && ltb now t.boarding_closes_at
    && is_offered db.network t

abbrev with_booking : ℕ → InsertBookingParams → Db → TripRow → SettingsRow → Db
with_booking now params db t s = record db {
  bookings = db.bookings ++ new_booking now db.next_id params t s ∷ [];
  next_id = db.next_id + 1;
}

abbrev insert_offered : ℕ → InsertBookingParams → TripRow → Option SettingsRow → M (Option ℕ)
insert_offered now params t none db = (ok none, db)
insert_offered now params t (some s) db =
    if any (λ b. b.booking_reference == params.booking_reference) db.bookings
    then (ok none, db)
    else (ok (some db.next_id), with_booking now params db t s)

unfoldable pub insert_booking : ℕ → InsertBookingParams → M (Option ℕ)
insert_booking now params db = elim (find (is_bookable_row now params db) db.trips) [
  | none ↦ (ok none, db)
  | some t ↦ insert_offered now params t (settings_of db t) db
]

abbrev pub bigint_or_none : Option (List ℕ) → Option ℕ
bigint_or_none none = none
bigint_or_none (some t) = bigint_of t

abbrev gender_or : Option PassengerGender → PassengerGender
gender_or none = unspecified
gender_or (some g) = g

unfoldable pub new_passenger : ℕ → ℕ → BookingPassengerInput → PassengerRow
new_passenger id booking p = record {
  id = id;
  booking_id = booking;
  full_name = text_value 0 (trim p.full_name);
  phone = map_option (text_value 0) p.phone;
  document_number = map_option (λ t. text_value 0 (trim t)) p.document_number;
  boarding_station_id = bigint_or_none p.boarding_station_id;
  gender = gender_or p.gender;
}

-- The foreign key on stations.
abbrev pub has_station : Network → Option ℕ → Bool
has_station n none = true
has_station n (some station) = any (λ s. s.id == station) n.stations

unfoldable pub insert_passenger : ℕ → BookingPassengerInput → M ℕ
insert_passenger booking p db =
    if has_station db.network (bigint_or_none p.boarding_station_id)
    then (
      ok db.next_id,
      record db {
        passengers = db.passengers ++ new_passenger db.next_id booking p ∷ [];
        next_id = db.next_id + 1;
      },
    )
    else (err foreign_key_violation, db)

-- `status in ('HELD', 'CONFIRMED', 'CHECKED_IN')`
abbrev pub is_active_seat : SeatStatus → Bool
is_active_seat seat_held = true
is_active_seat seat_confirmed = true
is_active_seat seat_checked_in = true
is_active_seat seat_released = false
is_active_seat seat_cancelled = false

abbrev layout_of : Db → Option BusRow → List ℕ
layout_of db none = []
layout_of db (some b) = elim (find (λ l. l.id == b.seat_layout_id) db.network.layouts) [
  | none ↦ []
  | some l ↦ l.seat_numbers
]

-- The seats that the trigger `validate_seat_for_trip` admits: those of the layout of the trip's bus.
unfoldable pub seats_of_trip : ℕ → Db → List ℕ
seats_of_trip trip db = elim (find (λ t. t.id == trip) db.trips) [
  | none ↦ []
  | some t ↦ layout_of db (find (λ b. b.id == t.bus_id) db.network.buses)
]

-- The index `uq_active_seat_per_trip`: whether a row takes the seat of a trip.
abbrev pub takes : ℕ → ℕ → SeatRow → Bool
takes trip seat s = s.trip_id == trip && s.seat_number == seat && is_active_seat s.status

-- The trigger, the check `ck_seat_hold_expiry`, and the unique indexes.
unfoldable pub seat_violation : Db → ℕ → BookingRow → ℕ → ℕ → Option Error
seat_violation db trip b passenger seat =
    if not (includes (seats_of_trip trip db) seat)
    then some check_violation
    else if is_none b.expires_at
    then some check_violation
    else if any (takes trip seat) db.seats
    then some unique_violation
    else if any (λ s. s.passenger_id == passenger) db.seats
    then some unique_violation
    else none

abbrev pub new_seat : ℕ → ℕ → ℕ → BookingRow → ℕ → ℕ → SeatRow
new_seat now id trip b passenger seat = record {
  id = id;
  trip_id = trip;
  booking_id = b.id;
  passenger_id = passenger;
  seat_number = seat;
  status = seat_held;
  held_until = b.expires_at;
  updated_at = now;
}

abbrev with_seat : ℕ → ℕ → BookingRow → ℕ → ℕ → Option Error → M (Unit {0})
with_seat now trip b passenger seat (some e) db = (err e, db)
with_seat now trip b passenger seat none db = (
  ok tt,
  record db {
    seats = db.seats ++ new_seat now db.next_id trip b passenger seat ∷ [];
    next_id = db.next_id + 1;
  },
)

unfoldable pub insert_seat : ℕ → ℕ → ℕ → ℕ → ℕ → M (Unit {0})
insert_seat now trip booking passenger seat db =
    elim (find (λ b. b.id == booking && b.trip_id == trip) db.bookings) [
      | none ↦ (ok tt, db)
      | some b ↦ with_seat now trip b passenger seat (seat_violation db trip b passenger seat) db
    ]
