-- ===== src/Trips/Service.antt =====
-- modules/trips/trips.service.ts. Times are in seconds, and none is so early that boarding would
-- close before the origin of time.
use voyagi.Prelude.{ℕ, ◌-◌, ◌*◌, Bool, true, ◌&&◌, ◌||◌, not, Option, none, some, ◌==◌, is_none}
use voyagi.Identity.Identifier.{Text, bigint_of}
use voyagi.Store.Network.{
  TripRow, StaffType, BusRow, is_operational, is_trip, scheduled, trip_created,
}
use voyagi.Store.Monad.{
  M, pure, throw, gets, or_throw, throw_if, transaction, ◌>>=◌, ◌>>◌, trip_not_found,
  trip_transition_conflict, trip_version_conflict, trip_association_invalid, validation_exception,
}
use voyagi.Trips.Transitions.{TripAction, trip_transitions}
use voyagi.Trips.Repository.{
  find_in_company, find_route_assignment, lock_bus_assignment, find_staff_assignment,
  read_boarding_close_minutes, has_active_maintenance_overlap, insert_trip, TripUpdate, Change,
  keep, clear, set, is_keep, value_or, update_details, transition, append_trip_event, is_driver,
  is_assistant,
}

pub record TripCreate : Type 0 where
  pub route_id : Text
  pub bus_id : Text
  pub driver_id : Option Text
  pub assistant_id : Option Text
  pub departure_time : ℕ
  pub estimated_arrival_time : ℕ

unfoldable pub optional_id : Option Text → M (Option ℕ)
optional_id none = pure none
optional_id (some t) = do id ← or_throw (bigint_of t) trip_association_invalid; pure (some id)

unfoldable pub assert_staff : ℕ → ℕ → (StaffType → Bool) → M (Unit {0})
assert_staff company staff type = do
  found ← gets (find_staff_assignment company staff)
  m ← or_throw found trip_association_invalid
  throw_if (not m.is_active) trip_association_invalid
  throw_if (not (type m.staff_type)) trip_association_invalid

unfoldable pub assert_optional_staff : ℕ → Option ℕ → (StaffType → Bool) → M (Unit {0})
assert_optional_staff company none type = pure tt
assert_optional_staff company (some staff) type = assert_staff company staff type

-- `typeof input.driverId === 'string'`
unfoldable pub assert_changed_staff : ℕ → Change → (StaffType → Bool) → M (Unit {0})
assert_changed_staff company keep type = pure tt
assert_changed_staff company clear type = pure tt
assert_changed_staff company (set staff) type = assert_staff company staff type

unfoldable pub compute_boarding_closes_at : ℕ → ℕ → M ℕ
compute_boarding_closes_at company departure = do
  minutes ← gets (read_boarding_close_minutes company)
  pure (departure - minutes * 60)

unfoldable pub closes_if_moved : ℕ → Option ℕ → M (Option ℕ)
closes_if_moved company none = pure none
closes_if_moved company (some departure) = do
  at ← compute_boarding_closes_at company departure
  pure (some at)

unfoldable pub get_trip : Text → Text → M TripRow
get_trip company_id trip_id = do
  company ← or_throw (bigint_of company_id) trip_not_found
  trip ← or_throw (bigint_of trip_id) trip_not_found
  found ← gets (find_in_company company trip)
  or_throw found trip_not_found

unfoldable pub create_within : ℕ → ℕ → ℕ → ℕ → ℕ → Option ℕ → Option ℕ → ℕ → ℕ → M TripRow
create_within now actor company route bus driver_id assistant_id departure arrival = do
  found_route ← gets (find_route_assignment company route)
  r ← or_throw found_route trip_association_invalid
  throw_if (not r.is_active) trip_association_invalid
  found_bus ← gets (lock_bus_assignment company bus)
  b ← or_throw found_bus trip_association_invalid
  throw_if (not b.is_active || not (is_operational b.status)) trip_association_invalid
  busy ← has_active_maintenance_overlap company bus departure arrival
  throw_if busy trip_association_invalid
  assert_optional_staff company driver_id is_driver
  assert_optional_staff company assistant_id is_assistant
  closes ← compute_boarding_closes_at company departure
  trip ← insert_trip now company (record {
    route_id = route;
    bus_id = bus;
    driver_id = driver_id;
    assistant_id = assistant_id;
    departure_time = departure;
    estimated_arrival_time = arrival;
    boarding_closes_at = closes;
    price_mru = r.default_price_mru;
    currency = r.currency;
  })
  append_trip_event company trip.id trip_created actor
  pure trip

unfoldable pub create_trip : ℕ → Text → TripCreate → ℕ → M TripRow
create_trip now company_id input actor = do
  company ← or_throw (bigint_of company_id) trip_association_invalid
  route ← or_throw (bigint_of input.route_id) trip_association_invalid
  bus ← or_throw (bigint_of input.bus_id) trip_association_invalid
  driver_id ← optional_id input.driver_id
  assistant_id ← optional_id input.assistant_id
  transaction (
      create_within now actor company route bus driver_id assistant_id input.departure_time
        input.estimated_arrival_time)

-- What follows an update: the row, or why there is none.
unfoldable pub or_missed : ℕ → ℕ → Option TripRow → M TripRow
or_missed company trip (some t) = pure t
or_missed company trip none = do
  existing ← gets (find_in_company company trip)
  t ← or_throw existing trip_not_found
  throw_if (not (is_trip t.status scheduled)) trip_transition_conflict
  throw trip_version_conflict

abbrev pub bus_unavailable : Option BusRow → Bool
bus_unavailable none = true
bus_unavailable (some b) = not b.is_active || not (is_operational b.status)

unfoldable pub update_within : ℕ → ℕ → ℕ → ℕ → TripUpdate → M TripRow
update_within now company trip version i = do
  assert_changed_staff company i.driver_id is_driver
  assert_changed_staff company i.assistant_id is_assistant
  found ← gets (find_in_company company trip)
  t ← or_throw found trip_not_found
  throw_if (not (is_trip t.status scheduled)) trip_transition_conflict
  throw_if (not (t.version == version)) trip_version_conflict
  bus ← gets (lock_bus_assignment company t.bus_id)
  throw_if (bus_unavailable bus) trip_association_invalid
  busy ←
      has_active_maintenance_overlap company t.bus_id (value_or i.departure_time t.departure_time)
        (value_or i.estimated_arrival_time t.estimated_arrival_time)
  throw_if busy trip_association_invalid
  closes ← closes_if_moved company i.departure_time
  updated ← update_details now company trip version i closes
  or_missed company trip updated

unfoldable pub update_trip : ℕ → Text → Text → ℕ → TripUpdate → M TripRow
update_trip now company_id trip_id version i = do
  throw_if
      (is_none i.departure_time
        && is_none i.estimated_arrival_time
        && is_keep i.driver_id
        && is_keep i.assistant_id)
      validation_exception
  company ← or_throw (bigint_of company_id) trip_not_found
  trip ← or_throw (bigint_of trip_id) trip_not_found
  transaction (update_within now company trip version i)

-- The row that the transition returns, with its event; or why there is none.
unfoldable pub after_transition : ℕ → ℕ → TripAction → ℕ → Option TripRow → M TripRow
after_transition company trip action actor (some t) = do
  append_trip_event company t.id (trip_transitions action).event actor
  pure t
after_transition company trip action actor none = do
  existing ← gets (find_in_company company trip)
  t ← or_throw existing trip_not_found
  throw trip_transition_conflict

unfoldable pub transition_within : ℕ → ℕ → ℕ → TripAction → ℕ → M TripRow
transition_within now company trip action actor = do
  moved ← transition now company trip (trip_transitions action)
  after_transition company trip action actor moved

unfoldable pub apply_transition : ℕ → Text → Text → TripAction → ℕ → M TripRow
apply_transition now company_id trip_id action actor = do
  company ← or_throw (bigint_of company_id) trip_not_found
  trip ← or_throw (bigint_of trip_id) trip_not_found
  transaction (transition_within now company trip action actor)
