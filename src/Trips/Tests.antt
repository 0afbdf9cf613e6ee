-- ===== src/Trips/Tests.antt =====
-- Trip 5 of company 3 is scheduled from 5000 to 9000, and trip 6 of the same bus is over.
use voyagi.Prelude.{false, ◌≡◌, refl, ◌⊎◌, true, find, [], ◌∷◌, List, none, some, ◌==◌}
use voyagi.Identity.Identifier.{Text, bigint_of}
use voyagi.Store.Network.{
  is_trip, no_network, active_bus, scheduled, ongoing, trip_completed, TripRow, TripStatus-discrete,
}
use voyagi.Store.Rows.{Db}
use voyagi.Store.Monad.{
  transaction, settle_transaction, ok, err, notation, trip_transition_conflict,
}
use voyagi.Trips.Transitions.{start, cancel, trip_transitions}
use voyagi.Trips.Repository.{
  set, is_live, transition, append_trip_event, find_in_company, trip_violation, TripUpdate, keep,
  change_trip, update_details, lock_bus_assignment, has_active_maintenance_overlap,
  read_boarding_close_minutes,
}
use voyagi.Trips.Service.{
  update_trip, apply_transition, after_transition, transition_within, update_within, or_missed,
  assert_changed_staff, closes_if_moved, compute_boarding_closes_at,
}
use voyagi.Trips.Calls.{serve, Call, edit, action, trip_history}
use voyagi.Trips.Schedule.{IsScheduled}
use voyagi.Trips.Timetable.{trip_history-IsScheduled, trip_history_final, is_final}
use voyagi.Trips.Moving.{transition_refused}
use voyagi.Trips.Editing.{IsRefused, update_once}
use voyagi.Trips.Instants.{bus_in_one_place, is_underway}

abbrev trip : TripRow
trip = record {
  id = 5;
  company_id = 3;
  route_id = 6;
  bus_id = 2;
  driver_id = none;
  assistant_id = none;
  departure_time = 5000;
  estimated_arrival_time = 9000;
  actual_departure_time = none;
  actual_arrival_time = none;
  boarding_closes_at = 4000;
  price_mru = 50000;
  currency = 1;
  status = scheduled;
  is_active = true;
  version = 1;
  created_at = 0;
  updated_at = 0;
}

abbrev over : TripRow
over = record trip {
  id = 6;
  departure_time = 1000;
  estimated_arrival_time = 3000;
  boarding_closes_at = 900;
  status = trip_completed;
}

abbrev db : Db
db = record {
  network = record no_network {
    routes =
        record {
          id = 6;
          company_id = 3;
          origin_station_id = 1;
          destination_station_id = 2;
          default_price_mru = 50000;
          currency = 1;
          is_active = true;
          deleted_at = none;
        }
        ∷ [];
    buses =
        record {
          id = 2;
          company_id = 3;
          seat_layout_id = 1;
          status = active_bus;
          is_active = true;
          deleted_at = none;
        }
        ∷ [];
  };
  trips = trip ∷ over ∷ [];
  trip_events = [];
  memberships = [];
  bookings = [];
  passengers = [];
  seats = [];
  payments = [];
  tickets = [];
  events = [];
  idempotency = [];
  commissions = [];
  audit = [];
  next_id = 30;
}

abbrev later : TripUpdate
later = record {
  departure_time = some 6000;
  estimated_arrival_time = none;
  driver_id = keep;
  assistant_id = keep;
}

abbrev three : Text
three = b'3' ∷ []

abbrev five : Text
five = b'5' ∷ []

abbrev calls : List Call
calls = edit 100 three five 1 later ∷ action 200 three five start 40 ∷ []

db-IsScheduled : IsScheduled db
unfolding TripStatus-discrete
db-IsScheduled = record { apart = (refl, (refl, tt)); timed = refl; below = refl }

trip_history-IsScheduled_example : IsScheduled (trip_history calls db)
trip_history-IsScheduled_example = trip_history-IsScheduled calls db db-IsScheduled

trip_history_final_example :
    (u : TripRow) × (find (λ r. r.id == 6) (trip_history calls db).trips ≡ some u)
    × (u.price_mru ≡ over.price_mru)
    × (u.route_id ≡ over.route_id)
    × (u.bus_id ≡ over.bus_id)
    × ((is_final over.status ≡ false) ⊎ (u ≡ over))
trip_history_final_example = trip_history_final calls db 6 {t = over} refl

over-found : find_in_company 3 6 db ≡ some over
unfolding find_in_company
over-found = refl

over-not_scheduled : is_trip over.status scheduled ≡ false
unfolding TripStatus-discrete
over-not_scheduled = refl

transition_refused_example :
    transition_within 5000 3 6 cancel 40 db ≡ (err trip_transition_conflict, db)
transition_refused_example =
    transition_refused 5000 3 6 cancel 40 db {t = over} db-IsScheduled.apart over-found
      over-not_scheduled

abbrev edited : TripRow
edited = record trip {
  departure_time = 6000;
  boarding_closes_at = 4200;
  version = 2;
  updated_at = 100;
}

edit-runs : (update_within 100 3 5 1 later db).0 ≡ ok edited
unfolding update_within assert_changed_staff find_in_company TripStatus-discrete lock_bus_assignment
    has_active_maintenance_overlap closes_if_moved compute_boarding_closes_at
    read_boarding_close_minutes update_details change_trip trip_violation or_missed notation
edit-runs = refl

-- The second edit assigns a driver that is not there.
abbrev driven : TripUpdate
driven = record later { driver_id = set 8 }

update_once_example :
    let d = (update_within 100 3 5 1 later db).1 in
    IsRefused driven d (update_within 150 3 5 1 driven d)
update_once_example = update_once 100 150 3 5 1 later driven db edit-runs

abbrev started : TripRow
started = record edited {
  status = ongoing;
  actual_departure_time = some 200;
  version = 3;
  updated_at = 200;
}

started-found : find (λ r. r.id == 5) (trip_history calls db).trips ≡ some started
unfolding trip_history serve update_trip apply_transition transition_within after_transition
    transition append_trip_event trip_transitions bigint_of transaction settle_transaction
    update_within assert_changed_staff find_in_company TripStatus-discrete lock_bus_assignment
    has_active_maintenance_overlap closes_if_moved compute_boarding_closes_at
    read_boarding_close_minutes update_details change_trip trip_violation or_missed notation
started-found = refl

over-kept : find (λ r. r.id == 6) (trip_history calls db).trips ≡ some over
unfolding trip_history serve update_trip apply_transition transition_within after_transition
    transition append_trip_event trip_transitions bigint_of transaction settle_transaction
    update_within assert_changed_staff find_in_company TripStatus-discrete lock_bus_assignment
    has_active_maintenance_overlap closes_if_moved compute_boarding_closes_at
    read_boarding_close_minutes update_details change_trip trip_violation or_missed notation
over-kept = refl

started-live : is_live started ≡ true
unfolding TripStatus-discrete
started-live = refl

over-live : is_live over ≡ true
unfolding TripStatus-discrete
over-live = refl

bus_in_one_place_example : is_underway 7000 over ≡ false
bus_in_one_place_example =
    bus_in_one_place calls db 5 6 7000 {t = started} {u = over} db-IsScheduled started-found
      over-kept refl refl started-live over-live refl
