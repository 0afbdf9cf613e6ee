-- ===== src/Store/Network.antt =====
-- What a trip stands on: companies with their settings, routes, stations, buses, layouts and staff;
-- and the trips. Prices are in hundredths, times in seconds.
use voyagi.Prelude.{ℕ, Bool, true, false, List, [], Option}

-- modules/buses/bus-status.ts
pub data BusStatus : Type 0 where
  active_bus in_maintenance out_of_service archived : BusStatus

-- modules/trips/trip-status.ts
pub data TripStatus : Type 0 where
  scheduled boarding ongoing trip_completed trip_cancelled : TripStatus

-- modules/trips/trip-event.types.ts
pub data TripEventType : Type 0 where
  trip_created boarding_opened boarding_closed departed delayed arrived : TripEventType
  cancelled_trip bus_changed driver_changed : TripEventType

pub record CompanyRow : Type 0 where
  pub id : ℕ
  pub is_active : Bool
  pub archived_at : Option ℕ

pub record SettingsRow : Type 0 where
  pub company_id : ℕ
  pub seat_hold_minutes : ℕ
  pub boarding_close_minutes : ℕ

pub record RouteRow : Type 0 where
  pub id : ℕ
  pub company_id : ℕ
  pub origin_station_id : ℕ
  pub destination_station_id : ℕ
  pub default_price_mru : ℕ
  pub currency : ℕ
  pub is_active : Bool
  pub deleted_at : Option ℕ

pub record StationRow : Type 0 where
  pub id : ℕ
  pub is_active : Bool
  pub deleted_at : Option ℕ

pub record BusRow : Type 0 where
  pub id : ℕ
  pub company_id : ℕ
  pub seat_layout_id : ℕ
  pub status : BusStatus
  pub is_active : Bool
  pub deleted_at : Option ℕ

-- A layout with the seats that `seat_layout_numbers` reads in its grid.
pub record LayoutRow : Type 0 where
  pub id : ℕ
  pub seat_numbers : List ℕ

-- modules/staff
pub data StaffType : Type 0 where
  driver assistant : StaffType

pub record StaffRow : Type 0 where
  pub id : ℕ
  pub company_id : ℕ
  pub staff_type : StaffType
  pub is_active : Bool
  pub deleted_at : Option ℕ

-- modules/maintenance
pub data MaintenanceStatus : Type 0 where
  maintenance_scheduled in_progress maintenance_completed maintenance_cancelled : MaintenanceStatus

pub record MaintenanceRow : Type 0 where
  pub company_id : ℕ
  pub bus_id : ℕ
  pub status : MaintenanceStatus
  pub started_at : ℕ
  pub scheduled_ends_at : Option ℕ

pub record Network : Type 0 where
  pub companies : List CompanyRow
  pub settings : List SettingsRow
  pub routes : List RouteRow
  pub stations : List StationRow
  pub buses : List BusRow
  pub layouts : List LayoutRow
  pub staff : List StaffRow
  pub maintenance : List MaintenanceRow

pub record TripRow : Type 0 where
  pub id : ℕ
  pub company_id : ℕ
  pub route_id : ℕ
  pub bus_id : ℕ
  pub driver_id : Option ℕ
  pub assistant_id : Option ℕ
  pub departure_time : ℕ
  pub estimated_arrival_time : ℕ
  pub actual_departure_time : Option ℕ
  pub actual_arrival_time : Option ℕ
  pub boarding_closes_at : ℕ
  pub price_mru : ℕ
  pub currency : ℕ
  pub status : TripStatus
  pub is_active : Bool
  pub version : ℕ
  pub created_at : ℕ
  pub updated_at : ℕ

pub record TripEventRow : Type 0 where
  pub trip_id : ℕ
  pub company_id : ℕ
  pub event_type : TripEventType
  pub actor_user_id : Option ℕ

-- Tests on a status ask for equality.
unfoldable pub TripStatus-discrete : Discrete TripStatus
TripStatus-discrete = hlevel

abbrev pub is_trip : TripStatus → TripStatus → Bool
is_trip a b = elim (TripStatus-discrete a b) [ yes _ ↦ true | no _ ↦ false ]

abbrev pub is_operational : BusStatus → Bool
is_operational active_bus = true
is_operational in_maintenance = false
is_operational out_of_service = false
is_operational archived = false

abbrev pub no_network : Network
no_network = record {
  companies = [];
  settings = [];
  routes = [];
  stations = [];
  buses = [];
  layouts = [];
  staff = [];
  maintenance = [];
}
