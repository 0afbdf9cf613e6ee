-- ===== src/Trips/Repository.antt =====
-- modules/trips/postgres-trips.repository.ts and postgres-trip-events.repository.ts, and
-- `hasActiveMaintenanceOverlap` of modules/maintenance/postgres-maintenance.repository.ts, with what
-- the triggers and the constraints of supabase/migrations refuse.
use voyagi.Prelude.{
  ℕ, ◌+◌, Bool, true, false, ◌&&◌, ◌||◌, not, [], ◌∷◌, ◌++◌, Option, none, some, any, find, update,
  ◌==◌, ltb, leb, is_none, is_some_of, if◌then◌else◌,
}
use voyagi.Store.Network.{
  Network, RouteRow, BusRow, StaffRow, StaffType, driver, assistant, SettingsRow, MaintenanceRow,
  MaintenanceStatus, maintenance_scheduled, in_progress, maintenance_completed,
  maintenance_cancelled, TripRow, is_trip, scheduled, trip_cancelled, TripEventType,
}
use voyagi.Store.Rows.{Db}
use voyagi.Store.Monad.{
  Error, check_violation, foreign_key_violation, unknown_database_error, exclusion_violation, ok,
  err, M,
}
use voyagi.Trips.Transitions.{
  TripTransition, TripTimestampField, actual_departure, actual_arrival, no_timestamp,
}

unfoldable pub find_in_company : ℕ → ℕ → Db → Option TripRow
find_in_company company trip db = find (λ t. t.id == trip && t.company_id == company) db.trips

unfoldable pub find_route_assignment : ℕ → ℕ → Db → Option RouteRow
find_route_assignment company route db =
    find (λ r. r.id == route && r.company_id == company && is_none r.deleted_at) db.network.routes

unfoldable pub lock_bus_assignment : ℕ → ℕ → Db → Option BusRow
lock_bus_assignment company bus db =
    find (λ b. b.id == bus && b.company_id == company && is_none b.deleted_at) db.network.buses

unfoldable pub find_staff_assignment : ℕ → ℕ → Db → Option StaffRow
find_staff_assignment company staff db =
    find (λ m. m.id == staff && m.company_id == company && is_none m.deleted_at) db.network.staff

abbrev boarding_minutes : Option SettingsRow → ℕ
boarding_minutes none = 30
boarding_minutes (some s) = s.boarding_close_minutes

unfoldable pub read_boarding_close_minutes : ℕ → Db → ℕ
read_boarding_close_minutes company db =
    boarding_minutes (find (λ s. s.company_id == company) db.network.settings)

abbrev is_open_maintenance : MaintenanceStatus → Bool
is_open_maintenance maintenance_scheduled = true
is_open_maintenance in_progress = true
is_open_maintenance maintenance_completed = false
is_open_maintenance maintenance_cancelled = false

-- The end of a maintenance, absent where it is open.
abbrev maintenance_end : MaintenanceRow → Option ℕ
maintenance_end m = elim m.status [
  | in_progress ↦ none
  | maintenance_scheduled ↦ m.scheduled_ends_at
  | maintenance_completed ↦ m.scheduled_ends_at
  | maintenance_cancelled ↦ m.scheduled_ends_at
]

-- `tstzrange(a, b, '[)') && tstzrange(c, d, '[)')`, for ranges whose bounds are not reversed: those of
-- a trip and of a maintenance that the tables hold, by their checks, and those of the two arguments
-- below. An empty range overlaps none.
abbrev pub ranges_overlap : ℕ → ℕ → ℕ → ℕ → Bool
ranges_overlap a b c d = ltb a b && ltb c d && ltb a d && ltb c b

abbrev open_range_overlaps : ℕ → Option ℕ → ℕ → ℕ → Bool
open_range_overlaps a none c d = ltb c d && ltb a d
open_range_overlaps a (some b) c d = ranges_overlap a b c d

abbrev pub is_busy : ℕ → ℕ → ℕ → ℕ → Db → Bool
is_busy company bus starts ends db =
    any
      (λ m.
        m.company_id == company
        && m.bus_id == bus
        && is_open_maintenance m.status
        && open_range_overlaps m.started_at (maintenance_end m) starts ends)
      db.network.maintenance

-- The range of the two arguments is built whatever the rows are, and its bounds must not be reversed.
unfoldable pub has_active_maintenance_overlap : ℕ → ℕ → ℕ → ℕ → M Bool
has_active_maintenance_overlap company bus starts ends db =
    if ltb ends starts
    then (err unknown_database_error, db)
    else (ok (is_busy company bus starts ends db), db)

-- The rows under the index `ex_trips_bus_no_overlap`, and its conflict.
abbrev pub is_live : TripRow → Bool
is_live t = t.is_active && not (is_trip t.status trip_cancelled)

abbrev pub overlaps : TripRow → TripRow → Bool
overlaps t u =
    u.bus_id == t.bus_id
    && ranges_overlap t.departure_time t.estimated_arrival_time u.departure_time
        u.estimated_arrival_time

-- The check `ck_trips_times`.
abbrev pub has_valid_times : TripRow → Bool
has_valid_times t =
    ltb t.departure_time t.estimated_arrival_time && leb t.boarding_closes_at t.departure_time

abbrev shares_staff : Option ℕ → Option ℕ → Bool
shares_staff none b = false
shares_staff (some a) b = is_some_of b a

abbrev pub arrives_late : Option ℕ → Option ℕ → Bool
arrives_late departure none = true
arrives_late none (some a) = false
arrives_late (some d) (some a) = leb d a

-- The checks, the foreign keys and the exclusion constraint, for a row that is written.
unfoldable pub trip_violation : Db → TripRow → Option Error
trip_violation db t =
    if not (has_valid_times t)
    then some check_violation
    else if shares_staff t.driver_id t.assistant_id
    then some check_violation
    else if not (arrives_late t.actual_departure_time t.actual_arrival_time)
    then some check_violation
    else if not (
        any (λ r. r.id == t.route_id && r.company_id == t.company_id) db.network.routes
        && any (λ b. b.id == t.bus_id && b.company_id == t.company_id) db.network.buses)
    then some foreign_key_violation
    else if is_live t && any (λ u. not (u.id == t.id) && is_live u && overlaps t u) db.trips
    then some exclusion_violation
    else none

abbrev pub is_driver : StaffType → Bool
is_driver driver = true
is_driver assistant = false

abbrev pub is_assistant : StaffType → Bool
is_assistant driver = false
is_assistant assistant = true

abbrev is_staffed : (StaffType → Bool) → ℕ → Network → Option ℕ → Bool
is_staffed type company n none = true
is_staffed type company n (some id) =
    any (λ m. m.id == id && m.company_id == company && type m.staff_type && m.is_active) n.staff

-- The trigger `validate_trip_staff`.
unfoldable pub has_valid_staff : Db → TripRow → Bool
has_valid_staff db t =
    is_staffed is_driver t.company_id db.network t.driver_id
    && is_staffed is_assistant t.company_id db.network t.assistant_id

pub record TripInsert : Type 0 where
  pub route_id : ℕ
  pub bus_id : ℕ
  pub driver_id : Option ℕ
  pub assistant_id : Option ℕ
  pub departure_time : ℕ
  pub estimated_arrival_time : ℕ
  pub boarding_closes_at : ℕ
  pub price_mru : ℕ
  pub currency : ℕ

abbrev pub new_trip : ℕ → ℕ → ℕ → TripInsert → TripRow
new_trip now id company i = record {
  id = id;
  company_id = company;
  route_id = i.route_id;
  bus_id = i.bus_id;
  driver_id = i.driver_id;
  assistant_id = i.assistant_id;
  departure_time = i.departure_time;
  estimated_arrival_time = i.estimated_arrival_time;
  actual_departure_time = none;
  actual_arrival_time = none;
  boarding_closes_at = i.boarding_closes_at;
  price_mru = i.price_mru;
  currency = i.currency;
  status = scheduled;
  is_active = true;
  version = 1;
  created_at = now;
  updated_at = now;
}

abbrev pub insert_checked : TripRow → Option Error → M TripRow
insert_checked t (some e) db = (err e, db)
insert_checked t none db =
    (ok t, record db { trips = db.trips ++ t ∷ []; next_id = db.next_id + 1 })

-- The trigger, then the constraints.
abbrev pub write_violation : Bool → Db → TripRow → Option Error
write_violation staff db t =
    if staff && not (has_valid_staff db t) then some check_violation else trip_violation db t

unfoldable pub insert_trip : ℕ → ℕ → TripInsert → M TripRow
insert_trip now company i db =
    let t = new_trip now db.next_id company i in insert_checked t (write_violation true db t) db

-- A change of one trip: `UPDATE … WHERE … RETURNING`.
abbrev pub change_checked :
    (TripRow → Bool) → (TripRow → TripRow) → TripRow → Option Error → M (Option TripRow)
change_checked where_ change t (some e) db = (err e, db)
change_checked where_ change t none db =
    (ok (some (change t)), record db { trips = update where_ change db.trips })

unfoldable pub change_trip : Bool → (TripRow → Bool) → (TripRow → TripRow) → M (Option TripRow)
change_trip staff where_ change db = elim (find where_ db.trips) [
  | none ↦ (ok none, db)
  | some t ↦ change_checked where_ change t (write_violation staff db (change t)) db
]

-- A field of an update: left as it is, cleared, or set.
pub data Change : Type 0 where
  keep clear : Change
  set : ℕ → Change

abbrev changed : Change → Option ℕ → Option ℕ
changed keep old = old
changed clear old = none
changed (set n) old = some n

abbrev pub is_keep : Change → Bool
is_keep keep = true
is_keep clear = false
is_keep (set n) = false

abbrev pub value_or : Option ℕ → ℕ → ℕ
value_or none old = old
value_or (some n) old = n

pub record TripUpdate : Type 0 where
  pub departure_time : Option ℕ
  pub estimated_arrival_time : Option ℕ
  pub driver_id : Change
  pub assistant_id : Change

abbrev pub updated_trip : ℕ → TripUpdate → Option ℕ → TripRow → TripRow
updated_trip now i closes t = record t {
  departure_time = value_or i.departure_time t.departure_time;
  estimated_arrival_time = value_or i.estimated_arrival_time t.estimated_arrival_time;
  driver_id = changed i.driver_id t.driver_id;
  assistant_id = changed i.assistant_id t.assistant_id;
  boarding_closes_at = value_or closes t.boarding_closes_at;
  version = t.version + 1;
  updated_at = now;
}

abbrev pub is_editable : ℕ → ℕ → ℕ → TripRow → Bool
is_editable company trip version t =
    (t.id == trip && t.company_id == company)
    && (is_trip t.status scheduled && t.version == version)

-- The staff trigger fires where the update names a member of the staff.
unfoldable pub update_details : ℕ → ℕ → ℕ → ℕ → TripUpdate → Option ℕ → M (Option TripRow)
unfolding change_trip
update_details now company trip version i closes =
    change_trip (not (is_keep i.driver_id) || not (is_keep i.assistant_id))
      (is_editable company trip version) (updated_trip now i closes)

abbrev stamped_trip : ℕ → TripTimestampField → TripRow → TripRow
stamped_trip now actual_departure t = record t { actual_departure_time = some now }
stamped_trip now actual_arrival t = record t { actual_arrival_time = some now }
stamped_trip now no_timestamp t = t

abbrev pub transitioned_trip : ℕ → TripTransition → TripRow → TripRow
transitioned_trip now spec t = record (stamped_trip now spec.stamps t) {
  status = spec.to;
  version = t.version + 1;
  updated_at = now;
}

abbrev pub is_source : ℕ → ℕ → TripTransition → TripRow → Bool
is_source company trip spec t =
    (t.id == trip && t.company_id == company) && any (λ s. is_trip s t.status) spec.from

unfoldable pub transition : ℕ → ℕ → ℕ → TripTransition → M (Option TripRow)
unfolding change_trip
transition now company trip spec =
    change_trip false (is_source company trip spec) (transitioned_trip now spec)

unfoldable pub append_trip_event : ℕ → ℕ → TripEventType → ℕ → M (Unit {0})
append_trip_event company trip type actor db = (
  ok tt,
  record db {
    trip_events =
        db.trip_events
        ++ record {
          trip_id = trip;
          company_id = company;
          event_type = type;
          actor_user_id = some actor;
        }
          ∷ [];
  },
)
