-- ===== src/Trips/Moving.antt =====
-- What an action on a trip does, against the life of a trip: a scheduled trip departs or is cancelled,
-- and one on the road arrives.
use voyagi.Prelude.{
  ℕ, ◌+◌, Bool, true, false, List, [], ◌∷◌, Option, some, ◌≡◌, refl, subst, sym, arith, any,
  any_absent, find, find_absent, ◌&&◌, ◌==◌, Bool-cases, inl, inr,
}
use voyagi.Store.Network.{
  TripRow, TripStatus, TripStatus-discrete, TripEventType, is_trip, scheduled, ongoing,
  trip_completed, trip_cancelled, departed, arrived, cancelled_trip,
}
use voyagi.Store.Rows.{Db}
use voyagi.Store.Monad.{err, notation, trip_transition_conflict}
use voyagi.Trips.Transitions.{TripAction, start, complete, cancel, trip_transitions, can_apply}
use voyagi.Trips.Repository.{find_in_company, transition, change_trip, is_source}
use voyagi.Trips.Service.{transition_within, after_transition}
use voyagi.Trips.Schedule.{NoClash, clashes}

-- The status that an action asks for, the one that it leads to, and what it is logged as.
abbrev pub starts_from : TripAction → TripStatus
starts_from start = scheduled
starts_from complete = ongoing
starts_from cancel = scheduled

abbrev pub leads_to : TripAction → TripStatus
leads_to start = ongoing
leads_to complete = trip_completed
leads_to cancel = trip_cancelled

abbrev pub logged_as : TripAction → TripEventType
logged_as start = departed
logged_as complete = arrived
logged_as cancel = cancelled_trip

-- The actual times after an action.
abbrev pub departure_after : ℕ → TripAction → TripRow → Option ℕ
departure_after now start t = some now
departure_after now complete t = t.actual_departure_time
departure_after now cancel t = t.actual_departure_time

abbrev pub arrival_after : ℕ → TripAction → TripRow → Option ℕ
arrival_after now start t = t.actual_arrival_time
arrival_after now complete t = some now
arrival_after now cancel t = t.actual_arrival_time

-- The trip after an action: another status, one version on, stamped, and else the same.
pub record Moved (now : ℕ) (action : TripAction) (a b : TripRow) : Type 0 where
  pub id : b.id ≡ a.id
  pub company_id : b.company_id ≡ a.company_id
  pub route_id : b.route_id ≡ a.route_id
  pub bus_id : b.bus_id ≡ a.bus_id
  pub driver_id : b.driver_id ≡ a.driver_id
  pub assistant_id : b.assistant_id ≡ a.assistant_id
  pub departure_time : b.departure_time ≡ a.departure_time
  pub estimated_arrival_time : b.estimated_arrival_time ≡ a.estimated_arrival_time
  pub price_mru : b.price_mru ≡ a.price_mru
  pub actual_departure_time : b.actual_departure_time ≡ departure_after now action a
  pub actual_arrival_time : b.actual_arrival_time ≡ arrival_after now action a
  pub status : b.status ≡ leads_to action
  pub version : b.version ≡ a.version + 1

-- The clause of the update.
abbrev pub is_ready : ℕ → ℕ → TripAction → TripRow → Bool
is_ready company trip action t =
    (t.id == trip && t.company_id == company) && is_trip t.status (starts_from action)

same_status :
    (action : TripAction) (x : TripStatus) → can_apply action x ≡ is_trip x (starts_from action)
unfolding can_apply trip_transitions TripStatus-discrete
same_status start x = ground arith
same_status complete x = ground arith
same_status cancel x = ground arith

source_rows :
    (company trip : ℕ) (action : TripAction)
    → is_source company trip (trip_transitions action) ≡ is_ready company trip action
unfolding can_apply
source_rows company trip action =
    λ i t. (t.id == trip && t.company_id == company) && same_status action t.status i

no_other :
    (company trip : ℕ) (action : TripAction) (r : TripRow) (ts : List TripRow)
    → any (clashes r) ts ≡ false
    → (r.id == trip) ≡ true
    → any (is_ready company trip action) ts ≡ false
no_other company trip action r ts h e =
    any_absent (is_ready company trip action) (clashes r) (λ x p. ground (arith, e, p)) ts h

unready :
    (company trip : ℕ) (action : TripAction) (ts : List TripRow) {t : TripRow}
    → NoClash ts
    → find (λ r. r.id == trip && r.company_id == company) ts ≡ some t
    → is_trip t.status (starts_from action) ≡ false
    → any (is_ready company trip action) ts ≡ false
unready company trip action [] n f s = refl
unready company trip action (r ∷ ts) {t} n f s =
    elim (Bool-cases (r.id == trip && r.company_id == company)) [
      | inl e ↦
          let found : some r ≡ some t = rw e at f in
          let same : r ≡ t = cc in
          ground (
            arith,
            no_other company trip action r ts n.0,
            subst (λ x. is_trip x.status (starts_from action) ≡ false) (sym same) s,
            e,
          )
      | inr e ↦ ground (arith, e, unready company trip action ts n.1 (rw e at f) s)
    ]

module _ (now company trip : ℕ) (action : TripAction) (actor : ℕ) (db : Db) {t : TripRow} where
  -- Where no two trips share an id or clash, and the trip is in the company, in another status than the
  -- one that the action asks for, the call throws a conflict, and the database is as it was.
  pub transition_refused :
      NoClash db.trips
      → find_in_company company trip db ≡ some t
      → is_trip t.status (starts_from action) ≡ false
      → transition_within now company trip action actor db ≡ (err trip_transition_conflict, db)
  unfolding transition_within transition change_trip find_in_company after_transition notation
  transition_refused n f s =
      rw
        (
          transition_within,
          transition,
          change_trip,
          find_absent _ db.trips (
              subst (λ p. any p db.trips ≡ false) (sym (source_rows company trip action))
                (unready company trip action db.trips n f s)),
          f,
        )
        refl
