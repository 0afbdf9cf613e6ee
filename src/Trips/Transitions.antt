-- ===== src/Trips/Transitions.antt =====
-- modules/trips/trip-transitions.ts
use voyagi.Prelude.{Bool, List, [], ◌∷◌, any}
use voyagi.Store.Network.{
  TripStatus, is_trip, scheduled, ongoing, trip_completed, trip_cancelled, TripEventType, departed,
  arrived, cancelled_trip,
}

pub data TripAction : Type 0 where
  start complete cancel : TripAction

pub data TripTimestampField : Type 0 where
  actual_departure actual_arrival no_timestamp : TripTimestampField

pub record TripTransition : Type 0 where
  pub from : List TripStatus
  pub to : TripStatus
  pub event : TripEventType
  pub stamps : TripTimestampField

unfoldable pub trip_transitions : TripAction → TripTransition
trip_transitions start = record {
  from = scheduled ∷ [];
  to = ongoing;
  event = departed;
  stamps = actual_departure;
}
trip_transitions complete = record {
  from = ongoing ∷ [];
  to = trip_completed;
  event = arrived;
  stamps = actual_arrival;
}
trip_transitions cancel = record {
  from = scheduled ∷ [];
  to = trip_cancelled;
  event = cancelled_trip;
  stamps = no_timestamp;
}

unfoldable pub can_apply : TripAction → TripStatus → Bool
unfolding trip_transitions
can_apply action current = any (λ s. is_trip s current) (trip_transitions action).from
