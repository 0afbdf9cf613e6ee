-- ===== src/Bookings/Transitions.antt =====
-- modules/bookings/booking-transitions.ts.
use voyagi.Prelude.{Bool, List, [], ◌∷◌, any}
use voyagi.Store.Enums.{BookingStatus, held, pending_payment, cancelled, expired, is_booking}

pub data BookingAction : Type 0 where
  cancel expire : BookingAction

pub record BookingTransition : Type 0 where
  pub from : List BookingStatus
  pub to : BookingStatus

unfoldable pub booking_transitions : BookingAction → BookingTransition
booking_transitions cancel = record { from = held ∷ pending_payment ∷ []; to = cancelled }
booking_transitions expire = record { from = held ∷ pending_payment ∷ []; to = expired }

unfoldable pub can_apply_booking_action : BookingStatus → BookingAction → Bool
unfolding booking_transitions
can_apply_booking_action status action =
    any (λ s. is_booking s status) (booking_transitions action).from
