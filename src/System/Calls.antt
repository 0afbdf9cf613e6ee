-- ===== src/System/Calls.antt =====
-- A call of one of the services, with the environment it is served in.
use voyagi.Prelude.{List, [], ◌∷◌}
use voyagi.Store.Rows.{Db}
use voyagi.Store.Monad.{M}
use voyagi.Store.Keeps.{Keeps}
use voyagi.Bookings.Service.{BookingsService}
use voyagi.Payments.Service.{PaymentsService}
use voyagi.Tickets.Service.{TicketsService}
use voyagi.Bookings.Calls as BookingCalls
use voyagi.Payments.Calls as PaymentCalls
use voyagi.Tickets.Calls as TicketCalls
use voyagi.Trips.Calls as TripCalls

pub data SystemCall : Type 0 where
  booking_call : BookingsService → BookingCalls.Call → SystemCall
  payment_call : PaymentsService → PaymentCalls.Call → SystemCall
  ticket_call : TicketsService → TicketCalls.Call → SystemCall
  trip_call : TripCalls.Call → SystemCall

unfoldable pub serve_system : SystemCall → M (Unit {0})
serve_system (booking_call s c) = BookingCalls.serve s c
serve_system (payment_call s c) = PaymentCalls.serve s c
serve_system (ticket_call s c) = TicketCalls.serve s c
serve_system (trip_call c) = TripCalls.serve c

-- The state after a sequence of calls, successful or not.
unfoldable pub system_history : List SystemCall → Db → Db
system_history [] db = db
system_history (c ∷ cs) db = system_history cs (serve_system c db).1

-- What the statements of every service keep.
pub record SystemKept (R : Db → Db → Type 0) : Type 0 where
  pub bookings : BookingCalls.Kept R
  pub payments : PaymentCalls.Kept R
  pub tickets : TicketCalls.Kept R
  pub trips : TripCalls.Kept R

pub serve_system-kept :
    {R : Db → Db → Type 0} → SystemKept R → (c : SystemCall) → Keeps R (serve_system c)
unfolding serve_system
serve_system-kept k (booking_call s c) = BookingCalls.serve-kept k.bookings s c
serve_system-kept k (payment_call s c) = PaymentCalls.serve-kept k.payments s c
serve_system-kept k (ticket_call s c) = TicketCalls.serve-kept k.tickets s c
serve_system-kept k (trip_call c) = TripCalls.serve-kept k.trips c
