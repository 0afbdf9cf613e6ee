-- ===== src/System/Rollback.antt =====
-- A call of any service that throws changes nothing.
use voyagi.Prelude.{Option, none, some, Option-cases, inl, inr, ◌≡◌, refl}
use voyagi.Identity.Identifier.{Text, bigint_of}
use voyagi.Identity.Roles.{Permission}
use voyagi.Store.Rows.{Db}
use voyagi.Store.Monad.{Error, err, pure}
use voyagi.Store.Keeps.{Keeps, Keeps-pure, keeping}
use voyagi.Store.Atomic.{
  Same, Same-preorder, IsAtomic, IsAtomic-transaction, IsAtomic-forget, IsAtomic->>=, IsAtomic->>,
}
use voyagi.Payments.Atomic as PaymentCalls
use voyagi.Bookings.Inputs.{CreateBookingInput, validate_create_booking}
use voyagi.Bookings.Service.{
  BookingsService, cancel_owned_booking, cancel_company_booking, expire_bookings,
}
use voyagi.Bookings.Creation.{create_passenger_booking_call, create_agent_booking_call}
use voyagi.Bookings.Calls as BookingCalls
use voyagi.Bookings.Calls.{
  passenger_creation, agent_creation, owner_cancellation, company_cancellation, expiry,
}
use voyagi.Tickets.Service.{
  TicketsService, ticket_scope, issue_for_owner, issue_for_company, validate_ticket, revoke_ticket,
}
use voyagi.Tickets.Calls as TicketCalls
use voyagi.Tickets.Calls.{owner_issue, company_issue, validation, revocation}
use voyagi.Trips.Service.{create_trip, optional_id, update_trip, apply_transition}
use voyagi.Trips.Calls as TripCalls
use voyagi.Trips.Calls.{creation, edit, action}
use voyagi.System.Calls.{
  SystemCall, booking_call, payment_call, ticket_call, trip_call, serve_system,
}

ruleset atomic = (keeping, Same-preorder, IsAtomic-transaction, IsAtomic->>=, IsAtomic->>)

pure-IsAtomic : {A : Type 0} (a : A) → IsAtomic (pure a)
unfolding pure
pure-IsAtomic a = record { rolls_back = λ db e h. refl }

validate-Same :
    (a : Text) (key : Option Text) (i : CreateBookingInput)
    → Keeps Same (validate_create_booking a key i)
unfolding validate_create_booking
validate-Same a key i = search (keeping, Same-preorder) depth 30

scope-Same : (s : TicketsService) (a c : Text) (p : Permission) → Keeps Same (ticket_scope s a c p)
unfolding ticket_scope
scope-Same s a c p = search (keeping, Same-preorder) depth 12

expire-IsAtomic : (s : BookingsService) (c : Text) → IsAtomic (expire_bookings s c)
unfolding expire_bookings
expire-IsAtomic s c = elim (Option-cases (bigint_of c)) [
  | inl e ↦ rw (expire_bookings, e) (pure-IsAtomic 0)
  | inr (n, e) ↦ rw (expire_bookings, e) (IsAtomic-transaction _)
]

bookings-IsAtomic :
    (s : BookingsService) (c : BookingCalls.Call) → IsAtomic (BookingCalls.serve s c)
unfolding BookingCalls.serve create_passenger_booking_call create_agent_booking_call
    cancel_owned_booking cancel_company_booking
bookings-IsAtomic s (passenger_creation a key i) =
    IsAtomic-forget _ (search (atomic, validate-Same) depth 20)
bookings-IsAtomic s (agent_creation a c b key i) =
    IsAtomic-forget _ (search (atomic, validate-Same) depth 20)
bookings-IsAtomic s (owner_cancellation a b) = IsAtomic-forget _ (search atomic depth 20)
bookings-IsAtomic s (company_cancellation a c b) = IsAtomic-forget _ (search atomic depth 20)
bookings-IsAtomic s (expiry c) = IsAtomic-forget _ (expire-IsAtomic s c)

tickets-IsAtomic : (s : TicketsService) (c : TicketCalls.Call) → IsAtomic (TicketCalls.serve s c)
unfolding TicketCalls.serve issue_for_owner issue_for_company validate_ticket revoke_ticket
tickets-IsAtomic s (owner_issue a b) = IsAtomic-forget _ (search atomic depth 20)
tickets-IsAtomic s (company_issue a c b) = IsAtomic-forget _ (search (atomic, scope-Same) depth 20)
tickets-IsAtomic s (validation a c t) = IsAtomic-forget _ (search (atomic, scope-Same) depth 20)
tickets-IsAtomic s (revocation a c t) = IsAtomic-forget _ (search (atomic, scope-Same) depth 20)

optional-Same : (o : Option Text) → Keeps Same (optional_id o)
unfolding optional_id
optional-Same none = Keeps-pure Same-preorder none
optional-Same (some t) = search (keeping, Same-preorder) depth 12

trips-IsAtomic : (c : TripCalls.Call) → IsAtomic (TripCalls.serve c)
unfolding TripCalls.serve create_trip update_trip apply_transition
trips-IsAtomic (creation now c i a) = IsAtomic-forget _ (search (atomic, optional-Same) depth 20)
trips-IsAtomic (edit now c t v i) = IsAtomic-forget _ (search atomic depth 20)
trips-IsAtomic (action now c t a u) = IsAtomic-forget _ (search atomic depth 20)

system-IsAtomic : (c : SystemCall) → IsAtomic (serve_system c)
unfolding serve_system
system-IsAtomic (booking_call s c) = bookings-IsAtomic s c
system-IsAtomic (payment_call s c) = PaymentCalls.serve-IsAtomic s c
system-IsAtomic (ticket_call s c) = tickets-IsAtomic s c
system-IsAtomic (trip_call c) = trips-IsAtomic c

-- A call of bookings, payments, tickets or trips that throws, wherever it does, leaves the database as it
-- was.
pub system_call_rolls_back :
    (c : SystemCall) (db : Db) (e : Error)
    → (serve_system c db).0 ≡ err e
    → (serve_system c db).1 ≡ db
system_call_rolls_back c = (system-IsAtomic c).rolls_back
