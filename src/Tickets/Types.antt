-- ===== src/Tickets/Types.antt =====
-- modules/tickets/ticket.types.ts, and the rows that tickets.repository.ts names.
use voyagi.Prelude.{ℕ, Bool, List, Option, none, some}
use voyagi.Identity.Identifier.{Text}
use voyagi.Store.Enums.{BookingStatus}

pub data TicketStatus : Type 0 where
  issued ticket_checked_in ticket_cancelled : TicketStatus

-- A revoked ticket is CANCELLED, whether it was used or not.
unfoldable pub derive_ticket_status : Option ℕ → Option ℕ → TicketStatus
derive_ticket_status checked_in_at (some t) = ticket_cancelled
derive_ticket_status (some t) none = ticket_checked_in
derive_ticket_status none none = issued

pub record Ticket : Type 0 where
  pub id : ℕ
  pub booking_id : ℕ
  pub company_id : ℕ
  pub passenger_id : ℕ
  pub seat_reservation_id : ℕ
  pub seat_number : ℕ
  pub passenger_name : ℕ
  pub ticket_number : ℕ
  pub status : TicketStatus
  pub issued_at : ℕ
  pub checked_in_at : Option ℕ
  pub cancelled_at : Option ℕ

-- The raw token is there for a ticket that the call created.
pub record IssuedTicket : Type 0 where
  pub ticket : Ticket
  pub qr_token : Option Text

pub record VerifiableTicket : Type 0 where
  pub ticket : Ticket
  pub booking_status : BookingStatus
  pub is_paid : Bool

pub record TicketPage : Type 0 where
  pub items : List Ticket
  pub total : ℕ

pub data InvalidReason : Type 0 where
  revoked already_used booking_not_confirmed not_paid : InvalidReason

-- `valid` is true where there is no reason.
pub record TicketVerification : Type 0 where
  pub ticket : Ticket
  pub valid : Bool
  pub reason : Option InvalidReason

pub record IssuablePassenger : Type 0 where
  pub passenger_id : ℕ
  pub seat_reservation_id : ℕ

pub record TicketableBooking : Type 0 where
  pub booking_id : ℕ
  pub company_id : ℕ
  pub status : BookingStatus
  pub is_paid : Bool

pub record InsertTicketParams : Type 0 where
  pub booking_id : ℕ
  pub passenger_id : ℕ
  pub seat_reservation_id : ℕ
  pub ticket_number : ℕ
  pub qr_token_hash : ℕ

pub record LockedTicket : Type 0 where
  pub id : ℕ
  pub booking_id : ℕ
  pub company_id : ℕ
  pub seat_reservation_id : ℕ
  pub booking_status : BookingStatus
  pub is_paid : Bool
  pub checked_in_at : Option ℕ
  pub cancelled_at : Option ℕ
