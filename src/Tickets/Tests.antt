-- ===== src/Tickets/Tests.antt =====
-- A paid booking with one confirmed seat, before and after its ticket is issued.
use voyagi.Prelude.{
  ℕ, zero, suc, ◌≡◌, refl, true, false, ◌&&◌, any, find, ◌==◌, List, [], ◌∷◌, ◌++◌, none, some,
  Every,
}
use voyagi.Identity.Identifier.{Text}
use voyagi.Store.Enums.{
  BookingStatus-discrete, PaymentStatus-discrete, web, confirmed, seat_confirmed, male, cash,
  succeeded, is_online_channel,
}
use voyagi.Store.Network.{no_network}
use voyagi.Store.Rows.{Db, BookingRow, SeatRow, PassengerRow, PaymentRow, TicketRow}
use voyagi.Store.Monad.{ok, is_ok, notation}
use voyagi.Payments.Repository.{owned_by}
use voyagi.Tickets.Types.{
  Ticket, IssuedTicket, TicketVerification, derive_ticket_status, already_used, issued,
}
use voyagi.Tickets.Repository.{
  is_confirmed_seat, find_ticketable, is_paid, list_issuable_passengers, is_issuable, insert_ticket,
  conflicts, is_referenced, list_tickets_for_booking, list_for_booking, find_ticket_by_hash,
  join_where, join_ticket, map_ticket,
}
use voyagi.Tickets.Service.{
  TicketsService, issue_within, issue, insert_all, list_issued, verify_within, verification,
  invalid_reason, reason_of_booking, is_qr_token, validate_within,
}
use voyagi.Tickets.Calls.{Call, owner_issue}
use voyagi.Tickets.Unique.{IsValid, ticket_history-IsValid}
use voyagi.Tickets.Evolution.{ticket_history, ticket_history_settled}
use voyagi.Tickets.Scanning.{scan_agrees, scan_once}
use voyagi.Tickets.Redeeming.{Scans, issue_redeemed}

abbrev zeros : ℕ → Text
zeros zero = []
zeros (suc n) = b'0' ∷ zeros n

-- The UUID of two last digits.
abbrev uuid : ℕ → ℕ → Text
uuid a b =
    zeros 8 ++ b'-' ∷ zeros 4 ++ b'-' ∷ zeros 4 ++ b'-' ∷ zeros 4 ++ b'-' ∷ zeros 10 ++ a ∷ b ∷ []

abbrev booking : BookingRow
booking = record {
  id = 10;
  booking_reference = 1000;
  trip_id = 5;
  company_id = 3;
  branch_id = none;
  booked_by_user_id = some 40;
  booking_channel = web;
  status = confirmed;
  ticket_price_snapshot = 50000;
  subtotal_amount = 50000;
  service_fee_amount = 0;
  discount_amount = 0;
  total_amount = 50000;
  currency = 1;
  expires_at = none;
  version = 2;
  created_at = 0;
  updated_at = 0;
}

abbrev passenger : PassengerRow
passenger = record {
  id = 13;
  booking_id = 10;
  full_name = 77;
  phone = none;
  document_number = none;
  boarding_station_id = none;
  gender = male;
}

abbrev seat : SeatRow
seat = record {
  id = 12;
  trip_id = 5;
  booking_id = 10;
  passenger_id = 13;
  seat_number = 4;
  status = seat_confirmed;
  held_until = none;
  updated_at = 0;
}

abbrev payment : PaymentRow
payment = record {
  id = 20;
  booking_id = 10;
  method = cash;
  status = succeeded;
  amount = 50000;
  currency = 1;
  provider_reference = none;
  internal_reference = 2000;
  confirmed_by_user_id = some 41;
  paid_at = some 100;
  created_at = 0;
  updated_at = 100;
}

abbrev db : Db
db = record {
  network = no_network;
  trips = [];
  trip_events = [];
  memberships = [];
  bookings = booking ∷ [];
  passengers = passenger ∷ [];
  seats = seat ∷ [];
  payments = payment ∷ [];
  tickets = [];
  events = [];
  idempotency = [];
  commissions = [];
  audit = [];
  next_id = 30;
}

abbrev token : Text
token = zeros 16

abbrev hash : Text → ℕ
hash [] = 0
hash (c ∷ cs) = c

abbrev service : TicketsService
service = record {
  random_token = λ n. token;
  hash = hash;
  generate_ticket_number = λ n. 500;
  now = 200;
  audits = true;
}

abbrev ticket : TicketRow
ticket = record {
  id = 29;
  booking_id = 10;
  passenger_id = 13;
  seat_reservation_id = 12;
  ticket_number = 500;
  qr_token_hash = b'0';
  issued_at = 150;
  checked_in_at = none;
  cancelled_at = none;
}

abbrev issued_db : Db
issued_db = record db { tickets = ticket ∷ [] }

abbrev used_db : Db
used_db = record db { tickets = record ticket { checked_in_at = some 180 } ∷ [] }

db-IsValid : IsValid db
db-IsValid = record { distinct = tt; consistent = refl; below = refl }

abbrev calls : List (TicketsService × Call)
calls = (service, owner_issue (uuid b'2' b'8') (uuid b'0' b'a')) ∷ []

ticket_history-IsValid_example : IsValid (ticket_history calls db)
ticket_history-IsValid_example = ticket_history-IsValid calls db db-IsValid

ticket_history_settled_example :
    (u : TicketRow) × (find (λ r. r.id == 29) (ticket_history calls used_db).tickets ≡ some u)
    × (u.checked_in_at ≡ some 180)
    × (u.cancelled_at ≡ none)
    × (u.seat_reservation_id ≡ 12)
    × (u.qr_token_hash ≡ b'0')
ticket_history_settled_example =
    ticket_history_settled calls used_db 29 {t = record ticket { checked_in_at = some 180 }} refl
      refl

abbrev issued_ticket : Ticket
issued_ticket = record {
  id = 29;
  booking_id = 10;
  company_id = 3;
  passenger_id = 13;
  seat_reservation_id = 12;
  seat_number = 4;
  passenger_name = 77;
  ticket_number = 500;
  status = issued;
  issued_at = 150;
  checked_in_at = none;
  cancelled_at = none;
}

abbrev scan : TicketVerification
scan = record { ticket = issued_ticket; valid = true; reason = none }

scan-runs : (verify_within service (owned_by 40) token issued_db).0 ≡ ok scan
unfolding verify_within notation is_qr_token find_ticket_by_hash join_where join_ticket
    is_online_channel map_ticket derive_ticket_status is_paid verification invalid_reason
    reason_of_booking BookingStatus-discrete PaymentStatus-discrete
scan-runs = refl

scan_agrees_example : is_ok (validate_within service 41 (owned_by 40) 29 issued_db).0 ≡ true
scan_agrees_example = scan_agrees service 41 (owned_by 40) token issued_db (refl, tt) scan-runs

scan_once_example :
    let d = validate_within service 41 (owned_by 40) 29 issued_db in
    ((t : Ticket) × (d.0 ≡ ok t)
      × ((verify_within service (owned_by 40) token d.1).0
          ≡ ok (record { ticket = t; valid = false; reason = some already_used })))
    × (any (λ q. q.id == 12 && is_confirmed_seat q.status) d.1.seats ≡ false)
    × (d.1.payments ≡ issued_db.payments)
scan_once_example = scan_once service 41 (owned_by 40) token issued_db (refl, tt) scan-runs refl

token-is_qr_token : is_qr_token token ≡ true
unfolding is_qr_token
token-is_qr_token = refl

abbrev issuance : List IssuedTicket
issuance =
    record { ticket = record issued_ticket { id = 30; issued_at = 200 }; qr_token = some token }
    ∷ []

issue-runs : (issue_within service (owned_by 40) 10 db).0 ≡ ok issuance
unfolding issue_within issue notation find_ticketable is_online_channel is_paid insert_all
    list_issued list_issuable_passengers is_issuable insert_ticket conflicts is_referenced
    list_tickets_for_booking list_for_booking join_where join_ticket map_ticket derive_ticket_status
    BookingStatus-discrete PaymentStatus-discrete
issue-runs = refl

booking-owned : owned_by 40 booking ≡ true
unfolding is_online_channel
booking-owned = refl

issue_redeemed_example :
    Every
      (λ x.
        Scans service 10
          (owned_by 40)
          (issue_within service (owned_by 40) 10 db).1
          x.ticket
          x.qr_token)
      issuance
issue_redeemed_example =
    issue_redeemed service 10 (owned_by 40) (owned_by 40) db booking db-IsValid
      (λ n. token-is_qr_token) refl booking-owned booking-owned issue-runs
