-- ===== src/Tickets/Repository.antt =====
-- modules/tickets/postgres-tickets.repository.ts. A row lock is no step of its own: a transaction
-- runs alone.
use voyagi.Prelude.{
  ℕ, ◌+◌, Bool, true, false, ◌&&◌, ◌||◌, not, List, [], ◌∷◌, ◌++◌, Option, none, some, any, find,
  update, order_by, ◌==◌, ltb, leb, is_none, if◌then◌else◌, map, take, drop, length, map_option,
}
use voyagi.Store.Enums.{
  succeeded, is_payment, seat_held, seat_confirmed, seat_checked_in, seat_released, seat_cancelled,
  SeatStatus,
}
use voyagi.Store.Rows.{Db, BookingRow, PassengerRow, SeatRow, TicketRow}
use voyagi.Store.Monad.{ok, err, M, foreign_key_violation}
use voyagi.Payments.Repository.{find_booking}
use voyagi.Tickets.Types.{
  derive_ticket_status, Ticket, VerifiableTicket, IssuablePassenger, TicketableBooking,
  InsertTicketParams, LockedTicket, TicketPage,
}

-- `IS_PAID`
unfoldable pub is_paid : ℕ → Db → Bool
is_paid booking db = any (λ p. p.booking_id == booking && is_payment p.status succeeded) db.payments

abbrev to_ticketable : Db → BookingRow → TicketableBooking
to_ticketable db b = record {
  booking_id = b.id;
  company_id = b.company_id;
  status = b.status;
  is_paid = is_paid b.id db;
}

-- `findBooking`, for the owner's clause or the company's.
unfoldable pub find_ticketable : (BookingRow → Bool) → ℕ → Db → Option TicketableBooking
find_ticketable where_ booking db = elim (find (λ b. b.id == booking && where_ b) db.bookings) [
  | none ↦ none
  | some b ↦ some (to_ticketable db b)
]

abbrev pub is_confirmed_seat : SeatStatus → Bool
is_confirmed_seat seat_held = false
is_confirmed_seat seat_confirmed = true
is_confirmed_seat seat_checked_in = false
is_confirmed_seat seat_released = false
is_confirmed_seat seat_cancelled = false

-- The join and the `WHERE` clause of `listIssuablePassengers`, for one passenger and one seat.
unfoldable pub is_issuable : Db → ℕ → PassengerRow → SeatRow → Bool
is_issuable db booking p s =
    s.passenger_id == p.id
    && s.booking_id == p.booking_id
    && p.booking_id == booking
    && is_confirmed_seat s.status
    && not (any (λ t. t.seat_reservation_id == s.id) db.tickets)

abbrev pub issuable_seats : Db → ℕ → PassengerRow → List SeatRow → List IssuablePassenger
issuable_seats db booking p [] = []
issuable_seats db booking p (s ∷ ss) =
    if is_issuable db booking p s
    then record { passenger_id = p.id; seat_reservation_id = s.id } ∷ issuable_seats db booking p ss
    else issuable_seats db booking p ss

abbrev pub issuable_passengers : Db → ℕ → List PassengerRow → List IssuablePassenger
issuable_passengers db booking [] = []
issuable_passengers db booking (p ∷ ps) =
    issuable_seats db booking p db.seats ++ issuable_passengers db booking ps

unfoldable pub list_issuable_passengers : ℕ → Db → List IssuablePassenger
list_issuable_passengers booking db =
    order_by (λ a b. leb a.passenger_id b.passenger_id)
      (issuable_passengers db booking db.passengers)

-- The four unique keys of the table: a conflict with any of them inserts nothing.
unfoldable pub conflicts : InsertTicketParams → TicketRow → Bool
conflicts params t =
    t.ticket_number == params.ticket_number
    || t.qr_token_hash == params.qr_token_hash
    || (t.booking_id == params.booking_id && t.passenger_id == params.passenger_id)
    || t.seat_reservation_id == params.seat_reservation_id

-- The foreign keys `fk_ticket_passenger_booking` and `fk_ticket_seat_passenger`.
unfoldable pub is_referenced : InsertTicketParams → Db → Bool
is_referenced params db =
    any (λ p. p.id == params.passenger_id && p.booking_id == params.booking_id) db.passengers
    && any
        (λ s.
          s.id == params.seat_reservation_id
          && s.booking_id == params.booking_id
          && s.passenger_id == params.passenger_id)
        db.seats

abbrev pub new_ticket : ℕ → ℕ → InsertTicketParams → TicketRow
new_ticket now id params = record {
  id = id;
  booking_id = params.booking_id;
  passenger_id = params.passenger_id;
  seat_reservation_id = params.seat_reservation_id;
  ticket_number = params.ticket_number;
  qr_token_hash = params.qr_token_hash;
  issued_at = now;
  checked_in_at = none;
  cancelled_at = none;
}

unfoldable pub insert_ticket : ℕ → InsertTicketParams → M (Option ℕ)
insert_ticket now params db =
    if any (conflicts params) db.tickets
    then (ok none, db)
    else if not (is_referenced params db)
    then (err foreign_key_violation, db)
    else (
      ok (some db.next_id),
      record db {
        tickets = db.tickets ++ new_ticket now db.next_id params ∷ [];
        next_id = db.next_id + 1;
      },
    )

-- A row of `TICKET_JOINS`.
pub record JoinedTicket : Type 0 where
  pub row : TicketRow
  pub booking : BookingRow
  pub passenger : PassengerRow
  pub seat : SeatRow

abbrev pub join_seat : TicketRow → BookingRow → PassengerRow → Option SeatRow → Option JoinedTicket
join_seat t b p none = none
join_seat t b p (some s) = some (record { row = t; booking = b; passenger = p; seat = s })

abbrev pub find_seat : ℕ → Db → Option SeatRow
find_seat seat db = find (λ s. s.id == seat) db.seats

abbrev pub join_passenger : Db → TicketRow → BookingRow → Option PassengerRow → Option JoinedTicket
join_passenger db t b none = none
join_passenger db t b (some p) = join_seat t b p (find_seat t.seat_reservation_id db)

abbrev pub find_passenger : ℕ → ℕ → Db → Option PassengerRow
find_passenger passenger booking db =
    find (λ p. p.id == passenger && p.booking_id == booking) db.passengers

abbrev pub join_booking : Db → TicketRow → Option BookingRow → Option JoinedTicket
join_booking db t none = none
join_booking db t (some b) = join_passenger db t b (find_passenger t.passenger_id t.booking_id db)

-- The rows that a ticket joins, each found under its key.
unfoldable pub join_ticket : Db → TicketRow → Option JoinedTicket
join_ticket db t = join_booking db t (find_booking t.booking_id db)

abbrev pub add_joined :
    (JoinedTicket → Bool) → Option JoinedTicket → List JoinedTicket → List JoinedTicket
add_joined where_ none rest = rest
add_joined where_ (some j) rest = if where_ j then j ∷ rest else rest

unfoldable pub join_where : (JoinedTicket → Bool) → Db → List TicketRow → List JoinedTicket
join_where where_ db [] = []
join_where where_ db (t ∷ ts) = add_joined where_ (join_ticket db t) (join_where where_ db ts)

unfoldable pub map_ticket : JoinedTicket → Ticket
map_ticket j = record {
  id = j.row.id;
  booking_id = j.row.booking_id;
  company_id = j.booking.company_id;
  passenger_id = j.row.passenger_id;
  seat_reservation_id = j.row.seat_reservation_id;
  seat_number = j.seat.seat_number;
  passenger_name = j.passenger.full_name;
  ticket_number = j.row.ticket_number;
  status = derive_ticket_status j.row.checked_in_at j.row.cancelled_at;
  issued_at = j.row.issued_at;
  checked_in_at = j.row.checked_in_at;
  cancelled_at = j.row.cancelled_at;
}

abbrev pub first_row : List JoinedTicket → Option JoinedTicket
first_row [] = none
first_row (j ∷ js) = some j

abbrev map_row : Option JoinedTicket → Option Ticket
map_row none = none
map_row (some j) = some (map_ticket j)

-- `findOne`, for a clause over the ticket and its booking.
unfoldable pub find_ticket : (JoinedTicket → Bool) → Db → Option Ticket
find_ticket where_ db = map_row (first_row (join_where where_ db db.tickets))

unfoldable pub find_ticket_by_id : ℕ → Db → Option Ticket
find_ticket_by_id ticket db = find_ticket (λ j. j.row.id == ticket) db

-- `ORDER BY t.issued_at, t.id`
abbrev issued_before : JoinedTicket → JoinedTicket → Bool
issued_before a b =
    ltb a.row.issued_at b.row.issued_at
    || (a.row.issued_at == b.row.issued_at && leb a.row.id b.row.id)

unfoldable pub list_for_booking : ℕ → Db → List Ticket
list_for_booking booking db =
    map map_ticket
      (order_by issued_before (join_where (λ j. j.row.booking_id == booking) db db.tickets))

-- `listTicketsForBookingOwner` and `listTicketsForBookingCompany`: null where the clause reaches no
-- booking.
unfoldable pub list_tickets_for_booking : (BookingRow → Bool) → ℕ → Db → Option (List Ticket)
list_tickets_for_booking where_ booking db = elim (find_ticketable where_ booking db) [
  | none ↦ none
  | some b ↦ some (list_for_booking booking db)
]

-- `ORDER BY t.issued_at DESC, t.id DESC`
abbrev issued_after : JoinedTicket → JoinedTicket → Bool
issued_after a b = issued_before b a

unfoldable pub list_tickets : (BookingRow → Bool) → ℕ → ℕ → Db → TicketPage
list_tickets where_ limit offset db =
    let rows = join_where (λ j. where_ j.booking) db db.tickets in
    record {
      items = map map_ticket (take limit (drop offset (order_by issued_after rows)));
      total = length rows;
    }

abbrev pub to_verifiable : Db → JoinedTicket → VerifiableTicket
to_verifiable db j = record {
  ticket = map_ticket j;
  booking_status = j.booking.status;
  is_paid = is_paid j.booking.id db;
}

unfoldable pub find_ticket_by_hash : (BookingRow → Bool) → ℕ → Db → Option VerifiableTicket
find_ticket_by_hash where_ hash db =
    map_option (to_verifiable db)
      (first_row (join_where (λ j. j.row.qr_token_hash == hash && where_ j.booking) db db.tickets))

abbrev pub to_locked_ticket : Db → TicketRow → BookingRow → LockedTicket
to_locked_ticket db t b = record {
  id = t.id;
  booking_id = t.booking_id;
  company_id = b.company_id;
  seat_reservation_id = t.seat_reservation_id;
  booking_status = b.status;
  is_paid = is_paid b.id db;
  checked_in_at = t.checked_in_at;
  cancelled_at = t.cancelled_at;
}

abbrev pub lock_with : (BookingRow → Bool) → Db → TicketRow → Option LockedTicket
lock_with where_ db t = elim (find (λ b. b.id == t.booking_id && where_ b) db.bookings) [
  | none ↦ none
  | some b ↦ some (to_locked_ticket db t b)
]

-- `lockTicketForCompany`: the ticket of the id with its booking, where the clause holds of it.
unfoldable pub lock_ticket : (BookingRow → Bool) → ℕ → Db → Option LockedTicket
lock_ticket where_ ticket db = elim (find (λ t. t.id == ticket) db.tickets) [
  | none ↦ none
  | some t ↦ lock_with where_ db t
]

-- `id = $1 AND checked_in_at IS NULL AND cancelled_at IS NULL`. A row under this clause passes the
-- trigger `enforce_ticket_lifecycle`, whichever one of the two times is set.
unfoldable pub is_open_ticket : ℕ → TicketRow → Bool
is_open_ticket ticket t = t.id == ticket && (is_none t.checked_in_at && is_none t.cancelled_at)

-- `UPDATE … RETURNING id`, then `findTicketById` where a row was updated.
unfoldable pub update_ticket : ℕ → (TicketRow → TicketRow) → M (Option Ticket)
update_ticket ticket change db =
    if any (is_open_ticket ticket) db.tickets
    then (let after = record db { tickets = update (is_open_ticket ticket) change db.tickets } in
        (ok (find_ticket_by_id ticket after), after))
    else (ok none, db)

abbrev pub checked_in_row : ℕ → TicketRow → TicketRow
checked_in_row now t = record t { checked_in_at = some now }

unfoldable pub check_in_ticket : ℕ → ℕ → M (Option Ticket)
unfolding update_ticket
check_in_ticket now ticket = update_ticket ticket (checked_in_row now)

abbrev pub revoked_row : ℕ → TicketRow → TicketRow
revoked_row now t = record t { cancelled_at = some now }

unfoldable pub revoke_ticket_row : ℕ → ℕ → M (Option Ticket)
unfolding update_ticket
revoke_ticket_row now ticket = update_ticket ticket (revoked_row now)

unfoldable pub check_in_seat : ℕ → ℕ → M (Unit {0})
check_in_seat now seat db = (
  ok tt,
  record db {
    seats =
        update (λ s. s.id == seat && is_confirmed_seat s.status)
          (λ s. record s { status = seat_checked_in; updated_at = now }) db.seats;
  },
)
