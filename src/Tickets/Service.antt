-- ===== src/Tickets/Service.antt =====
-- modules/tickets/tickets.service.ts. What the service is given by its environment is a record: the
-- random bytes and the hash of ticket-token.ts, the clock of the database, and whether an audit
-- writer is bound.
use voyagi.Prelude.{
  ℕ, ◌+◌, Bool, ◌&&◌, ◌||◌, not, List, [], ◌∷◌, Option, none, some, all, length, leb, ◌==◌, is_none,
  if◌then◌else◌, map,
}
use voyagi.Pagination.{JsNumber, not_finite, positive, negative, ResolvedPagination}
use voyagi.Identity.Identifier.{Text, uuid_of, bigint_of, is_digit, max_bigint}
use voyagi.Identity.Roles.{Permission, tickets_issue, tickets_read, tickets_validate}
use voyagi.Identity.Access.{resolve_entitlements}
use voyagi.Identity.Scope.{AccessScope, access_scope}
use voyagi.Store.Enums.{BookingStatus, confirmed, is_booking, checked_in}
use voyagi.Store.Rows.{BookingRow, ticket_validated}
use voyagi.Store.Monad.{
  M, pure, throw, gets, or_throw, throw_if, transaction, ◌>>=◌, ◌>>◌, unknown_database_error,
  ticket_booking_not_found, ticket_forbidden, ticket_not_found, ticket_not_issuable,
  ticket_not_validatable,
}
use voyagi.Audit.{append_audit}
use voyagi.Payments.Repository.{find_memberships, owned_by, company_visible, append_booking_event}
use voyagi.Tickets.Types.{
  Ticket, IssuedTicket, TicketVerification, InvalidReason, revoked, already_used,
  booking_not_confirmed, not_paid, IssuablePassenger, TicketStatus, issued, ticket_checked_in,
  ticket_cancelled, LockedTicket, VerifiableTicket, TicketPage,
}
use voyagi.Tickets.Repository.{
  find_ticketable, list_issuable_passengers, insert_ticket, find_ticket, list_tickets_for_booking,
  list_tickets, find_ticket_by_hash, lock_ticket, check_in_ticket, revoke_ticket_row, check_in_seat,
}

pub record TicketsService : Type 0 where
  pub random_token : ℕ → Text
  pub hash : Text → ℕ
  pub generate_ticket_number : ℕ → ℕ
  pub now : ℕ
  pub audits : Bool

-- `/^[A-Za-z0-9_-]{16,512}$/`
abbrev is_token_character : ℕ → Bool
is_token_character c =
    (leb b'A' c && leb c b'Z') || (leb b'a' c && leb c b'z') || is_digit c || c == b'_' || c == b'-'

unfoldable pub is_qr_token : Text → Bool
is_qr_token t = leb 16 (length t) && leb (length t) 512 && all is_token_character t

-- A ticket of this call with its raw token.
abbrev pub RawToken : Type 0
RawToken = ℕ × Text

abbrev pub token_of : ℕ → List RawToken → Option Text
token_of ticket [] = none
token_of ticket ((id, raw) ∷ ts) = if id == ticket then some raw else token_of ticket ts

abbrev pub with_token : List RawToken → Ticket → IssuedTicket
with_token tokens t = record { ticket = t; qr_token = token_of t.id tokens }

-- `if (ticketId) rawTokens.set(ticketId, token.raw)`
abbrev pub keep_token : Option ℕ → Text → List RawToken → List RawToken
keep_token none raw tokens = tokens
keep_token (some id) raw tokens = (id, raw) ∷ tokens

abbrev pub or_empty : Option (List Ticket) → List Ticket
or_empty none = []
or_empty (some ts) = ts

module _ (s : TicketsService) where
  -- The loop over the issuable passengers, from the n-th token of the call on.
  unfoldable pub insert_all : ℕ → ℕ → List IssuablePassenger → M (List RawToken)
  insert_all booking n [] = pure []
  insert_all booking n (p ∷ ps) = do
    ticket ← insert_ticket s.now (record {
      booking_id = booking;
      passenger_id = p.passenger_id;
      seat_reservation_id = p.seat_reservation_id;
      ticket_number = s.generate_ticket_number n;
      qr_token_hash = s.hash (s.random_token n);
    })
    tokens ← insert_all booking (n + 1) ps
    pure (keep_token ticket (s.random_token n) tokens)

  -- `listAll()` and what follows it.
  unfoldable pub list_issued : ℕ → (BookingRow → Bool) → List RawToken → M (List IssuedTicket)
  list_issued booking reach tokens = do
    listed ← gets (list_tickets_for_booking reach booking)
    throw_if (leb (length (or_empty listed)) 0) ticket_not_issuable
    pure (map (with_token tokens) (or_empty listed))

  unfoldable pub issue : ℕ → BookingStatus → Bool → (BookingRow → Bool) → M (List IssuedTicket)
  issue booking status paid reach = do
    throw_if (not (is_booking status confirmed)) ticket_not_issuable
    throw_if (not paid) ticket_not_issuable
    issuable ← gets (list_issuable_passengers booking)
    tokens ← insert_all booking 0 issuable
    list_issued booking reach tokens

  -- The work of both calls, for a clause over the bookings that the actor reaches.
  unfoldable pub issue_within : (BookingRow → Bool) → ℕ → M (List IssuedTicket)
  issue_within reach booking = do
    found ← gets (find_ticketable reach booking)
    b ← or_throw found ticket_booking_not_found
    issue booking b.status b.is_paid reach

  unfoldable pub issue_for_owner : Text → Text → M (List IssuedTicket)
  issue_for_owner actor_user_id booking_id = do
    actor ← or_throw (uuid_of actor_user_id) ticket_booking_not_found
    booking ← or_throw (uuid_of booking_id) ticket_booking_not_found
    transaction (issue_within (owned_by actor) booking)

  abbrev pub Scoped : Type 0
  Scoped = ℕ × AccessScope

  unfoldable pub ticket_scope : Text → Text → Permission → M (ℕ × Scoped)
  ticket_scope actor_user_id company_id permission = do
    actor ← or_throw (uuid_of actor_user_id) ticket_forbidden
    company ← or_throw (bigint_of company_id) ticket_not_found
    memberships ← gets (find_memberships actor company)
    pure (actor, (company, access_scope (resolve_entitlements memberships) permission))

  abbrev pub in_reach : ℕ × Scoped → BookingRow → Bool
  in_reach c = company_visible c.1.0 c.1.1

  unfoldable pub issue_for_company : Text → Text → Text → M (List IssuedTicket)
  issue_for_company actor_user_id company_id booking_id = do
    booking ← or_throw (uuid_of booking_id) ticket_booking_not_found
    c ← ticket_scope actor_user_id company_id tickets_issue
    transaction (issue_within (in_reach c) booking)

  unfoldable pub get_owned_ticket : ℕ → Text → M Ticket
  get_owned_ticket actor ticket_id = do
    ticket ← or_throw (uuid_of ticket_id) ticket_not_found
    found ← gets (find_ticket (λ j. j.row.id == ticket && owned_by actor j.booking))
    or_throw found ticket_not_found

  unfoldable pub get_company_ticket : Text → Text → Text → M Ticket
  get_company_ticket actor_user_id company_id ticket_id = do
    c ← ticket_scope actor_user_id company_id tickets_read
    ticket ← or_throw (uuid_of ticket_id) ticket_not_found
    found ← gets (find_ticket (λ j. j.row.id == ticket && in_reach c j.booking))
    or_throw found ticket_not_found

  -- The `OFFSET` of a query is a `bigint`: a larger number or `Infinity` is an error of the database.
  abbrev bigint_offset : JsNumber → M ℕ
  bigint_offset not_finite = throw unknown_database_error
  bigint_offset (positive whole fraction) =
      if leb whole max_bigint then pure whole else throw unknown_database_error
  bigint_offset (negative whole fraction) = throw unknown_database_error

  unfoldable pub list_page : (BookingRow → Bool) → ResolvedPagination → M TicketPage
  list_page where_ p = do offset ← bigint_offset p.offset; gets (list_tickets where_ p.limit offset)

  unfoldable pub list_owned_tickets : ℕ → ResolvedPagination → M TicketPage
  list_owned_tickets actor p = list_page (owned_by actor) p

  unfoldable pub list_company_tickets : Text → Text → ResolvedPagination → M TicketPage
  list_company_tickets actor_user_id company_id p = do
    c ← ticket_scope actor_user_id company_id tickets_read
    list_page (in_reach c) p

  unfoldable pub list_owned_booking_tickets : Text → Text → M (List Ticket)
  list_owned_booking_tickets actor_user_id booking_id = do
    actor ← or_throw (uuid_of actor_user_id) ticket_booking_not_found
    booking ← or_throw (uuid_of booking_id) ticket_booking_not_found
    listed ← gets (list_tickets_for_booking (owned_by actor) booking)
    or_throw listed ticket_booking_not_found

  unfoldable pub list_company_booking_tickets : Text → Text → Text → M (List Ticket)
  list_company_booking_tickets actor_user_id company_id booking_id = do
    booking ← or_throw (uuid_of booking_id) ticket_booking_not_found
    c ← ticket_scope actor_user_id company_id tickets_read
    listed ← gets (list_tickets_for_booking (in_reach c) booking)
    or_throw listed ticket_booking_not_found

  -- The checks of `validateTicket` on the locked ticket, then its writes.
  unfoldable pub validate_locked : ℕ → ℕ → LockedTicket → M Ticket
  validate_locked actor ticket l = do
    throw_if (not (is_none l.cancelled_at)) ticket_not_validatable
    throw_if (not (is_booking l.booking_status confirmed)) ticket_not_validatable
    throw_if (not l.is_paid) ticket_not_validatable
    throw_if (not (is_none l.checked_in_at)) ticket_not_validatable
    checked ← check_in_ticket s.now ticket
    t ← or_throw checked ticket_not_validatable
    check_in_seat s.now l.seat_reservation_id
    append_booking_event l.booking_id l.company_id (some actor) checked_in
    append_audit s.audits (some actor) l.company_id ticket_validated t.id
    pure t

  unfoldable pub validate_within : ℕ → (BookingRow → Bool) → ℕ → M Ticket
  validate_within actor reach ticket = do
    locked ← gets (lock_ticket reach ticket)
    l ← or_throw locked ticket_not_found
    validate_locked actor ticket l

  unfoldable pub validate_ticket : Text → Text → Text → M Ticket
  validate_ticket actor_user_id company_id ticket_id = do
    ticket ← or_throw (uuid_of ticket_id) ticket_not_found
    c ← ticket_scope actor_user_id company_id tickets_validate
    transaction (validate_within c.0 (in_reach c) ticket)

  unfoldable pub reason_of_booking : BookingStatus → Bool → Option InvalidReason
  reason_of_booking status paid =
      if not (is_booking status confirmed)
      then some booking_not_confirmed
      else if not paid
      then some not_paid
      else none

  unfoldable pub invalid_reason : TicketStatus → BookingStatus → Bool → Option InvalidReason
  unfolding reason_of_booking
  invalid_reason ticket_cancelled status paid = some revoked
  invalid_reason ticket_checked_in status paid = some already_used
  invalid_reason issued status paid = reason_of_booking status paid

  unfoldable pub verification : VerifiableTicket → TicketVerification
  verification v =
      let reason = invalid_reason v.ticket.status v.booking_status v.is_paid in
      record { ticket = v.ticket; valid = is_none reason; reason = reason }

  unfoldable pub verify_within : (BookingRow → Bool) → Text → M TicketVerification
  verify_within reach qr_token = do
    throw_if (not (is_qr_token qr_token)) ticket_not_found
    found ← gets (find_ticket_by_hash reach (s.hash qr_token))
    v ← or_throw found ticket_not_found
    pure (verification v)

  unfoldable pub verify_ticket : Text → Text → Text → M TicketVerification
  verify_ticket actor_user_id company_id qr_token = do
    c ← ticket_scope actor_user_id company_id tickets_validate
    verify_within (in_reach c) qr_token

  unfoldable pub revoke_within : (BookingRow → Bool) → ℕ → M Ticket
  revoke_within reach ticket = do
    locked ← gets (lock_ticket reach ticket)
    l ← or_throw locked ticket_not_found
    throw_if (not (is_none l.cancelled_at)) ticket_not_validatable
    throw_if (not (is_none l.checked_in_at)) ticket_not_validatable
    changed ← revoke_ticket_row s.now ticket
    or_throw changed ticket_not_validatable

  unfoldable pub revoke_ticket : Text → Text → Text → M Ticket
  revoke_ticket actor_user_id company_id ticket_id = do
    ticket ← or_throw (uuid_of ticket_id) ticket_not_found
    c ← ticket_scope actor_user_id company_id tickets_issue
    transaction (revoke_within (in_reach c) ticket)
