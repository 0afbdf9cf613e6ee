-- ===== src/System/Apart.antt =====
-- The statements of the booking service leave payments, tickets and trips as they are, those of the
-- payment service, but for the confirmation of a booking, seats, tickets and trips.
use voyagi.Prelude.{
  ℕ, ◌≤◌, Bool, true, List, [], ◌∷◌, Option, none, some, ◌≡◌, refl, ◌∙◌, arith, find, ◌==◌, ◌&&◌,
  Option-cases, inl, inr,
}
use voyagi.Store.Enums.{PaymentMethod, BookingEventType}
use voyagi.Store.Rows.{
  Db, BookingRow, TicketRow, MembershipRow, CommissionRow, AuditAction, Operation,
}
use voyagi.Store.Keeps.{Keeps}
use voyagi.Audit.{append_audit}
use voyagi.Commissions.{
  create_eligible, apply_full_refund, insert_commission, insert_commissions, insert_for,
  returning_or_existing,
}
use voyagi.Payments.Types.{TransitionPaymentParams}
use voyagi.Payments.Repository.{
  claim_idempotency, complete_idempotency, insert_payment, insert_payment_cases, transition_payment,
  transitioned, payment_violation, append_booking_event,
}
use voyagi.Payments.Evolution.{selected}
use voyagi.Tickets.Types.{InsertTicketParams}
use voyagi.Tickets.Repository.{insert_ticket, update_ticket}
use voyagi.Bookings.Inputs.{BookingPassengerInput}
use voyagi.Bookings.Idempotency.{claim_booking_key, complete_booking_key}
use voyagi.Bookings.Inserts.{
  InsertBookingParams, insert_booking, insert_passenger, insert_seat, seat_violation,
}
use voyagi.Store.Network.{TripRow, TripEventType}
use voyagi.Trips.Repository.{
  TripInsert, insert_trip, new_trip, write_violation, change_trip, append_trip_event,
}
use voyagi.Bookings.Repository.{cancel_booking, release_booking_seats, release_expired}

pub record Apart (a b : Db) : Type 0 where
  pub seats : b.seats ≡ a.seats
  pub tickets : b.tickets ≡ a.tickets
  pub trips : b.trips ≡ a.trips
  pub fresh : a.next_id ≤ b.next_id

Apart-chain : (a b c : Db) → Apart a b → Apart b c → Apart a c
Apart-chain a b c p q = record {
  seats = q.seats ∙ p.seats;
  tickets = q.tickets ∙ p.tickets;
  trips = q.trips ∙ p.trips;
  fresh = omega arith;
}

pub claims-Apart : (now c a k f : ℕ) → Keeps Apart (claim_idempotency now c a k f)
unfolding claim_idempotency
claims-Apart now c a k f = record { kept = λ db. ground arith }

pub completes-Apart : (now c a k b p : ℕ) → Keeps Apart (complete_idempotency now c a k b p)
unfolding complete_idempotency
completes-Apart now c a k b p = record { kept = λ db. ground arith }

pub inserts-Apart : (now b : ℕ) (m : PaymentMethod) (r : ℕ) → Keeps Apart (insert_payment now b m r)
inserts-Apart now b m r = record {
  kept = λ db. insert_payment_cases (Apart db) now b m r db (ground arith) λ row h. ground arith;
}

pub moves-Apart : (now : ℕ) (p : TransitionPaymentParams) → Keeps Apart (transition_payment now p)
unfolding transition_payment
moves-Apart now p = record {
  kept = λ db. elim (Option-cases (find (selected p) db.payments)) [
    | inl e ↦ rw (e, transition_payment) (ground arith)
    | inr (old, e) ↦
        rw (e, transition_payment)
          (elim (Option-cases (payment_violation db old (transitioned now p old))) [
            | inr (x, bad) ↦ rw bad (ground arith)
            | inl good ↦ rw good (ground arith)
          ])
  ];
}

pub appends-Apart :
    (b c : ℕ) (a : Option ℕ) (t : BookingEventType) → Keeps Apart (append_booking_event b c a t)
unfolding append_booking_event
appends-Apart b c a t = record { kept = λ db. ground arith }

pub reverses-Apart : (now b c : ℕ) → Keeps Apart (apply_full_refund now b c)
unfolding apply_full_refund
reverses-Apart now b c = record { kept = λ db. ground arith }

pub audits-Apart :
    (bound : Bool) (a : Option ℕ) (c : ℕ) (t : AuditAction) (e : ℕ)
    → Keeps Apart (append_audit bound a c t e)
unfolding append_audit
audits-Apart bound a c t e = record { kept = λ db. ground arith }

insert_commissions-Apart :
    (now : ℕ) (b : BookingRow) (ms : List MembershipRow) (db : Db)
    → Apart db (insert_commissions now b ms db).1
unfolding insert_commissions insert_commission
insert_commissions-Apart now b [] db = ground arith
insert_commissions-Apart now b (m ∷ ms) db =
    let step : Apart db (insert_commission now b m db).1 = ground arith in
    Apart-chain db (insert_commission now b m db).1 _ step
      (insert_commissions-Apart now b ms (insert_commission now b m db).1)

insert_for-Apart : (now : ℕ) (o : Option BookingRow) (db : Db) → Apart db (insert_for now o db).1
unfolding insert_for
insert_for-Apart now none db = ground arith
insert_for-Apart now (some b) db = insert_commissions-Apart now b db.memberships db

returning-db : (b c : ℕ) (x : Option CommissionRow × Db) → (returning_or_existing b c x).1 ≡ x.1
returning-db b c (none, db) = refl
returning-db b c (some r, db) = refl

pub earns-Apart : (now b c : ℕ) → Keeps Apart (create_eligible now b c)
unfolding create_eligible
earns-Apart now b c = record { kept = λ db. rw (returning-db b c _) (insert_for-Apart now _ db) }

-- The booking service.
pub record Aside (a b : Db) : Type 0 where
  pub payments : b.payments ≡ a.payments
  pub tickets : b.tickets ≡ a.tickets
  pub trips : b.trips ≡ a.trips
  pub fresh : a.next_id ≤ b.next_id

pub key_claims-Aside :
    (now c a : ℕ) (o : Operation) (k f : ℕ) → Keeps Aside (claim_booking_key now c a o k f)
unfolding claim_booking_key
key_claims-Aside now c a o k f = record { kept = λ db. ground arith }

pub key_completes-Aside :
    (now c a : ℕ) (o : Operation) (k b : ℕ) → Keeps Aside (complete_booking_key now c a o k b)
unfolding complete_booking_key
key_completes-Aside now c a o k b = record { kept = λ db. ground arith }

pub books-Aside : (now : ℕ) (p : InsertBookingParams) → Keeps Aside (insert_booking now p)
unfolding insert_booking
books-Aside now p = record { kept = λ db. ground arith }

pub boards-Aside : (b : ℕ) (p : BookingPassengerInput) → Keeps Aside (insert_passenger b p)
unfolding insert_passenger
boards-Aside b p = record { kept = λ db. ground arith }

pub seats-Aside : (now t b p q : ℕ) → Keeps Aside (insert_seat now t b p q)
unfolding insert_seat
seats-Aside now t b p q = record {
  kept = λ db. elim (Option-cases (find (λ r. r.id == b && r.trip_id == t) db.bookings)) [
    | inl e ↦ rw (insert_seat, e) (ground arith)
    | inr (r, e) ↦ elim (Option-cases (seat_violation db t r p q)) [
      | inr (x, v) ↦ rw (insert_seat, e, v) (ground arith)
      | inl v ↦ rw (insert_seat, e, v) (ground arith)
    ]
  ];
}

pub cancels-Aside :
    (now : ℕ) (reach : BookingRow → Bool) (b : ℕ) → Keeps Aside (cancel_booking now reach b)
unfolding cancel_booking
cancels-Aside now reach b = record { kept = λ db. ground arith }

pub releases-Aside : (now b : ℕ) → Keeps Aside (release_booking_seats now b)
unfolding release_booking_seats
releases-Aside now b = record { kept = λ db. ground arith }

pub expires-Aside : (now c : ℕ) (t : Option ℕ) → Keeps Aside (release_expired now c t)
unfolding release_expired
expires-Aside now c t = record { kept = λ db. ground arith }

-- The statements of the booking service that write no seat.
abbrev pub SameSeats : Db → Db → Type 0
SameSeats a b = b.seats ≡ a.seats

pub key_claims-SameSeats :
    (now c a : ℕ) (o : Operation) (k f : ℕ) → Keeps SameSeats (claim_booking_key now c a o k f)
unfolding claim_booking_key
key_claims-SameSeats now c a o k f = record { kept = λ db. ground arith }

pub books-SameSeats : (now : ℕ) (p : InsertBookingParams) → Keeps SameSeats (insert_booking now p)
unfolding insert_booking
books-SameSeats now p = record { kept = λ db. ground arith }

pub boards-SameSeats : (b : ℕ) (p : BookingPassengerInput) → Keeps SameSeats (insert_passenger b p)
unfolding insert_passenger
boards-SameSeats b p = record { kept = λ db. ground arith }

-- The ticket service: the statements on tickets.
pub record Around (a b : Db) : Type 0 where
  pub payments : b.payments ≡ a.payments
  pub seats : b.seats ≡ a.seats
  pub trips : b.trips ≡ a.trips
  pub fresh : a.next_id ≤ b.next_id

pub insert_ticket-Around : (now : ℕ) (p : InsertTicketParams) → Keeps Around (insert_ticket now p)
unfolding insert_ticket
insert_ticket-Around now p = record { kept = λ db. ground arith }

pub update_ticket-Around : (t : ℕ) (f : TicketRow → TicketRow) → Keeps Around (update_ticket t f)
unfolding update_ticket
update_ticket-Around t f = record { kept = λ db. ground arith }

-- The trip service.
pub record Abroad (a b : Db) : Type 0 where
  pub payments : b.payments ≡ a.payments
  pub tickets : b.tickets ≡ a.tickets
  pub seats : b.seats ≡ a.seats
  pub fresh : a.next_id ≤ b.next_id

pub inserts-Abroad : (now c : ℕ) (i : TripInsert) → Keeps Abroad (insert_trip now c i)
unfolding insert_trip
inserts-Abroad now c i = record {
  kept = λ db. elim (Option-cases (write_violation true db (new_trip now db.next_id c i))) [
    | inr (x, bad) ↦ rw (insert_trip, bad) (ground arith)
    | inl good ↦ rw (insert_trip, good) (ground arith)
  ];
}

pub changes-Abroad :
    (staff : Bool) (p : TripRow → Bool) (f : TripRow → TripRow)
    → Keeps Abroad (change_trip staff p f)
unfolding change_trip
changes-Abroad staff p f = record {
  kept = λ db. elim (Option-cases (find p db.trips)) [
    | inl e ↦ rw (change_trip, e) (ground arith)
    | inr (old, e) ↦ elim (Option-cases (write_violation staff db (f old))) [
      | inr (x, bad) ↦ rw (change_trip, e, bad) (ground arith)
      | inl good ↦ rw (change_trip, e, good) (ground arith)
    ]
  ];
}

pub trip_appends-Abroad :
    (c t : ℕ) (e : TripEventType) (a : ℕ) → Keeps Abroad (append_trip_event c t e a)
unfolding append_trip_event
trip_appends-Abroad c t e a = record { kept = λ db. ground arith }
