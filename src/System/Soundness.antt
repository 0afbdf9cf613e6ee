-- ===== src/System/Soundness.antt =====
-- Whatever the calls of the four services, no seat of a trip is taken twice, no booking is settled
-- twice, no two tickets share a seat, and no bus is on two trips at once.
use voyagi.Prelude.{false, List, [], ◌∷◌}
use voyagi.Store.Rows.{Db}
use voyagi.Payments.Settlement as Settlement
use voyagi.Payments.Calls as PaymentCalls
use voyagi.Payments.Service.{audit}
use voyagi.Tickets.Unique as TicketRows
use voyagi.Trips.Timetable as TripRows
use voyagi.Trips.Calls as TripCalls
use voyagi.Trips.Transitions.{trip_transitions}
use voyagi.Trips.Repository.{update_details, transition, is_source, transitioned_trip}
use voyagi.Tickets.Calls as TicketCalls
use voyagi.Tickets.Repository.{check_in_ticket, revoke_ticket_row}
use voyagi.Bookings.Calls as BookingCalls
use voyagi.Bookings.Inserts.{insert_booking, insert_passenger}
use voyagi.Bookings.Repository.{cancel_booking}
use voyagi.Bookings.Idempotency.{claim_booking_key, complete_booking_key}
use voyagi.Bookings.Seats.{insert_seat-TakenOnce}
use voyagi.System.Calls.{SystemCall, serve_system, system_history, SystemKept, serve_system-kept}
use voyagi.System.Apart.{
  claims-Apart, completes-Apart, inserts-Apart, moves-Apart, reverses-Apart, inserts-Abroad,
  changes-Abroad, trip_appends-Abroad, earns-Apart, key_claims-Aside, key_completes-Aside,
  books-Aside, boards-Aside, seats-Aside, cancels-Aside, releases-Aside, expires-Aside,
  key_claims-SameSeats, books-SameSeats, boards-SameSeats, insert_ticket-Around,
  update_ticket-Around,
}
use voyagi.System.Preserving.{
  IsSound, Preserves, same_seats, from_payments, from_bookings, from_tickets, from_trips,
  confirms-Preserves, check_in_seat-Preserves, releases-TakenOnce, expires-TakenOnce,
  Preserves-preorder, appends-Preserves, audits-Preserves,
}

payments-Kept : PaymentCalls.Kept Preserves
unfolding audit
payments-Kept =
    let own = Settlement.Preserves-Kept in
    record {
      preorder = Preserves-preorder;
      claims = λ now c a k f. from_payments _ (own.claims now c a k f) (claims-Apart now c a k f);
      completes = λ now c a k b p.
          from_payments _ (own.completes now c a k b p) (completes-Apart now c a k b p);
      inserts = λ now b m r. from_payments _ (own.inserts now b m r) (inserts-Apart now b m r);
      moves = λ now p h. from_payments _ (own.moves now p h) (moves-Apart now p);
      confirms = confirms-Preserves;
      appends = appends-Preserves;
      earns = λ now b c. from_payments _ (own.earns now b c) (earns-Apart now b c);
      reverses = λ now b c. from_payments _ (own.reverses now b c) (reverses-Apart now b c);
      audits = λ s a c t e. audits-Preserves s.audits a c t e;
    }

bookings-Kept : BookingCalls.Kept Preserves
unfolding complete_booking_key cancel_booking
bookings-Kept = record {
  preorder = Preserves-preorder;
  claims = λ now c a o k f. from_bookings _ (key_claims-Aside now c a o k f) (λ db.
      same_seats db (claim_booking_key now c a o k f db).1
        ((key_claims-SameSeats now c a o k f).kept db));
  completes = λ now c a o k b. from_bookings _ (key_completes-Aside now c a o k b) (λ db h. h);
  books = λ now p.
      from_bookings _ (books-Aside now p)
        (λ db. same_seats db (insert_booking now p db).1 ((books-SameSeats now p).kept db));
  boards = λ b p.
      from_bookings _ (boards-Aside b p)
        (λ db. same_seats db (insert_passenger b p db).1 ((boards-SameSeats b p).kept db));
  seats =
      λ now t b p q. from_bookings _ (seats-Aside now t b p q) (insert_seat-TakenOnce now t b p q);
  cancels = λ now reach b. from_bookings _ (cancels-Aside now reach b) (λ db h. h);
  releases = λ now b. from_bookings _ (releases-Aside now b) (releases-TakenOnce now b);
  expires = λ now c t. from_bookings _ (expires-Aside now c t) (expires-TakenOnce now c t);
  appends = appends-Preserves;
  audits = audits-Preserves;
}

tickets-Kept : TicketCalls.Kept Preserves
unfolding check_in_ticket revoke_ticket_row
tickets-Kept =
    let own = TicketRows.Preserves-Kept in
    record {
      preorder = Preserves-preorder;
      inserts = λ now p. from_tickets _ (own.inserts now p) (insert_ticket-Around now p);
      checks_in = λ now t. from_tickets _ (own.checks_in now t) (update_ticket-Around t _);
      revokes = λ now t. from_tickets _ (own.revokes now t) (update_ticket-Around t _);
      seats = check_in_seat-Preserves;
      appends = appends-Preserves;
      audits = audits-Preserves;
    }

trips-Kept : TripCalls.Kept Preserves
unfolding update_details transition
trips-Kept =
    let own = TripRows.Preserves-Kept in
    record {
      preorder = Preserves-preorder;
      inserts = λ now c i. from_trips _ (own.inserts now c i) (inserts-Abroad now c i);
      updates = λ now c t v i closes.
          from_trips _ (own.updates now c t v i closes) (changes-Abroad _ _ _);
      moves = λ now c t a. from_trips _ (own.moves now c t a) (
          changes-Abroad false (is_source c t (trip_transitions a))
            (transitioned_trip now (trip_transitions a)));
      appends = λ c t e a. from_trips _ (own.appends c t e a) (trip_appends-Abroad c t e a);
    }

-- Where the database is sound - no booking is settled by two payments, no two tickets share a key or a
-- seat and none is both used and revoked, no two active rows share a seat of a trip, no two live trips
-- of a bus overlap, and the keys are below the next one - it is so after any calls of the four
-- services, in any order, successful or not.
pub system_history-IsSound :
    (cs : List SystemCall) (db : Db) → IsSound db → IsSound (system_history cs db)
unfolding system_history
system_history-IsSound [] db v = v
system_history-IsSound (c ∷ cs) db v =
    let kept : SystemKept Preserves = record {
      bookings = bookings-Kept;
      payments = payments-Kept;
      tickets = tickets-Kept;
      trips = trips-Kept;
    } in
    system_history-IsSound cs (serve_system c db).1 ((serve_system-kept kept c).kept db v)
