-- ===== src/Tickets/Validating.antt =====
-- What a scan says of a ticket, and what checking it in does.
use voyagi.Prelude.{
  ℕ, Bool, true, ◌&&◌, some, ◌≡◌, refl, arith, any, update, ◌==◌, map_option, find-&&, any_found,
  Option-cases, inl, inr, if◌then◌else◌,
}
use voyagi.Store.Enums.{seat_checked_in}
use voyagi.Store.Rows.{Db, BookingRow, TicketRow, SeatRow}
use voyagi.Store.Monad.{ok}
use voyagi.Payments.Repository.{find_booking}
use voyagi.Tickets.Types.{VerifiableTicket}
use voyagi.Tickets.Repository.{
  JoinedTicket, join_ticket, find_seat, find_passenger, join_where, first_row, map_ticket,
  find_ticket, find_ticket_by_id, find_ticket_by_hash, to_verifiable, to_locked_ticket, lock_ticket,
  lock_with, is_open_ticket, update_ticket, check_in_ticket, checked_in_row, is_confirmed_seat,
}
use voyagi.Tickets.Evolution.{is_unused}
use voyagi.Tickets.Joining.{
  Found, first_row-by_id, first_row-map, join_where-update, join_ticket-Joins,
}

abbrev pub of_hash : (BookingRow → Bool) → ℕ → JoinedTicket → Bool
of_hash reach hash j = j.row.qr_token_hash == hash && reach j.booking

-- The join behind a ticket that is found by its hash.
pub scanned :
    (reach : BookingRow → Bool) (hash : ℕ) (db : Db) {v : VerifiableTicket}
    → find_ticket_by_hash reach hash db ≡ some v
    → (j : JoinedTicket) × (first_row (join_where (of_hash reach hash) db db.tickets) ≡ some j)
      × (v ≡ to_verifiable db j)
unfolding find_ticket_by_hash
scanned reach hash db h =
    elim (Option-cases (first_row (join_where (of_hash reach hash) db db.tickets))) [
      | inl e ↦ absurd (ground (arith, rw (find_ticket_by_hash, e) at h))
      | inr (j, e) ↦ (j, e, ground (arith, rw (find_ticket_by_hash, e) at h))
    ]

module _ (reach : BookingRow → Bool) (hash : ℕ) (db : Db) (j : JoinedTicket)
    (f : Found (of_hash reach hash) db db.tickets j) where
  pub locks : lock_ticket reach j.row.id db ≡ some (to_locked_ticket db j.row j.booking)
  unfolding lock_ticket
  locks =
      let b =
        find-&& (λ b. b.id == j.row.booking_id) reach db.bookings
          (join_ticket-Joins db j.row f.joined).booking (ground (arith, f.clause)) in
      rw (lock_ticket, f.found, lock_with, b) refl

  opens : is_unused j.row ≡ true → any (is_open_ticket j.row.id) db.tickets ≡ true
  unfolding is_open_ticket
  opens u =
      any_found (is_open_ticket j.row.id) db.tickets j.row
        (find-&& (λ t. t.id == j.row.id) is_unused db.tickets f.found u)

  -- The join after the check-in, before the seat is written and after.
  abbrev pub stamped : ℕ → JoinedTicket → JoinedTicket
  stamped now i = record i {
    row = if is_open_ticket j.row.id i.row then checked_in_row now i.row else i.row;
  }

  abbrev pub checked_db : ℕ → Db
  checked_db now = record db {
    tickets = update (is_open_ticket j.row.id) (checked_in_row now) db.tickets;
  }

  abbrev pub seat_checked : ℕ → SeatRow → SeatRow
  seat_checked now q =
      if q.id == j.row.seat_reservation_id && is_confirmed_seat q.status
      then record q { status = seat_checked_in; updated_at = now }
      else q

  abbrev pub seated : ℕ → JoinedTicket → JoinedTicket
  seated now i = record (stamped now i) { seat = seat_checked now i.seat }

  -- A change of the times, and of the seats without their ids, goes through the join.
  join-change :
      (after : Db) (now : ℕ) (σ : SeatRow → SeatRow) (t : TicketRow)
      → after.bookings ≡ db.bookings
      → after.passengers ≡ db.passengers
      → find_seat t.seat_reservation_id after ≡ map_option σ (find_seat t.seat_reservation_id db)
      → join_ticket after (if is_open_ticket j.row.id t then checked_in_row now t else t)
        ≡ map_option (λ i. record (stamped now i) { seat = σ i.seat }) (join_ticket db t)
  unfolding join_ticket
  join-change after now σ t b p q = elim (Option-cases (find_booking t.booking_id db)) [
    | inl n ↦ ground (arith, b, n)
    | inr (x, n) ↦ elim (Option-cases (find_passenger t.passenger_id t.booking_id db)) [
      | inl m ↦ ground (arith, b, n, p, m)
      | inr (y, m) ↦ elim (Option-cases (find_seat t.seat_reservation_id db)) [
        | inl l ↦ ground (arith, b, n, p, m, q, l)
        | inr (z, l) ↦ ground (arith, b, n, p, m, q, l)
      ]
    ]
  ]

  -- What a clause over the join finds first after the change, where the clause sees no change.
  pub found_after :
      (w : JoinedTicket → Bool) (after : Db) (now : ℕ) (σ : SeatRow → SeatRow)
      → after.bookings ≡ db.bookings
      → after.passengers ≡ db.passengers
      → ((k : ℕ) → find_seat k after ≡ map_option σ (find_seat k db))
      → ((i : JoinedTicket) → w (record (stamped now i) { seat = σ i.seat }) ≡ w i)
      → first_row (join_where w db db.tickets) ≡ some j
      → first_row
          (join_where w after (update (is_open_ticket j.row.id) (checked_in_row now) db.tickets))
        ≡ some (record (stamped now j) { seat = σ j.seat })
  found_after w after now σ b p q same h =
      let moved =
        join_where-update w db after (is_open_ticket j.row.id) (checked_in_row now)
          (λ i. record (stamped now i) { seat = σ i.seat })
          (λ t. join-change after now σ t b p (q t.seat_reservation_id)) same db.tickets in
      rw
        (
          moved,
          first_row-map (λ i. record (stamped now i) { seat = σ i.seat })
              (join_where w db db.tickets),
          h,
        )
        refl

  find_seat-same : (now k : ℕ) → find_seat k (checked_db now) ≡ map_option (λ q. q) (find_seat k db)
  find_seat-same now k = elim (Option-cases (find_seat k db)) [
    | inl e ↦ rw e refl
    | inr (q, e) ↦ rw e refl
  ]

  stamped-id : (now : ℕ) (i : JoinedTicket) → (stamped now i).row.id ≡ i.row.id
  stamped-id now i = ground arith

  pub check_in_run :
      (now : ℕ)
      → is_unused j.row ≡ true
      → check_in_ticket now j.row.id db ≡ (ok (some (map_ticket (stamped now j))), checked_db now)
  unfolding check_in_ticket update_ticket find_ticket_by_id find_ticket
  check_in_run now u =
      let first =
        found_after (λ i. i.row.id == j.row.id) (checked_db now) now (λ q. q) refl refl
          (find_seat-same now) (λ i. rw (stamped-id now i) refl)
          (first_row-by_id db j.row.id db.tickets f.found f.joined) in
      rw (check_in_ticket, opens u, first) refl
