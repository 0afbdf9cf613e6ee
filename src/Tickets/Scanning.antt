-- ===== src/Tickets/Scanning.antt =====
-- A scan and a check-in agree, and a token is good for one check-in.
use voyagi.Prelude.{
  ℕ, Bool, true, false, ◌&&◌, Option, none, some, ap, ◌≡◌, refl, ◌∙◌, sym, subst, arith, any,
  update, ◌==◌, ==_refl, is_none, map_option, find-update, update_clears, Bool-cases, Option-cases,
  inl, inr,
}
use voyagi.Identity.Identifier.{Text}
use voyagi.Store.Enums.{BookingStatus, confirmed, is_booking, seat_checked_in}
use voyagi.Store.Rows.{Db, BookingRow, SeatRow}
use voyagi.Store.Monad.{ok, is_ok, notation}
use voyagi.Audit.{append_audit}
use voyagi.Payments.Repository.{append_booking_event}
use voyagi.Tickets.Types.{
  Ticket, TicketVerification, VerifiableTicket, derive_ticket_status, already_used,
  ticket_checked_in,
}
use voyagi.Tickets.Repository.{
  JoinedTicket, join_where, first_row, map_ticket, find_ticket_by_hash, to_verifiable,
  check_in_seat, is_confirmed_seat, find_seat, is_paid, is_open_ticket, checked_in_row,
}
use voyagi.Tickets.Service.{
  TicketsService, validate_within, validate_locked, verify_within, verification, invalid_reason,
  reason_of_booking, is_qr_token,
}
use voyagi.Tickets.Unique.{AllDistinct}
use voyagi.Tickets.Evolution.{is_unused}
use voyagi.Tickets.Joining.{Found, first_row-Found}
use voyagi.Tickets.Validating.{
  of_hash, scanned, locks, check_in_run, found_after, seated, seat_checked, stamped,
}

module _ (s : TicketsService) (actor : ℕ) (reach : BookingRow → Bool) where
  -- A scan that returns has found the ticket.
  verify_found :
      (token : Text) (db : Db) {r : TicketVerification}
      → (verify_within s reach token db).0 ≡ ok r
      → (is_qr_token token ≡ true)
        × ((v : VerifiableTicket) × (find_ticket_by_hash reach (s.hash token) db ≡ some v)
            × (verification s v ≡ r))
  unfolding verify_within notation
  verify_found token db h = elim (Bool-cases (is_qr_token token)) [
    | inr e ↦ absurd (ground (arith, e))
    | inl e ↦ elim (Option-cases (find_ticket_by_hash reach (s.hash token) db)) [
      | inl n ↦ absurd (ground (arith, e, n))
      | inr (v, n) ↦ (e, (v, n, ground (arith, e, n)))
    ]
  ]

  reason_absent :
      (i c : Option ℕ) (status : BookingStatus) (paid : Bool)
      → is_none (invalid_reason s (derive_ticket_status i c) status paid)
        ≡ (is_none c && (is_booking status confirmed && (paid && is_none i)))
  unfolding invalid_reason reason_of_booking derive_ticket_status
  reason_absent i (some c) status paid = refl
  reason_absent (some i) none status paid = ground arith
  reason_absent none none status paid = ground arith

  module _ (hash : ℕ) (db : Db) (j : JoinedTicket)
      (f : Found (of_hash reach hash) db db.tickets j) where
    -- What a check-in leaves behind.
    pub record Checked (d : Db) : Type 0 where
      pub bookings : d.bookings ≡ db.bookings
      pub passengers : d.passengers ≡ db.passengers
      pub payments : d.payments ≡ db.payments
      pub tickets : d.tickets ≡ update (is_open_ticket j.row.id) (checked_in_row s.now) db.tickets
      pub seats :
          d.seats
          ≡ update
              (λ q. q.id == j.row.seat_reservation_id && is_confirmed_seat q.status)
              (λ q. record q { status = seat_checked_in; updated_at = s.now })
              db.seats

    checks_in :
        is_unused j.row ≡ true
        → is_booking j.booking.status confirmed ≡ true
        → is_paid j.booking.id db ≡ true
        → let r = validate_within s actor reach j.row.id db in
          (r.0 ≡ ok (map_ticket (stamped reach hash db j f s.now j))) × Checked r.1
    unfolding validate_within validate_locked notation check_in_seat append_booking_event
        append_audit
    checks_in u b p =
        let run = check_in_run reach hash db j f s.now u in
        let c : is_none j.row.cancelled_at ≡ true = ground (arith, u) in
        let i : is_none j.row.checked_in_at ≡ true = ground (arith, u) in
        elim (Bool-cases s.audits) [
          | inl a ↦
              rw (locks reach hash db j f, c, b, p, i, run, a)
                (
                  refl,
                  record {
                    bookings = refl;
                    passengers = refl;
                    payments = refl;
                    tickets = refl;
                    seats = refl;
                  },
                )
          | inr a ↦
              rw (locks reach hash db j f, c, b, p, i, run, a)
                (
                  refl,
                  record {
                    bookings = refl;
                    passengers = refl;
                    payments = refl;
                    tickets = refl;
                    seats = refl;
                  },
                )
        ]

    -- The check-in returns exactly if the scan of the same ticket says valid.
    agrees :
        is_ok (validate_within s actor reach j.row.id db).0
        ≡ (verification s (to_verifiable db j)).valid
    unfolding validate_within validate_locked notation verification map_ticket
    agrees =
        let l = locks reach hash db j f in
        rw
          (
            verification,
            map_ticket,
            reason_absent j.row.checked_in_at j.row.cancelled_at j.booking.status
                (is_paid j.booking.id db),
          )
          (elim (Bool-cases (is_none j.row.cancelled_at)) [
            | inr c ↦ rw (validate_within, l, c) refl
            | inl c ↦ elim (Bool-cases (is_booking j.booking.status confirmed)) [
              | inr b ↦ rw (validate_within, l, c, b) refl
              | inl b ↦ elim (Bool-cases (is_paid j.booking.id db)) [
                | inr p ↦ rw (validate_within, l, c, b, p) refl
                | inl p ↦ elim (Bool-cases (is_none j.row.checked_in_at)) [
                  | inr i ↦ rw (validate_within, l, c, b, p, i) refl
                  | inl i ↦ rw ((checks_in (rw (c, i) refl) b p).0, c, b, p, i) refl
                ]
              ]
            ]
          ])

    open_row : is_unused j.row ≡ true → is_open_ticket j.row.id j.row ≡ true
    unfolding is_open_ticket
    open_row u = rw (==_refl j.row.id) u

    find_seat-after :
        (d : Db)
        → Checked d
        → (k : ℕ)
        → find_seat k d ≡ map_option (seat_checked reach hash db j f s.now) (find_seat k db)
    find_seat-after d c k = rw c.seats (
        find-update (λ q. q.id == k) _
          (λ q. record q { status = seat_checked_in; updated_at = s.now }) (λ q. refl) db.seats)

    unseen :
        (i : JoinedTicket)
        → of_hash reach hash (seated reach hash db j f s.now i) ≡ of_hash reach hash i
    unseen i = elim (Bool-cases (is_open_ticket j.row.id i.row)) [
      | inl e ↦ rw e refl
      | inr e ↦ rw e refl
    ]

    -- The scan after the check-in finds the ticket as the check-in returned it.
    scan_after :
        (d : Db)
        → first_row (join_where (of_hash reach hash) db db.tickets) ≡ some j
        → Checked d
        → find_ticket_by_hash reach hash d
          ≡ some (to_verifiable d (seated reach hash db j f s.now j))
    unfolding find_ticket_by_hash
    scan_after d h c =
        let g =
          found_after reach hash db j f (of_hash reach hash) d s.now
            (seat_checked reach hash db j f s.now) c.bookings c.passengers (find_seat-after d c)
            unseen h in
        let later =
          subst
            (λ ts.
              first_row (join_where (of_hash reach hash) d ts)
              ≡ some (seated reach hash db j f s.now j))
            (sym c.tickets) g in
        rw (find_ticket_by_hash, later) refl

    same_ticket :
        map_ticket (seated reach hash db j f s.now j)
        ≡ map_ticket (stamped reach hash db j f s.now j)
    unfolding map_ticket
    same_ticket =
        elim (Bool-cases
          (j.seat.id == j.row.seat_reservation_id && is_confirmed_seat j.seat.status)) [
            | inl e ↦ rw e refl
            | inr e ↦ rw e refl
          ]

    used_status :
        is_unused j.row ≡ true
        → (map_ticket (stamped reach hash db j f s.now j)).status ≡ ticket_checked_in
    unfolding map_ticket derive_ticket_status
    used_status u = rw (open_row u) (ground (arith, u))

  used_verification :
      (v : VerifiableTicket) (t : Ticket)
      → v.ticket ≡ t
      → t.status ≡ ticket_checked_in
      → verification s v ≡ record { ticket = t; valid = false; reason = some already_used }
  unfolding verification invalid_reason
  used_verification v t e u = rw (e, u) refl

  once :
      (token : Text) (db : Db)
      → is_qr_token token ≡ true
      → (j : JoinedTicket) (f : Found (of_hash reach (s.hash token)) db db.tickets j)
      → first_row (join_where (of_hash reach (s.hash token)) db db.tickets) ≡ some j
      → (verification s (to_verifiable db j)).valid ≡ true
      → let d = validate_within s actor reach j.row.id db in
        ((t : Ticket) × (d.0 ≡ ok t)
          × ((verify_within s reach token d.1).0
              ≡ ok (record { ticket = t; valid = false; reason = some already_used })))
        × (any (λ q. q.id == j.row.seat_reservation_id && is_confirmed_seat q.status) d.1.seats
            ≡ false)
        × (d.1.payments ≡ db.payments)
  unfolding verify_within notation verification map_ticket
  once token db q j f first y =
      let hash = s.hash token in
      let r : (is_none j.row.cancelled_at
            && (is_booking j.booking.status confirmed
                && (is_paid j.booking.id db && is_none j.row.checked_in_at)))
          ≡ true =
        sym (
          reason_absent j.row.checked_in_at j.row.cancelled_at j.booking.status
            (is_paid j.booking.id db))
        ∙ y in
      let u : is_unused j.row ≡ true = ground (arith, r) in
      let (res, c) = checks_in hash db j f u (ground (arith, r)) (ground (arith, r)) in
      let after = (validate_within s actor reach j.row.id db).1 in
      let of_seat : SeatRow → Bool =
        λ q. q.id == j.row.seat_reservation_id && is_confirmed_seat q.status in
      let found = scan_after hash db j f after first c in
      let t = map_ticket (stamped reach hash db j f s.now j) in
      (
        (
          t,
          res,
          rw (verify_within, q, found)
              (ap ok (
                used_verification (to_verifiable after (seated reach hash db j f s.now j)) t
                  (same_ticket hash db j f) (used_status hash db j f u))),
        ),
        rw c.seats (
            update_clears of_seat of_seat
              (λ q. record q { status = seat_checked_in; updated_at = s.now }) (λ x e. e)
              (λ x e. ground arith) db.seats),
        c.payments,
      )

  -- Where tickets have distinct keys, a scan that finds a ticket says valid exactly if checking the
  -- ticket in succeeds.
  pub scan_agrees :
      (token : Text) (db : Db) {r : TicketVerification}
      → AllDistinct db.tickets
      → (verify_within s reach token db).0 ≡ ok r
      → is_ok (validate_within s actor reach r.ticket.id db).0 ≡ r.valid
  unfolding verification map_ticket
  scan_agrees token db d h =
      let (q, (v, n, e)) = verify_found token db h in
      let (j, first, ve) = scanned reach (s.hash token) db n in
      let f = first_row-Found (of_hash reach (s.hash token)) db db.tickets d first in
      rw (sym e, ve) (agrees (s.hash token) db j f)

  -- Where tickets have distinct keys and a scan says valid, the ticket can be checked in; the same
  -- scan then says that the ticket has been used, the seat is not CONFIRMED any more, and the payments
  -- are as they were.
  pub scan_once :
      (token : Text) (db : Db) {r : TicketVerification}
      → AllDistinct db.tickets
      → (verify_within s reach token db).0 ≡ ok r
      → r.valid ≡ true
      → let d = validate_within s actor reach r.ticket.id db in
        ((t : Ticket) × (d.0 ≡ ok t)
          × ((verify_within s reach token d.1).0
              ≡ ok (record { ticket = t; valid = false; reason = some already_used })))
        × (any (λ q. q.id == r.ticket.seat_reservation_id && is_confirmed_seat q.status) d.1.seats
            ≡ false)
        × (d.1.payments ≡ db.payments)
  unfolding verification map_ticket
  scan_once token db d h y =
      let (q, (v, n, e)) = verify_found token db h in
      let (j, first, ve) = scanned reach (s.hash token) db n in
      let f = first_row-Found (of_hash reach (s.hash token)) db db.tickets d first in
      rw (sym e, ve) (once token db q j f first (rw (sym e, ve) at y))
