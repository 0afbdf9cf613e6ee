-- ===== src/Tickets/Redeeming.antt =====
-- Each token that an issuance returns scans as valid, for every scanner that reaches the booking.
use voyagi.Prelude.{
  ℕ, Bool, true, List, [], ◌∷◌, Option, none, some, ◌≡◌, refl, sym, subst, ap, arith, find,
  found_here, find-&&, ◌==◌, leb, length, map, Every, Every-mono, Every-map, Every-order_by,
  Bool-cases, ◌⊎◌, inl, inr,
}
use voyagi.Identity.Identifier.{Text}
use voyagi.Store.Enums.{confirmed, is_booking}
use voyagi.Store.Rows.{Db, BookingRow}
use voyagi.Store.Monad.{Result, ok, err, continue, notation}
use voyagi.Payments.Repository.{find_booking}
use voyagi.Tickets.Types.{Ticket, IssuedTicket, VerifiableTicket, derive_ticket_status, issued}
use voyagi.Tickets.Repository.{
  JoinedTicket, join_ticket, join_where, map_ticket, find_ticket_by_hash, to_verifiable,
  find_ticketable, list_tickets_for_booking, list_for_booking, list_issuable_passengers, is_paid,
}
use voyagi.Tickets.Service.{
  TicketsService, RawToken, token_of, with_token, insert_all, list_issued, issue, issue_within,
  verify_within, verification, invalid_reason, reason_of_booking, is_qr_token,
}
use voyagi.Tickets.Calls.{insert_all-kept}
use voyagi.Tickets.Unique.{AllDistinct, IsValid, Preserves-Kept}
use voyagi.Tickets.Evolution.{is_unused}
use voyagi.Tickets.Joining.{Found, first_row-of, join_where-Found, join_ticket-Joins, find-id}
use voyagi.Tickets.Validating.{of_hash}
use voyagi.Tickets.Issuing.{Redeems, Issued, insert_all-Issued}

module _ (s : TicketsService) (booking : ℕ) where
  -- Where the ticket carries a token, the scan of the token returns the ticket as valid.
  abbrev pub Scans : (BookingRow → Bool) → Db → Ticket → Option Text → Type 0
  Scans scan d t none = Unit {0}
  Scans scan d t (some raw) =
      (verify_within s scan raw d).0 ≡ ok (record { ticket = t; valid = true; reason = none })

  token_cases :
      (d : Db) (k : ℕ) (tokens : List RawToken)
      → Every (Redeems s booking d) tokens
      → (token_of k tokens ≡ none)
        ⊎ ((raw : Text) × (token_of k tokens ≡ some raw) × Redeems s booking d (k, raw))
  token_cases d k [] e = inl refl
  token_cases d k ((id, raw) ∷ ts) (r, e) = elim (Bool-cases (id == k)) [
    | inl h ↦
        let same : id ≡ k = ground arith in
        inr (raw, rw h refl, subst (λ i. Redeems s booking d (i, raw)) same r)
    | inr h ↦ rw h (token_cases d k ts e)
  ]

  valid_verification :
      (v : VerifiableTicket)
      → v.ticket.status ≡ issued
      → is_booking v.booking_status confirmed ≡ true
      → v.is_paid ≡ true
      → verification s v ≡ record { ticket = v.ticket; valid = true; reason = none }
  unfolding verification invalid_reason reason_of_booking
  valid_verification v e b p = rw (e, b, p) refl

  issued_status : (j : JoinedTicket) → is_unused j.row ≡ true → (map_ticket j).status ≡ issued
  unfolding map_ticket derive_ticket_status
  issued_status j u = ground (arith, u)

  module _ (scan : BookingRow → Bool) (d : Db) (row : BookingRow) (distinct : AllDistinct d.tickets)
      (formed : (n : ℕ) → is_qr_token (s.random_token n) ≡ true)
      (has : find_booking booking d ≡ some row) (reached : scan row ≡ true)
      (status : is_booking row.status confirmed ≡ true) (settled : is_paid row.id d ≡ true) where
    one_redeemed :
        (j : JoinedTicket) (raw : Text)
        → Found (λ j. j.row.booking_id == booking) d d.tickets j
        → Redeems s booking d (j.row.id, raw)
        → (verify_within s scan raw d).0
          ≡ ok (record { ticket = map_ticket j; valid = true; reason = none })
    unfolding verify_within notation find_ticket_by_hash map_ticket
    one_redeemed j raw f r =
        let by_id = find-id (λ t. t.qr_token_hash == s.hash raw) d.tickets distinct r.hashed in
        let found : find (λ t. t.id == j.row.id) d.tickets ≡ some r.row =
          subst (λ k. find (λ t. t.id == k) d.tickets ≡ some r.row) r.id by_id in
        let same : r.row ≡ j.row = ground (arith, found, f.found) in
        let at : j.row.booking_id ≡ booking = ground (arith, f.clause) in
        let joined = (join_ticket-Joins d j.row f.joined).booking in
        let booked : j.booking ≡ row = ground (arith, joined, at, has) in
        let here : (j.row.qr_token_hash == s.hash raw) ≡ true =
          subst (λ t. (t.qr_token_hash == s.hash raw) ≡ true) same
            (found_here (λ t. t.qr_token_hash == s.hash raw) d.tickets r.hashed) in
        let first =
          first_row-of (of_hash scan (s.hash raw)) (λ t. t.qr_token_hash == s.hash raw) d
            (λ i h. ground arith) d.tickets r.hashed
            (subst (λ t. join_ticket d t ≡ some j) (sym same) f.joined)
            (rw (here, booked) reached) in
        let v = to_verifiable d j in
        rw (verify_within, r.made, formed r.number, sym r.made, find_ticket_by_hash, first)
          (ap ok (
            valid_verification v (issued_status j (subst (λ t. is_unused t ≡ true) same r.unused))
              (rw booked status) (rw booked settled)))

    ticket_redeemed :
        (tokens : List RawToken)
        → Every (Redeems s booking d) tokens
        → (j : JoinedTicket) → Found (λ j. j.row.booking_id == booking) d d.tickets j
        → Scans scan d (map_ticket j) (token_of j.row.id tokens)
    ticket_redeemed tokens e j f = elim (token_cases d j.row.id tokens e) [
      | inl n ↦ rw n tt
      | inr (raw, n, r) ↦ rw n (one_redeemed j raw f r)
    ]

    list_redeemed :
        (tokens : List RawToken)
        → Every (Redeems s booking d) tokens
        → Every
            (λ x. Scans scan d x.ticket x.qr_token)
            (map (with_token tokens) (list_for_booking booking d))
    unfolding list_for_booking map_ticket
    list_redeemed tokens e =
        Every-map (λ x. Scans scan d x.ticket x.qr_token) (with_token tokens)
          (list_for_booking booking d)
          (Every-map (λ t. Scans scan d t (token_of t.id tokens)) map_ticket _
            (Every-order_by (λ j. Scans scan d (map_ticket j) (token_of j.row.id tokens)) _
              (join_where (λ j. j.row.booking_id == booking) d d.tickets)
              (Every-mono (Found (λ j. j.row.booking_id == booking) d d.tickets)
                (λ j. Scans scan d (map_ticket j) (token_of j.row.id tokens))
                (ticket_redeemed tokens e)
                (join_where (λ j. j.row.booking_id == booking) d d.tickets)
                (join_where-Found (λ j. j.row.booking_id == booking) d d.tickets distinct))))

  -- From the inserts on.
  rest_redeemed :
      (reach scan : BookingRow → Bool) (db : Db) (row : BookingRow)
      (x : Result (List RawToken) × Db) {its : List IssuedTicket}
      → ((n : ℕ) → is_qr_token (s.random_token n) ≡ true)
      → find_booking booking db ≡ some row
      → reach row ≡ true
      → scan row ≡ true
      → is_booking row.status confirmed ≡ true
      → is_paid row.id db ≡ true
      → Issued s booking db x
      → IsValid x.1
      → (continue (list_issued s booking reach) x).0 ≡ ok its
      → Every (λ y. Scans scan (continue (list_issued s booking reach) x).1 y.ticket y.qr_token) its
  unfolding continue list_issued list_tickets_for_booking find_ticketable is_paid notation
  rest_redeemed reach scan db row (err e, d) formed has r c b p i v h = absurd cc
  rest_redeemed reach scan db row (ok tokens, d) formed has r c b p i v h =
      let there : find_booking booking d ≡ some row = rw i.beside.bookings has in
      let found = find-&& (λ b. b.id == booking) reach d.bookings there r in
      let settled : is_paid row.id d ≡ true = rw i.beside.payments p in
      let scans =
        list_redeemed scan d row v.distinct formed there c b settled tokens
          (i.redeem tokens refl) in
      elim (Bool-cases (leb (length (list_for_booking booking d)) 0)) [
        | inl n ↦ absurd (
            ground
              (arith, rw (list_issued, list_tickets_for_booking, find_ticketable, found, n) at h))
        | inr n ↦
            rw (list_issued, list_tickets_for_booking, find_ticketable, found, n)
              (subst (λ ys. Every (λ y. Scans scan d y.ticket y.qr_token) ys)
                {x = map (with_token tokens) (list_for_booking booking d)}
                (ground (
                  arith,
                  rw (list_issued, list_tickets_for_booking, find_ticketable, found, n) at h,
                ))
                scans)
      ]

  -- Where the tickets are well formed, the tokens match the pattern, and the booking of the id is one
  -- that the issuing and the scanning actor reach, every token that an issuance returns is found by a
  -- scan right behind it: the scan returns the very ticket, as valid.
  pub issue_redeemed :
      (reach scan : BookingRow → Bool) (db : Db) (row : BookingRow) {its : List IssuedTicket}
      → IsValid db
      → ((n : ℕ) → is_qr_token (s.random_token n) ≡ true)
      → find_booking booking db ≡ some row
      → reach row ≡ true
      → scan row ≡ true
      → (issue_within s reach booking db).0 ≡ ok its
      → Every (λ x. Scans scan (issue_within s reach booking db).1 x.ticket x.qr_token) its
  unfolding issue_within issue find_ticketable notation
  issue_redeemed reach scan db row v formed has r c h =
      let found = find-&& (λ b. b.id == booking) reach db.bookings has r in
      elim (Bool-cases (is_booking row.status confirmed)) [
        | inr b ↦ absurd (ground (arith, rw (issue_within, find_ticketable, found, b) at h))
        | inl b ↦ elim (Bool-cases (is_paid row.id db)) [
          | inr p ↦ absurd (ground (arith, rw (issue_within, find_ticketable, found, b, p) at h))
          | inl p ↦
              rw (issue_within, find_ticketable, found, b, p)
                (rest_redeemed reach scan db row
                  (insert_all s booking 0 (list_issuable_passengers booking db) db) formed has r c b
                  p (insert_all-Issued s booking 0 _ db)
                  ((insert_all-kept Preserves-Kept s booking 0 _).kept db v)
                  (rw (issue_within, find_ticketable, found, b, p) at h))
        ]
      ]
