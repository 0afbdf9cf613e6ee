-- ===== src/Tickets/Evolution.antt =====
-- What any calls can do to the tickets that are there: each stays, as it was issued, and once one of
-- its two times is written, both stay.
use voyagi.Prelude.{
  ℕ, Bool, true, false, List, [], ◌∷◌, Option, some, ◌≡◌, refl, ◌∙◌, arith, find, ◌&&◌, ◌==◌,
  is_none, Bool-cases, inl, inr, any,
}
use voyagi.Store.Rows.{Db, TicketRow, AuditAction}
use voyagi.Store.Growth.{Grows, Grows-refl, Grows-append, Grows-update, Grows-trans, find-Grows}
use voyagi.Audit.{append_audit}
use voyagi.Payments.Repository.{append_booking_event}
use voyagi.Tickets.Types.{InsertTicketParams}
use voyagi.Tickets.Repository.{
  insert_ticket, update_ticket, is_open_ticket, check_in_ticket, revoke_ticket_row, check_in_seat,
  checked_in_row, revoked_row, conflicts, is_referenced,
}
use voyagi.Tickets.Service.{TicketsService}
use voyagi.Tickets.Calls.{Call, serve, Kept, serve-kept}

abbrev pub is_unused : TicketRow → Bool
is_unused t = is_none t.checked_in_at && is_none t.cancelled_at

pub record Continues (p q : TicketRow) : Type 0 where
  pub id : q.id ≡ p.id
  pub booking_id : q.booking_id ≡ p.booking_id
  pub passenger_id : q.passenger_id ≡ p.passenger_id
  pub seat_reservation_id : q.seat_reservation_id ≡ p.seat_reservation_id
  pub ticket_number : q.ticket_number ≡ p.ticket_number
  pub qr_token_hash : q.qr_token_hash ≡ p.qr_token_hash
  pub issued_at : q.issued_at ≡ p.issued_at
  pub settled :
      is_unused p ≡ false → (q.checked_in_at ≡ p.checked_in_at) × (q.cancelled_at ≡ p.cancelled_at)

Continues-refl : (p : TicketRow) → Continues p p
Continues-refl p = record {
  id = refl;
  booking_id = refl;
  passenger_id = refl;
  seat_reservation_id = refl;
  ticket_number = refl;
  qr_token_hash = refl;
  issued_at = refl;
  settled = λ h. (refl, refl);
}

settled_chain :
    (p q r : TicketRow)
    → Continues p q
    → Continues q r
    → is_unused p ≡ false
    → (r.checked_in_at ≡ p.checked_in_at) × (r.cancelled_at ≡ p.cancelled_at)
settled_chain p q r a b h =
    let (x, y) = a.settled h in let (z, w) = b.settled (rw (x, y) h) in (z ∙ x, w ∙ y)

Continues-trans : (p q r : TicketRow) → Continues p q → Continues q r → Continues p r
Continues-trans p q r a b = record {
  id = b.id ∙ a.id;
  booking_id = b.booking_id ∙ a.booking_id;
  passenger_id = b.passenger_id ∙ a.passenger_id;
  seat_reservation_id = b.seat_reservation_id ∙ a.seat_reservation_id;
  ticket_number = b.ticket_number ∙ a.ticket_number;
  qr_token_hash = b.qr_token_hash ∙ a.qr_token_hash;
  issued_at = b.issued_at ∙ a.issued_at;
  settled = settled_chain p q r a b;
}

abbrev pub Evolves : Db → Db → Type 0
Evolves a b = Grows Continues a.tickets b.tickets

-- An unused ticket that gets one of its times.
abbrev Stamped : (TicketRow → TicketRow) → Type 0
Stamped change = (t : TicketRow) → is_unused t ≡ true → Continues t (change t)

checked_in_row-Continues : (now : ℕ) → Stamped (checked_in_row now)
checked_in_row-Continues now t h = record {
  id = refl;
  booking_id = refl;
  passenger_id = refl;
  seat_reservation_id = refl;
  ticket_number = refl;
  qr_token_hash = refl;
  issued_at = refl;
  settled = λ n. ground arith;
}

revoked_row-Continues : (now : ℕ) → Stamped (revoked_row now)
revoked_row-Continues now t h = record {
  id = refl;
  booking_id = refl;
  passenger_id = refl;
  seat_reservation_id = refl;
  ticket_number = refl;
  qr_token_hash = refl;
  issued_at = refl;
  settled = λ n. ground arith;
}

open-unused : (ticket : ℕ) (t : TicketRow) → is_open_ticket ticket t ≡ true → is_unused t ≡ true
unfolding is_open_ticket
open-unused ticket t h = ground arith

update_ticket-Evolves :
    (ticket : ℕ) (change : TicketRow → TicketRow) (db : Db)
    → Stamped change
    → Evolves db (update_ticket ticket change db).1
unfolding update_ticket
update_ticket-Evolves ticket change db c =
    elim (Bool-cases (any (is_open_ticket ticket) db.tickets)) [
      | inl e ↦ rw e (
          Grows-update Continues Continues-refl (is_open_ticket ticket) change
            (λ t h. c t (open-unused ticket t h)) db.tickets)
      | inr e ↦ rw e (Grows-refl Continues Continues-refl db.tickets)
    ]

insert_ticket-Evolves :
    (now : ℕ) (params : InsertTicketParams) (db : Db) → Evolves db (insert_ticket now params db).1
unfolding insert_ticket
insert_ticket-Evolves now params db = elim (Bool-cases (any (conflicts params) db.tickets)) [
  | inl e ↦ rw e (Grows-refl Continues Continues-refl db.tickets)
  | inr e ↦ elim (Bool-cases (is_referenced params db)) [
    | inl r ↦ rw (e, r) (Grows-append Continues Continues-refl db.tickets _)
    | inr r ↦ rw (e, r) (Grows-refl Continues Continues-refl db.tickets)
  ]
]

audit_same :
    (bound : Bool) (a : Option ℕ) (c : ℕ) (t : AuditAction) (e : ℕ) (db : Db)
    → Evolves db (append_audit bound a c t e db).1
unfolding append_audit
audit_same true a c t e db = Grows-refl Continues Continues-refl db.tickets
audit_same false a c t e db = Grows-refl Continues Continues-refl db.tickets

Evolution-Kept : Kept Evolves
unfolding check_in_ticket revoke_ticket_row check_in_seat append_booking_event append_audit
Evolution-Kept = record {
  preorder = record {
    same = λ a. Grows-refl Continues Continues-refl a.tickets;
    chain = λ a b c. Grows-trans Continues Continues-trans a.tickets b.tickets c.tickets;
  };
  inserts = λ now params. record { kept = insert_ticket-Evolves now params };
  checks_in =
      λ now t. record { kept = λ db. update_ticket-Evolves t _ db (checked_in_row-Continues now) };
  revokes =
      λ now t. record { kept = λ db. update_ticket-Evolves t _ db (revoked_row-Continues now) };
  seats = λ now q. record { kept = λ db. Grows-refl Continues Continues-refl db.tickets };
  appends = λ b c a t. record { kept = λ db. Grows-refl Continues Continues-refl db.tickets };
  audits = λ o a c t e. record { kept = λ db. audit_same o a c t e db };
}

-- What follows from a sequence of calls, each with the environment it is served in.
unfoldable pub ticket_history : List (TicketsService × Call) → Db → Db
ticket_history [] db = db
ticket_history ((s, c) ∷ cs) db = ticket_history cs (serve s c db).1

ticket_history-Evolves :
    (cs : List (TicketsService × Call)) (db : Db) → Evolves db (ticket_history cs db)
unfolding ticket_history
ticket_history-Evolves [] db = Grows-refl Continues Continues-refl db.tickets
ticket_history-Evolves ((s, c) ∷ cs) db =
    Evolution-Kept.preorder.chain db (serve s c db).1 (ticket_history cs (serve s c db).1)
      ((serve-kept Evolution-Kept s c).kept db) (ticket_history-Evolves cs (serve s c db).1)

-- A ticket that has been used or revoked stays so, whatever calls follow: its two times, its seat and
-- the hash of its token are as they are.
pub ticket_history_settled :
    (cs : List (TicketsService × Call)) (db : Db) (k : ℕ) {t : TicketRow}
    → find (λ r. r.id == k) db.tickets ≡ some t
    → is_unused t ≡ false
    → (u : TicketRow) × (find (λ r. r.id == k) (ticket_history cs db).tickets ≡ some u)
      × (u.checked_in_at ≡ t.checked_in_at)
      × (u.cancelled_at ≡ t.cancelled_at)
      × (u.seat_reservation_id ≡ t.seat_reservation_id)
      × (u.qr_token_hash ≡ t.qr_token_hash)
ticket_history_settled cs db k h n =
    let (u, f, c) =
      find-Grows Continues (λ r. r.id == k) (λ x y c. rw c.id refl) db.tickets _
        (ticket_history-Evolves cs db) h in
    let (a, b) = c.settled n in (u, f, a, b, c.seat_reservation_id, c.qr_token_hash)
