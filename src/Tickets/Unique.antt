-- ===== src/Tickets/Unique.antt =====
-- Whatever the calls, no two tickets share a seat, a passenger, a number or a token, and none is both
-- used and revoked.
use voyagi.Prelude.{
  ℕ, ◌+◌, Bool, true, false, List, [], ◌∷◌, ◌++◌, ◌≡◌, refl, ◌∙◌, arith, any, all, update, ◌&&◌,
  ◌||◌, ◌==◌, ltb, Option, is_none, Bool-cases, inl, inr,
}
use voyagi.Store.Rows.{Db, TicketRow, AuditAction}
use voyagi.Audit.{append_audit}
use voyagi.Payments.Repository.{append_booking_event}
use voyagi.Tickets.Types.{InsertTicketParams}
use voyagi.Tickets.Repository.{
  insert_ticket, update_ticket, is_open_ticket, check_in_ticket, revoke_ticket_row, check_in_seat,
  checked_in_row, revoked_row, new_ticket, conflicts, is_referenced,
}
use voyagi.Tickets.Service.{TicketsService}
use voyagi.Tickets.Calls.{Call, serve, Kept, serve-kept}
use voyagi.Tickets.Evolution.{ticket_history}

-- Two tickets share one of the keys.
abbrev pub clash : TicketRow → TicketRow → Bool
clash t u =
    t.id == u.id
    || t.ticket_number == u.ticket_number
    || t.qr_token_hash == u.qr_token_hash
    || (t.booking_id == u.booking_id && t.passenger_id == u.passenger_id)
    || t.seat_reservation_id == u.seat_reservation_id

abbrev pub AllDistinct : List TicketRow → Type 0
AllDistinct [] = Unit {0}
AllDistinct (t ∷ ts) = (any (clash t) ts ≡ false) × AllDistinct ts

abbrev pub is_consistent : TicketRow → Bool
is_consistent t = is_none t.checked_in_at || is_none t.cancelled_at

pub record IsValid (db : Db) : Type 0 where
  pub distinct : AllDistinct db.tickets
  pub consistent : all is_consistent db.tickets ≡ true
  pub below : all (λ t. ltb t.id db.next_id) db.tickets ≡ true

-- A new ticket, where no row conflicts with it and its id is fresh.
module _ (now id : ℕ) (params : InsertTicketParams) where
  abbrev new : TicketRow
  new = new_ticket now id params

  any-clash-append :
      (t : TicketRow) (ts : List TicketRow)
      → any (clash t) (ts ++ new ∷ []) ≡ (any (clash t) ts || clash t new)
  any-clash-append t [] = ground arith
  any-clash-append t (u ∷ ts) = ground (arith, any-clash-append t ts)

  AllDistinct-append :
      (ts : List TicketRow)
      → any (conflicts params) ts ≡ false
      → all (λ t. ltb t.id id) ts ≡ true
      → AllDistinct ts
      → AllDistinct (ts ++ new ∷ [])
  unfolding conflicts
  AllDistinct-append [] c b d = (refl, tt)
  AllDistinct-append (t ∷ ts) c b d = (
    rw (any-clash-append t ts, d.0) (ground arith),
    AllDistinct-append ts (ground arith) (ground arith) d.1,
  )

  all-consistent-append :
      (ts : List TicketRow) → all is_consistent (ts ++ new ∷ []) ≡ all is_consistent ts
  all-consistent-append [] = refl
  all-consistent-append (t ∷ ts) = ground (arith, all-consistent-append ts)

  all-below-append :
      (ts : List TicketRow)
      → all (λ t. ltb t.id id) ts ≡ true
      → all (λ t. ltb t.id (id + 1)) (ts ++ new ∷ []) ≡ true
  all-below-append [] b = ground arith
  all-below-append (t ∷ ts) b = ground (arith, all-below-append ts)

insert_ticket-IsValid :
    (now : ℕ) (params : InsertTicketParams) (db : Db)
    → IsValid db
    → IsValid (insert_ticket now params db).1
unfolding insert_ticket
insert_ticket-IsValid now params db v = elim (Bool-cases (any (conflicts params) db.tickets)) [
  | inl e ↦ rw e v
  | inr e ↦ elim (Bool-cases (is_referenced params db)) [
    | inr r ↦ rw (e, r) v
    | inl r ↦
        rw (e, r)
          (record {
            distinct = AllDistinct-append now db.next_id params db.tickets e v.below v.distinct;
            consistent = all-consistent-append now db.next_id params db.tickets ∙ v.consistent;
            below = all-below-append now db.next_id params db.tickets v.below;
          })
  ]
]

-- A change of the times, which leaves the keys.
pub record IsStamp (change : TicketRow → TicketRow) : Type 0 where
  pub left : (t u : TicketRow) → clash (change t) u ≡ clash t u
  pub right : (t u : TicketRow) → clash t (change u) ≡ clash t u
  pub id : (t : TicketRow) → (change t).id ≡ t.id
  pub once :
      (t : TicketRow)
      → is_none t.checked_in_at ≡ true
      → is_none t.cancelled_at ≡ true
      → is_consistent (change t) ≡ true

module _ (ticket : ℕ) (change : TicketRow → TicketRow) (st : IsStamp change) where
  abbrev changed : List TicketRow → List TicketRow
  changed = update (is_open_ticket ticket) change

  any-clash-update :
      (t : TicketRow) (ts : List TicketRow) → any (clash t) (changed ts) ≡ any (clash t) ts
  any-clash-update t [] = refl
  any-clash-update t (u ∷ ts) = elim (Bool-cases (is_open_ticket ticket u)) [
    | inl e ↦ rw (e, st.right t u, any-clash-update t ts) refl
    | inr e ↦ rw (e, any-clash-update t ts) refl
  ]

  any-clash-change :
      (t : TicketRow) (ts : List TicketRow) → any (clash (change t)) ts ≡ any (clash t) ts
  any-clash-change t [] = refl
  any-clash-change t (u ∷ ts) = rw (st.left t u, any-clash-change t ts) refl

  AllDistinct-update : (ts : List TicketRow) → AllDistinct ts → AllDistinct (changed ts)
  AllDistinct-update [] d = tt
  AllDistinct-update (t ∷ ts) d = elim (Bool-cases (is_open_ticket ticket t)) [
    | inl e ↦
        rw e
          (any-clash-change t (changed ts) ∙ any-clash-update t ts ∙ d.0, AllDistinct-update ts d.1)
    | inr e ↦ rw e (any-clash-update t ts ∙ d.0, AllDistinct-update ts d.1)
  ]

  all-consistent-update :
      (ts : List TicketRow) → all is_consistent ts ≡ true → all is_consistent (changed ts) ≡ true
  unfolding is_open_ticket
  all-consistent-update [] h = refl
  all-consistent-update (t ∷ ts) h = ground (arith, st.once t, all-consistent-update ts)

  all-below-update :
      (n : ℕ) (ts : List TicketRow)
      → all (λ t. ltb t.id n) ts ≡ true
      → all (λ t. ltb t.id n) (changed ts) ≡ true
  all-below-update n [] h = refl
  all-below-update n (t ∷ ts) h = ground (arith, st.id t, all-below-update n ts)

  update_ticket-IsValid : (db : Db) → IsValid db → IsValid (update_ticket ticket change db).1
  unfolding update_ticket
  update_ticket-IsValid db v = elim (Bool-cases (any (is_open_ticket ticket) db.tickets)) [
    | inr e ↦ rw e v
    | inl e ↦ rw e (record {
      distinct = AllDistinct-update db.tickets v.distinct;
      consistent = all-consistent-update db.tickets v.consistent;
      below = all-below-update db.next_id db.tickets v.below;
    })
  ]

checked_in_row-IsStamp : (now : ℕ) → IsStamp (checked_in_row now)
checked_in_row-IsStamp now = record {
  left = λ t u. refl;
  right = λ t u. refl;
  id = λ t. refl;
  once = λ t a b. ground arith;
}

revoked_row-IsStamp : (now : ℕ) → IsStamp (revoked_row now)
revoked_row-IsStamp now = record {
  left = λ t u. refl;
  right = λ t u. refl;
  id = λ t. refl;
  once = λ t a b. ground arith;
}

abbrev pub Preserves : Db → Db → Type 0
Preserves a b = IsValid a → IsValid b

append_audit-IsValid :
    (bound : Bool) (a : Option ℕ) (c : ℕ) (t : AuditAction) (e : ℕ) (db : Db)
    → Preserves db (append_audit bound a c t e db).1
unfolding append_audit
append_audit-IsValid true a c t e db v = record {
  distinct = v.distinct;
  consistent = v.consistent;
  below = v.below;
}
append_audit-IsValid false a c t e db v = v

pub Preserves-Kept : Kept Preserves
unfolding check_in_ticket revoke_ticket_row check_in_seat append_booking_event
Preserves-Kept = record {
  preorder = record { same = λ a v. v; chain = λ a b c p q v. q (p v) };
  inserts = λ now params. record { kept = insert_ticket-IsValid now params };
  checks_in = λ now t. record {
    kept = update_ticket-IsValid t (checked_in_row now) (checked_in_row-IsStamp now);
  };
  revokes = λ now t. record {
    kept = update_ticket-IsValid t (revoked_row now) (revoked_row-IsStamp now);
  };
  seats = λ now q. record {
    kept = λ db v. record { distinct = v.distinct; consistent = v.consistent; below = v.below };
  };
  appends = λ b c a t. record {
    kept = λ db v. record { distinct = v.distinct; consistent = v.consistent; below = v.below };
  };
  audits = λ o a c t e. record { kept = append_audit-IsValid o a c t e };
}

-- Where no two tickets share an id, a number, a token's hash, a passenger of a booking or a seat, none
-- is both used and revoked, and all ids are below the next one, this holds after any calls of the
-- service, in any order, successful or not.
pub ticket_history-IsValid :
    (cs : List (TicketsService × Call)) (db : Db) → IsValid db → IsValid (ticket_history cs db)
unfolding ticket_history
ticket_history-IsValid [] db v = v
ticket_history-IsValid ((s, c) ∷ cs) db v =
    ticket_history-IsValid cs (serve s c db).1 ((serve-kept Preserves-Kept s c).kept db v)
