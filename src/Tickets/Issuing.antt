-- ===== src/Tickets/Issuing.antt =====
-- What an issuance adds, and that each token it returns scans as valid.
use voyagi.Prelude.{
  ℕ, ◌+◌, true, false, List, [], ◌∷◌, ◌++◌, none, some, ◌≡◌, refl, ◌∙◌, subst, arith, any, find,
  find_behind, find_before, any_absent, ++_behind, ++_nil, ◌==◌, ==_refl, Every, Bool-cases, inl,
  inr,
}
use voyagi.Identity.Identifier.{Text}
use voyagi.Store.Rows.{Db, TicketRow}
use voyagi.Store.Monad.{Result, ok, err, foreign_key_violation, Error, pure, continue, notation}
use voyagi.Tickets.Types.{InsertTicketParams, IssuablePassenger}
use voyagi.Tickets.Repository.{insert_ticket, conflicts, is_referenced, new_ticket}
use voyagi.Tickets.Service.{TicketsService, RawToken, keep_token, insert_all}
use voyagi.Tickets.Evolution.{is_unused}

-- What an issuance leaves as it is.
pub record Beside (a b : Db) : Type 0 where
  pub bookings : b.bookings ≡ a.bookings
  pub passengers : b.passengers ≡ a.passengers
  pub seats : b.seats ≡ a.seats
  pub payments : b.payments ≡ a.payments

Beside-refl : (a : Db) → Beside a a
Beside-refl a = record { bookings = refl; passengers = refl; seats = refl; payments = refl }

module _ (s : TicketsService) (booking : ℕ) where
  -- The ticket of a token is found under its hash, unused.
  pub record Redeems (d : Db) (token : RawToken) : Type 0 where
    pub row : TicketRow
    pub number : ℕ
    pub made : token.1 ≡ s.random_token number
    pub hashed : find (λ t. t.qr_token_hash == s.hash token.1) d.tickets ≡ some row
    pub id : row.id ≡ token.0
    pub unused : is_unused row ≡ true
    pub of_booking : row.booking_id ≡ booking

  pub record Issued (db : Db) (r : Result (List RawToken) × Db) : Type 0 where
    pub beside : Beside db r.1
    pub more : List TicketRow
    pub grown : r.1.tickets ≡ db.tickets ++ more
    pub redeem : (tokens : List RawToken) → r.0 ≡ ok tokens → Every (Redeems r.1) tokens

  abbrev params_of : ℕ → IssuablePassenger → InsertTicketParams
  params_of n p = record {
    booking_id = booking;
    passenger_id = p.passenger_id;
    seat_reservation_id = p.seat_reservation_id;
    ticket_number = s.generate_ticket_number n;
    qr_token_hash = s.hash (s.random_token n);
  }

  -- An insert that adds nothing returns no token.
  without_token :
      (db : Db) (raw : Text) (x : Result (List RawToken) × Db)
      → Issued db x
      → Issued db (continue (λ tokens. pure (keep_token none raw tokens)) x)
  unfolding continue pure
  without_token db raw (ok ts, d) i = i
  without_token db raw (err e, d) i = record {
    beside = i.beside;
    more = i.more;
    grown = i.grown;
    redeem = λ tokens h. absurd cc;
  }

  unhashed :
      (db : Db) (n : ℕ) (p : IssuablePassenger)
      → any (conflicts (params_of n p)) db.tickets ≡ false
      → any (λ t. t.qr_token_hash == s.hash (s.random_token n)) db.tickets ≡ false
  unfolding conflicts
  unhashed db n p c = any_absent _ (conflicts (params_of n p)) (λ t h. ground arith) db.tickets c

  -- One that adds a ticket returns its token.
  with_new :
      (db : Db) (n : ℕ) (p : IssuablePassenger) (x : Result (List RawToken) × Db)
      → let new = new_ticket s.now db.next_id (params_of n p) in
        let mid = record db { tickets = db.tickets ++ new ∷ []; next_id = db.next_id + 1 } in
        any (conflicts (params_of n p)) db.tickets ≡ false
        → Issued mid x
        → Issued db
            (continue (λ tokens. pure (keep_token (some db.next_id) (s.random_token n) tokens)) x)
  unfolding continue pure
  with_new db n p (err e, d) c i = record {
    beside = record {
      bookings = i.beside.bookings;
      passengers = i.beside.passengers;
      seats = i.beside.seats;
      payments = i.beside.payments;
    };
    more = new_ticket s.now db.next_id (params_of n p) ∷ i.more;
    grown = i.grown ∙ ++_behind db.tickets i.more _;
    redeem = λ tokens h. absurd cc;
  }
  with_new db n p (ok ts, d) c i =
      let new = new_ticket s.now db.next_id (params_of n p) in
      let first : Redeems d (db.next_id, s.random_token n) = record {
        row = new;
        number = n;
        made = refl;
        hashed = rw i.grown (
            find_before _ (db.tickets ++ new ∷ []) i.more (
              find_behind _ db.tickets (new ∷ []) (unhashed db n p c)
              ∙ rw (==_refl (s.hash (s.random_token n))) refl));
        id = refl;
        unused = refl;
        of_booking = refl;
      } in
      record {
        beside = record {
          bookings = i.beside.bookings;
          passengers = i.beside.passengers;
          seats = i.beside.seats;
          payments = i.beside.payments;
        };
        more = new ∷ i.more;
        grown = i.grown ∙ ++_behind db.tickets i.more new;
        redeem = λ tokens h.
            subst (λ x. Every (Redeems d) x) {x = (db.next_id, s.random_token n) ∷ ts}
              (ground arith) (first, i.redeem ts refl);
      }

  unissued : (db : Db) (e : Error) → Issued db (err e, db)
  unissued db e = record {
    beside = Beside-refl db;
    more = [];
    grown = ++_nil db.tickets;
    redeem = λ tokens h. absurd cc;
  }

  pub insert_all-Issued :
      (n : ℕ) (ps : List IssuablePassenger) (db : Db) → Issued db (insert_all s booking n ps db)
  unfolding insert_all insert_ticket notation
  insert_all-Issued n [] db = record {
    beside = Beside-refl db;
    more = [];
    grown = ++_nil db.tickets;
    redeem = λ tokens h. subst (λ x. Every (Redeems db) x) {x = []} (ground arith) tt;
  }
  insert_all-Issued n (p ∷ ps) db = elim (Bool-cases (any (conflicts (params_of n p)) db.tickets)) [
    | inl c ↦
        rw (insert_ticket, c)
          (without_token db (s.random_token n) _ (insert_all-Issued (n + 1) ps db))
    | inr c ↦ elim (Bool-cases (is_referenced (params_of n p) db)) [
      | inr r ↦ rw (insert_ticket, c, r) (unissued db foreign_key_violation)
      | inl r ↦ rw (insert_ticket, c, r) (with_new db n p _ c (insert_all-Issued (n + 1) ps _))
    ]
  ]
