-- ===== src/Bookings/Placing.antt =====
-- What the loop over the passengers of a creation adds.
use voyagi.Prelude.{
  ℕ, Bool, true, false, ◌&&◌, ◌||◌, not, List, [], ◌∷◌, ◌++◌, none, some, ◌≡◌, refl, ◌∙◌, ap, arith,
  any, all, find, map, found_here, ◌+◌, ++_nil, ++_behind, ◌==◌, Bool-cases, Option-cases, inl, inr,
}
use voyagi.Store.Enums.{is_held_seat}
use voyagi.Store.Rows.{Db, BookingRow, SeatRow}
use voyagi.Store.Monad.{ok, notation}
use voyagi.Bookings.Inputs.{BookingPassengerInput, seat_value}
use voyagi.Bookings.Inserts.{
  takes, insert_passenger, insert_seat, seat_violation, new_seat, new_passenger, has_station,
  bigint_or_none,
}
use voyagi.Bookings.Service.{BookingsService}
use voyagi.Bookings.Creation.{insert_seats}

-- The seats that a loop adds to those before: held for the booking, under the numbers asked for.
abbrev pub is_placed : ℕ → ℕ → SeatRow → Bool
is_placed trip booking q = q.trip_id == trip && q.booking_id == booking && is_held_seat q.status

module _ (s : BookingsService) (trip booking : ℕ) where
  pub record Placed (db d : Db) (ps : List BookingPassengerInput) : Type 0 where
    pub more : List SeatRow
    pub grown : d.seats ≡ db.seats ++ more
    pub numbers : map (λ (q : SeatRow). q.seat_number) more ≡ map seat_value ps
    pub placed : all (is_placed trip booking) more ≡ true
    pub free : all (λ p. not (any (takes trip (seat_value p)) db.seats)) ps ≡ true
    pub bookings : d.bookings ≡ db.bookings

  any-takes-behind :
      (n : ℕ) (ss more : List SeatRow)
      → any (takes trip n) (ss ++ more) ≡ (any (takes trip n) ss || any (takes trip n) more)
  any-takes-behind n [] more = refl
  any-takes-behind n (q ∷ ss) more = ground (arith, any-takes-behind n ss more)

  -- A seat that is free behind a new row was free before it.
  free-before :
      (new : SeatRow) (ss : List SeatRow) (ps : List BookingPassengerInput)
      → all (λ p. not (any (takes trip (seat_value p)) (ss ++ new ∷ []))) ps ≡ true
      → all (λ p. not (any (takes trip (seat_value p)) ss)) ps ≡ true
  free-before new ss [] h = refl
  free-before new ss (p ∷ ps) h =
      ground (arith, h, any-takes-behind (seat_value p) ss (new ∷ []), free-before new ss ps)

  abbrev boarded : BookingPassengerInput → Db → Db
  boarded p db = record db {
    passengers = db.passengers ++ new_passenger db.next_id booking p ∷ [];
    next_id = db.next_id + 1;
  }

  abbrev seated : BookingRow → BookingPassengerInput → Db → ℕ → Db
  seated b p mid passenger = record mid {
    seats = mid.seats ++ new_seat s.now mid.next_id trip b passenger (seat_value p) ∷ [];
    next_id = mid.next_id + 1;
  }

  unviolated :
      (db : Db) (b : BookingRow) (passenger seat : ℕ)
      → seat_violation db trip b passenger seat ≡ none
      → any (takes trip seat) db.seats ≡ false
  unfolding seat_violation
  unviolated db b passenger seat h = ground (arith, h)

  first_seat :
      (p : BookingPassengerInput) (ps : List BookingPassengerInput) (db d : Db) (b : BookingRow)
      → find (λ r. r.id == booking && r.trip_id == trip) db.bookings ≡ some b
      → seat_violation (boarded p db) trip b db.next_id (seat_value p) ≡ none
      → Placed (seated b p (boarded p db) db.next_id) d ps
      → Placed db d (p ∷ ps)
  first_seat p ps db d b f v r =
      let new = new_seat s.now (db.next_id + 1) trip b db.next_id (seat_value p) in
      let here = found_here (λ r. r.id == booking && r.trip_id == trip) db.bookings f in
      record {
        more = new ∷ r.more;
        grown = r.grown ∙ ++_behind db.seats r.more new;
        numbers = ap (λ ns. seat_value p ∷ ns) r.numbers;
        placed = rw r.placed (ground (arith, here));
        free =
            rw (unviolated (boarded p db) b db.next_id (seat_value p) v)
              (free-before new db.seats ps r.free);
        bookings = r.bookings;
      }

  -- Where the loop over the passengers returns, and the booking of the id is on the trip, the seats are
  -- those before and one more for each passenger, under the number asked for, held for the booking on
  -- the trip; and no active row had taken any of these numbers.
  pub insert_seats-Placed :
      (ps : List BookingPassengerInput) (db : Db) {b : BookingRow}
      → find (λ r. r.id == booking && r.trip_id == trip) db.bookings ≡ some b
      → (insert_seats s trip booking ps db).0 ≡ ok tt
      → Placed db (insert_seats s trip booking ps db).1 ps
  unfolding insert_seats insert_passenger insert_seat notation
  insert_seats-Placed [] db f h = record {
    more = [];
    grown = ++_nil db.seats;
    numbers = refl;
    placed = refl;
    free = refl;
    bookings = refl;
  }
  insert_seats-Placed (p ∷ ps) db {b} f h =
      elim (Bool-cases (has_station db.network (bigint_or_none p.boarding_station_id))) [
        | inr n ↦ absurd (ground (arith, rw (insert_seats, insert_passenger, n) at h))
        | inl n ↦
            let mid = boarded p db in
            elim (Option-cases (seat_violation mid trip b db.next_id (seat_value p))) [
              | inr (e, v) ↦
                  absurd
                    (ground (arith, rw (insert_seats, insert_passenger, n, insert_seat, f, v) at h))
              | inl v ↦
                  let rest =
                    insert_seats-Placed ps (seated b p mid db.next_id) f
                      (rw (insert_seats, insert_passenger, n, insert_seat, f, v) at h) in
                  rw (insert_seats, insert_passenger, n, insert_seat, f, v)
                    (first_seat p ps db _ b f v rest)
            ]
      ]
