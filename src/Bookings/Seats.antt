-- ===== src/Bookings/Seats.antt =====
-- No seat of a trip is taken twice: what the statements do to the seats.
use voyagi.Prelude.{
  ℕ, Bool, true, false, List, [], ◌∷◌, ◌++◌, none, ◌≡◌, refl, arith, any, find, update, ◌&&◌, ◌||◌,
  ◌==◌, Bool-cases, Option-cases, inl, inr,
}
use voyagi.Store.Enums.{SeatStatus}
use voyagi.Store.Rows.{Db, BookingRow, SeatRow}
use voyagi.Bookings.Inserts.{is_active_seat, takes, insert_seat, seat_violation, new_seat}

-- No two active rows share a trip and a seat.
abbrev pub TakenOnce : List SeatRow → Type 0
TakenOnce [] = Unit {0}
TakenOnce (s ∷ ss) =
    ((is_active_seat s.status && any (takes s.trip_id s.seat_number) ss) ≡ false) × TakenOnce ss

-- A row behind the others, for a seat that none of them takes.
module _ (new : SeatRow) where
  any-takes-append :
      (t n : ℕ) (ss : List SeatRow)
      → any (takes t n) (ss ++ new ∷ []) ≡ (any (takes t n) ss || takes t n new)
  any-takes-append t n [] = ground arith
  any-takes-append t n (s ∷ ss) = ground (arith, any-takes-append t n ss)

  TakenOnce-append :
      (ss : List SeatRow)
      → any (takes new.trip_id new.seat_number) ss ≡ false
      → TakenOnce ss
      → TakenOnce (ss ++ new ∷ [])
  TakenOnce-append [] f h = (ground arith, tt)
  TakenOnce-append (s ∷ ss) f h = (
    rw (any-takes-append s.trip_id s.seat_number ss) (ground (arith, h.0, f)),
    TakenOnce-append ss (ground arith) h.1,
  )

-- A change of active rows that leaves their trips and seats.
record IsRelease (p : SeatRow → Bool) (f : SeatRow → SeatRow) : Type 0 where
  trip_id : (s : SeatRow) → (f s).trip_id ≡ s.trip_id
  seat_number : (s : SeatRow) → (f s).seat_number ≡ s.seat_number
  active : (s : SeatRow) → p s ≡ true → is_active_seat s.status ≡ true

module _ (p : SeatRow → Bool) (f : SeatRow → SeatRow) (r : IsRelease p f) where
  any-takes-update :
      (t n : ℕ) (ss : List SeatRow)
      → any (takes t n) ss ≡ false
      → any (takes t n) (update p f ss) ≡ false
  any-takes-update t n [] h = refl
  any-takes-update t n (s ∷ ss) h = elim (Bool-cases (p s)) [
    | inl e ↦
        rw (e, r.trip_id s, r.seat_number s)
          (ground (arith, r.active s e, h, any-takes-update t n ss))
    | inr e ↦ rw e (ground (arith, h, any-takes-update t n ss))
  ]

  TakenOnce-update : (ss : List SeatRow) → TakenOnce ss → TakenOnce (update p f ss)
  TakenOnce-update [] h = tt
  TakenOnce-update (s ∷ ss) h = elim (Bool-cases (p s)) [
    | inl e ↦
        rw (e, r.trip_id s, r.seat_number s)
          (
            ground (arith, r.active s e, h.0, any-takes-update s.trip_id s.seat_number ss),
            TakenOnce-update ss h.1,
          )
    | inr e ↦
        rw e (
          ground (arith, h.0, any-takes-update s.trip_id s.seat_number ss),
          TakenOnce-update ss h.1,
        )
  ]

-- All the updates are of this form.
pub TakenOnce-status :
    (p : SeatRow → Bool) (status : SeatStatus) (now : ℕ) (ss : List SeatRow)
    → ((s : SeatRow) → p s ≡ true → is_active_seat s.status ≡ true)
    → TakenOnce ss
    → TakenOnce (update p (λ s. record s { status = status; updated_at = now }) ss)
TakenOnce-status p status now ss a =
    TakenOnce-update p (λ s. record s { status = status; updated_at = now })
      (record { trip_id = λ s. refl; seat_number = λ s. refl; active = a }) ss

untaken :
    (db : Db) (trip passenger seat : ℕ) (b : BookingRow)
    → seat_violation db trip b passenger seat ≡ none
    → any (takes trip seat) db.seats ≡ false
unfolding seat_violation
untaken db trip passenger seat b h = ground (arith, h)

pub insert_seat-TakenOnce :
    (now trip booking passenger seat : ℕ) (db : Db)
    → TakenOnce db.seats
    → TakenOnce (insert_seat now trip booking passenger seat db).1.seats
unfolding insert_seat
insert_seat-TakenOnce now trip booking passenger seat db h =
    elim (Option-cases (find (λ b. b.id == booking && b.trip_id == trip) db.bookings)) [
      | inl e ↦ rw (insert_seat, e) h
      | inr (b, e) ↦ elim (Option-cases (seat_violation db trip b passenger seat)) [
        | inr (x, v) ↦ rw (insert_seat, e, v) h
        | inl v ↦
            rw (insert_seat, e, v)
              (TakenOnce-append (new_seat now db.next_id trip b passenger seat) db.seats
                (untaken db trip passenger seat b v) h)
      ]
    ]
