-- ===== src/Bookings/Cancelling.antt =====
-- What a cancellation does, and when it is refused.
use voyagi.Prelude.{
  ℕ, Bool, true, false, ◌&&◌, List, [], ◌∷◌, Option, ◌≡◌, refl, arith, any, update, ◌==◌, find-any,
  find_absent, update_absent, update_reaches, Bool-cases, inl, inr, not, ◌||◌, ◌⊎◌, sym, subst, ◌∙◌,
  any_absent, Rewritten, Rewritten-update,
}
use voyagi.Store.Enums.{
  BookingStatus, draft, held, pending_payment, confirmed, partially_cancelled, completed, expired,
  BookingStatus-discrete, cancelled, is_booking, seat_cancelled,
}
use voyagi.Store.Changes.{BookingIn, SeatIn}
use voyagi.Store.Rows.{Db, BookingRow, SeatRow}
use voyagi.Store.Monad.{ok, err, notation, booking_not_found, booking_not_cancellable}
use voyagi.Audit.{append_audit}
use voyagi.Payments.Repository.{append_booking_event}
use voyagi.Bookings.Transitions.{can_apply_booking_action, booking_transitions, cancel}
use voyagi.Bookings.Repository.{
  Booking, find_one, lock_booking_aggregate, cancel_booking, cancelled_row, is_cancellable,
  is_checked_in, is_releasable, release_booking_seats,
}
use voyagi.Bookings.Service.{BookingsService, cancel_within, or_refuse}

module _ (s : BookingsService) (actor : ℕ) (company : Option ℕ) (reach : BookingRow → Bool)
    (booking : ℕ) where
  -- A booking that the actor does not reach is not found.
  cancel_hidden :
      (db : Db)
      → lock_booking_aggregate reach booking db ≡ false
      → cancel_within s actor company reach booking db ≡ (err booking_not_found, db)
  unfolding cancel_within notation
  cancel_hidden db h = rw h refl

  -- A row of the booking that the actor reaches and that is still to be paid.
  abbrev pub awaits : BookingRow → Bool
  awaits b =
      b.id == booking
      && reach b
      && (is_booking b.status held || is_booking b.status pending_payment)

  -- A passenger of the booking is on board.
  abbrev pub has_boarded : Db → Bool
  has_boarded db = any (λ q. q.booking_id == booking && is_checked_in q.status) db.seats

  open_status :
      (x : BookingStatus)
      → can_apply_booking_action x cancel ≡ (is_booking x held || is_booking x pending_payment)
  unfolding can_apply_booking_action booking_transitions BookingStatus-discrete
  open_status draft = refl
  open_status held = refl
  open_status pending_payment = refl
  open_status confirmed = refl
  open_status partially_cancelled = refl
  open_status cancelled = refl
  open_status completed = refl
  open_status expired = refl

  guard :
      (db : Db) (b : BookingRow)
      → is_cancellable reach booking db b ≡ (not (has_boarded db) && awaits b)
  unfolding is_cancellable
  guard db b = elim (Bool-cases (b.id == booking)) [
    | inl e ↦
        let same : b.id ≡ booking = ground (arith, e) in
        rw (open_status b.status) (
          subst
            (λ k.
              (b.id == booking
                && reach b
                && (is_booking b.status held || is_booking b.status pending_payment)
                && not (any (λ s. s.booking_id == k && is_checked_in s.status) db.seats))
              ≡ (not (has_boarded db) && awaits b))
            (sym same)
            (last_first (b.id == booking) (reach b)
              (is_booking b.status held || is_booking b.status pending_payment)
              (not (has_boarded db))))
    | inr e ↦ rw e (ground arith)
  ]
    where
      last_first : (x y z w : Bool) → (x && y && z && w) ≡ (w && (x && y && z))
      last_first x y z w = ground arith

  guarded : (db : Db) → is_cancellable reach booking db ≡ (λ b. not (has_boarded db) && awaits b)
  guarded db = λ i b. guard db b i

  refused_rows :
      (db : Db)
      → (any awaits db.bookings ≡ false) ⊎ (has_boarded db ≡ true)
      → any (is_cancellable reach booking db) db.bookings ≡ false
  refused_rows db h =
      any_absent (is_cancellable reach booking db) (λ b. not (has_boarded db) && awaits b)
        (λ b e. sym (guard db b) ∙ e) db.bookings (closed h)
    where
      none_of : (bs : List BookingRow) → any (λ b. false) bs ≡ false
      none_of [] = refl
      none_of (b ∷ bs) = none_of bs

      closed :
          (any awaits db.bookings ≡ false) ⊎ (has_boarded db ≡ true)
          → any (λ b. not (has_boarded db) && awaits b) db.bookings ≡ false
      closed (inr b) = rw b (none_of db.bookings)
      closed (inl n) =
          any_absent (λ b. not (has_boarded db) && awaits b) awaits (λ b e. ground (arith, e))
            db.bookings n

  -- Where the actor reaches a booking of the id, but none that they reach is HELD or PENDING_PAYMENT,
  -- or a seat of it is CHECKED_IN, the call is refused as not cancellable, and the database is as it
  -- was.
  pub cancel_refused :
      (db : Db)
      → lock_booking_aggregate reach booking db ≡ true
      → (any awaits db.bookings ≡ false) ⊎ (has_boarded db ≡ true)
      → cancel_within s actor company reach booking db ≡ (err booking_not_cancellable, db)
  unfolding cancel_within cancel_booking or_refuse find_one lock_booking_aggregate notation
  cancel_refused db v c =
      let h = refused_rows db c in
      let (b, f) = find-any _ db.bookings v in
      rw (v, find_absent _ db.bookings h, update_absent _ (cancelled_row s.now) db.bookings h, f)
        refl

  abbrev Stable : Type 0
  Stable = (b : BookingRow) → reach (cancelled_row s.now b) ≡ reach b

  cancelled_reached :
      (db : Db) (b : BookingRow)
      → Stable
      → is_cancellable reach booking db b ≡ true
      → (b.id == booking && reach (cancelled_row s.now b)) ≡ true
  unfolding is_cancellable
  cancelled_reached db b st h = ground (arith, st b)

  cancellable_visible :
      (db : Db)
      → (bs : List BookingRow) → any (is_cancellable reach booking db) bs ≡ true
      → any (λ b. b.id == booking && reach b) bs ≡ true
  unfolding is_cancellable
  cancellable_visible db [] h = absurd cc
  cancellable_visible db (b ∷ bs) h = ground (arith, cancellable_visible db bs)

  abbrev pub of_booking : SeatRow → Bool
  of_booking q = q.booking_id == booking && is_releasable q.status

  cancellable_rows :
      (db : Db)
      → any awaits db.bookings ≡ true
      → has_boarded db ≡ false
      → any (is_cancellable reach booking db) db.bookings ≡ true
  cancellable_rows db h n = rw (guarded db, n) h

  rows_change :
      (db : Db)
      → has_boarded db ≡ false
      → Rewritten awaits
          (BookingIn cancelled)
          db.bookings
          (update (is_cancellable reach booking db) (cancelled_row s.now) db.bookings)
  rows_change db n =
      rw (guarded db, n)
        (Rewritten-update awaits (BookingIn cancelled) (cancelled_row s.now)
          (λ b. record {
            id = refl;
            trip_id = refl;
            company_id = refl;
            booked_by_user_id = refl;
            total_amount = refl;
            version = refl;
            status = refl;
          })
          db.bookings)

  seats_change :
      (ss : List SeatRow)
      → Rewritten of_booking
          (SeatIn seat_cancelled)
          ss
          (update of_booking (λ q. record q { status = seat_cancelled; updated_at = s.now }) ss)
  seats_change ss =
      Rewritten-update of_booking (SeatIn seat_cancelled) _
        (λ q. record {
          id = refl;
          trip_id = refl;
          booking_id = refl;
          passenger_id = refl;
          seat_number = refl;
          status = refl;
        })
        ss

  -- Where the clause `reach` does not look at what a cancellation changes, a booking of the id that the
  -- actor reaches is HELD or PENDING_PAYMENT, and no seat of it is CHECKED_IN, the call returns; each
  -- such row is CANCELLED, one version on, each HELD or CONFIRMED seat of the booking is CANCELLED, all
  -- other bookings and seats are as they were, and so are all payments, those of the booking too.
  pub cancel_effect :
      (db : Db)
      → Stable
      → any awaits db.bookings ≡ true
      → has_boarded db ≡ false
      → let r = cancel_within s actor company reach booking db in
        ((b : Booking) × (r.0 ≡ ok b))
        × Rewritten awaits (BookingIn cancelled) db.bookings r.1.bookings
        × Rewritten of_booking (SeatIn seat_cancelled) db.seats r.1.seats
        × (r.1.payments ≡ db.payments)
  unfolding cancel_within cancel_booking or_refuse find_one lock_booking_aggregate
      release_booking_seats append_booking_event append_audit notation
  cancel_effect db st o n =
      let h = cancellable_rows db o n in
      let (b, f) = find-any _ db.bookings h in
      let (c, g) =
        find-any (λ b. b.id == booking && reach b)
          (update (is_cancellable reach booking db) (cancelled_row s.now) db.bookings)
          (update_reaches _ _ (cancelled_row s.now) (λ x e. cancelled_reached db x st e) db.bookings
            h) in
      let rows = rows_change db n in
      let seats = seats_change db.seats in
      let seen = cancellable_visible db db.bookings h in
      elim (Bool-cases s.audits) [
        | inl a ↦ rw (seen, f, a, g) ((_, refl), rows, seats, refl)
        | inr a ↦ rw (seen, f, a, g) ((_, refl), rows, seats, refl)
      ]
