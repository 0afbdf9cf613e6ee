-- ===== src/Bookings/Expiring.antt =====
-- What an expiry run does, and that the next one finds nothing.
use voyagi.Prelude.{
  ℕ, Bool, false, ◌&&◌, List, [], ◌∷◌, Option, none, ◌≡◌, refl, ap, ◌∙◌, arith, any, select, update,
  ◌==◌, ◌||◌, sym, length, update_clears, Rewritten, Rewritten-update,
}
use voyagi.Store.Changes.{BookingIn, SeatIn}
use voyagi.Store.Enums.{
  BookingStatus, BookingStatus-discrete, is_booking, draft, held, pending_payment, confirmed,
  partially_cancelled, cancelled, completed, expired, is_held_seat, seat_released, booking_expired,
}
use voyagi.Store.Rows.{Db, BookingRow, SeatRow, EventRow}
use voyagi.Store.Monad.{ok, pure, ◌>>◌, notation}
use voyagi.Payments.Repository.{append_booking_event}
use voyagi.Bookings.Transitions.{can_apply_booking_action, booking_transitions, expire}
use voyagi.Bookings.Repository.{is_expirable, is_past, expired_row, release_expired}
use voyagi.Bookings.Service.{BookingsService, append_expired, expire_within}

-- The events of an expiry run, and nothing else.
logged :
    (s : BookingsService) (company n : ℕ) (bs : List BookingRow) (db : Db)
    → (es : List EventRow) × ((append_expired s company bs >> pure n) db
        ≡ (ok n, record db { events = es }))
unfolding append_expired append_booking_event notation
logged s company n [] db = (db.events, refl)
logged s company n (b ∷ bs) db =
    logged s company n bs (append_booking_event b.id company none booking_expired db).1

expired_state : can_apply_booking_action expired expire ≡ false
unfolding can_apply_booking_action booking_transitions BookingStatus-discrete
expired_state = refl

-- At any time a row that has just expired cannot expire.
expired_row-stays :
    (now later company : ℕ) (trip : Option ℕ) (b : BookingRow)
    → is_expirable later company trip (expired_row now b) ≡ false
unfolding is_expirable
expired_row-stays now later company trip b = ground (arith, expired_state)

select_absent : (p : BookingRow → Bool) (bs : List BookingRow) → any p bs ≡ false → select p bs ≡ []
select_absent p [] h = refl
select_absent p (b ∷ bs) h = ground (arith, select_absent p bs)

open_status :
    (x : BookingStatus)
    → can_apply_booking_action x expire ≡ (is_booking x held || is_booking x pending_payment)
unfolding can_apply_booking_action booking_transitions BookingStatus-discrete
open_status draft = refl
open_status held = refl
open_status pending_payment = refl
open_status confirmed = refl
open_status partially_cancelled = refl
open_status cancelled = refl
open_status completed = refl
open_status expired = refl

module _ (s : BookingsService) (company : ℕ) where
  -- A booking of the company that is still to be paid and whose time is over.
  abbrev pub is_overdue : BookingRow → Bool
  is_overdue b =
      b.company_id == company
      && (is_booking b.status held || is_booking b.status pending_payment)
      && is_past b.expires_at s.now

  -- A held seat of one of the bookings.
  abbrev pub of_gone : List BookingRow → SeatRow → Bool
  of_gone gone q = any (λ b. q.booking_id == b.id) gone && is_held_seat q.status

  overdue_rows : is_expirable s.now company none ≡ is_overdue
  unfolding is_expirable
  overdue_rows = λ i b. row b i
    where
      row : (b : BookingRow) → is_expirable s.now company none b ≡ is_overdue b
      row b = rw (open_status b.status) (ground arith)

  rows_change :
      (bs : List BookingRow)
      → Rewritten is_overdue
          (BookingIn expired)
          bs
          (update (is_expirable s.now company none) (expired_row s.now) bs)
  rows_change bs = rw overdue_rows (
      Rewritten-update is_overdue (BookingIn expired) (expired_row s.now)
        (λ b. record {
          id = refl;
          trip_id = refl;
          company_id = refl;
          booked_by_user_id = refl;
          total_amount = refl;
          version = refl;
          status = refl;
        })
        bs)

  seats_change :
      (ss : List SeatRow) (gone : List BookingRow)
      → Rewritten
          (of_gone gone)
          (SeatIn seat_released)
          ss
          (update (of_gone gone) (λ q. record q { status = seat_released; updated_at = s.now }) ss)
  seats_change ss gone =
      Rewritten-update (of_gone gone) (SeatIn seat_released) _
        (λ q. record {
          id = refl;
          trip_id = refl;
          booking_id = refl;
          passenger_id = refl;
          seat_number = refl;
          status = refl;
        })
        ss

  -- An expiry run returns the number of the company's bookings that are HELD or PENDING_PAYMENT and
  -- past their expiry; exactly these become EXPIRED, one version on, exactly their HELD seats become
  -- RELEASED, and all other bookings and seats are as they were. So are all payments, those of these
  -- bookings too.
  pub expire_effect :
      (db : Db)
      → let gone = select is_overdue db.bookings in
        let r = expire_within s company db in
        (r.0 ≡ ok (length gone))
        × Rewritten is_overdue (BookingIn expired) db.bookings r.1.bookings
        × Rewritten (of_gone gone) (SeatIn seat_released) db.seats r.1.seats
        × (r.1.payments ≡ db.payments)
  unfolding expire_within release_expired notation
  expire_effect db =
      let found = select (is_expirable s.now company none) db.bookings in
      let same : select is_overdue db.bookings ≡ found =
        ap (λ p. select p db.bookings) (sym overdue_rows) in
      let (es, e) =
        logged s company (length found) found (release_expired s.now company none db).1 in
      rw (e, same) (refl, rows_change db.bookings, seats_change db.seats found, refl)

  cleared :
      (bs : List BookingRow)
      → any
          (is_expirable s.now company none)
          (update (is_expirable s.now company none) (expired_row s.now) bs)
        ≡ false
  cleared bs =
      update_clears _ _ (expired_row s.now) (λ b e. e)
        (λ b e. expired_row-stays s.now s.now company none b) bs

  count_of :
      (db : Db)
      → ((expire_within s company db).0
          ≡ ok (length (select (is_expirable s.now company none) db.bookings)))
        × (any (is_expirable s.now company none) (expire_within s company db).1.bookings ≡ false)
  unfolding expire_within release_expired notation
  count_of db =
      let found = select (is_expirable s.now company none) db.bookings in
      let (es, e) =
        logged s company (length found) found (release_expired s.now company none db).1 in
      rw e (refl, cleared db.bookings)

  -- A second run right behind a first one returns 0: it finds no booking to expire.
  pub expire_again : (db : Db) → (expire_within s company (expire_within s company db).1).0 ≡ ok 0
  expire_again db =
      let once = (expire_within s company db).1 in
      (count_of once).0 ∙ ap (λ bs. ok (length bs)) (select_absent _ once.bookings (count_of db).1)
