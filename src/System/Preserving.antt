-- ===== src/System/Preserving.antt =====
-- What keeps a database sound: a statement of one service keeps its own rows and leaves the others'.
use voyagi.Prelude.{
  ℕ, ◌≤◌, Bool, true, false, List, [], ◌∷◌, Option, ◌≡◌, refl, arith, any, all, ltb, select, ◌&&◌,
  ◌==◌,
}
use voyagi.Store.Enums.{
  is_held_seat, is_payable_status, seat_confirmed, seat_checked_in, seat_cancelled, seat_released,
  BookingEventType,
}
use voyagi.Store.Rows.{Db, TicketRow, AuditAction}
use voyagi.Store.Monad.{M}
use voyagi.Store.Keeps.{Keeps, IsPreorder}
use voyagi.Audit.{append_audit}
use voyagi.Payments.Repository.{confirm_booking_paid, append_booking_event}
use voyagi.Payments.Single.{IdsBelow-mono}
use voyagi.Payments.Single as PaymentRows
use voyagi.Payments.Settlement as Settlement
use voyagi.Payments.Quiet.{confirms-Quiet}
use voyagi.Tickets.Unique as TicketRows
use voyagi.Trips.Schedule.{IsScheduled}
use voyagi.Trips.Timetable as TripRows
use voyagi.Store.Network.{TripRow}
use voyagi.Tickets.Repository.{check_in_seat, is_confirmed_seat}
use voyagi.Bookings.Repository.{release_booking_seats, release_expired, is_releasable, is_expirable}
use voyagi.Bookings.Seats.{TakenOnce, TakenOnce-status}
use voyagi.System.Apart.{Apart, appends-Apart, audits-Apart, Abroad, Aside, Around}

pub record IsSound (db : Db) : Type 0 where
  pub payments : PaymentRows.IsValid db
  pub tickets : TicketRows.IsValid db
  pub seats : TakenOnce db.seats
  pub schedule : IsScheduled db

abbrev pub Preserves : Db → Db → Type 0
Preserves a b = IsSound a → IsSound b

all-below_mono :
    (m n : ℕ) (ts : List TicketRow)
    → m ≤ n
    → all (λ t. ltb t.id m) ts ≡ true
    → all (λ t. ltb t.id n) ts ≡ true
all-below_mono m n [] l h = refl
all-below_mono m n (t ∷ ts) l h = ground (arith, all-below_mono m n ts l)

all_trips-below_mono :
    (m n : ℕ) (ts : List TripRow)
    → m ≤ n
    → all (λ t. ltb t.id m) ts ≡ true
    → all (λ t. ltb t.id n) ts ≡ true
all_trips-below_mono m n [] l h = refl
all_trips-below_mono m n (t ∷ ts) l h = ground (arith, all_trips-below_mono m n ts l)

same_payments :
    (a b : Db)
    → b.payments ≡ a.payments
    → a.next_id ≤ b.next_id
    → PaymentRows.IsValid a
    → PaymentRows.IsValid b
same_payments a b e f v = record {
  distinct = rw e v.distinct;
  once = rw e v.once;
  below = rw e (IdsBelow-mono a.payments f v.below);
}

same_tickets :
    (a b : Db)
    → b.tickets ≡ a.tickets
    → a.next_id ≤ b.next_id
    → TicketRows.IsValid a
    → TicketRows.IsValid b
same_tickets a b e f v = record {
  distinct = rw e v.distinct;
  consistent = rw e v.consistent;
  below = rw e (all-below_mono a.next_id b.next_id a.tickets f v.below);
}

pub same_seats : (a b : Db) → b.seats ≡ a.seats → TakenOnce a.seats → TakenOnce b.seats
same_seats a b e h = rw e h

same_trips : (a b : Db) → b.trips ≡ a.trips → a.next_id ≤ b.next_id → IsScheduled a → IsScheduled b
same_trips a b e f v = record {
  apart = rw e v.apart;
  timed = rw e v.timed;
  below = rw e (all_trips-below_mono a.next_id b.next_id a.trips f v.below);
}

-- What a service keeps of its own rows, and the others' by standing apart.
pub from_payments :
    {A : Type 0} (m : M A) → Keeps Settlement.Preserves m → Keeps Apart m → Keeps Preserves m
from_payments m own k = record {
  kept = λ db v.
      let q = k.kept db in
      record {
        payments = own.kept db v.payments;
        tickets = same_tickets db (m db).1 q.tickets q.fresh v.tickets;
        seats = same_seats db (m db).1 q.seats v.seats;
        schedule = same_trips db (m db).1 q.trips q.fresh v.schedule;
      };
}

pub from_bookings :
    {A : Type 0} (m : M A)
    → Keeps Aside m
    → ((db : Db) → TakenOnce db.seats → TakenOnce (m db).1.seats)
    → Keeps Preserves m
from_bookings m k own = record {
  kept = λ db v.
      let q = k.kept db in
      record {
        payments = same_payments db (m db).1 q.payments q.fresh v.payments;
        tickets = same_tickets db (m db).1 q.tickets q.fresh v.tickets;
        seats = own db v.seats;
        schedule = same_trips db (m db).1 q.trips q.fresh v.schedule;
      };
}

pub from_tickets :
    {A : Type 0} (m : M A) → Keeps TicketRows.Preserves m → Keeps Around m → Keeps Preserves m
from_tickets m own k = record {
  kept = λ db v.
      let q = k.kept db in
      record {
        payments = same_payments db (m db).1 q.payments q.fresh v.payments;
        tickets = own.kept db v.tickets;
        seats = same_seats db (m db).1 q.seats v.seats;
        schedule = same_trips db (m db).1 q.trips q.fresh v.schedule;
      };
}

pub from_trips :
    {A : Type 0} (m : M A) → Keeps TripRows.Preserves m → Keeps Abroad m → Keeps Preserves m
from_trips m own k = record {
  kept = λ db v.
      let q = k.kept db in
      record {
        payments = same_payments db (m db).1 q.payments q.fresh v.payments;
        tickets = same_tickets db (m db).1 q.tickets q.fresh v.tickets;
        seats = same_seats db (m db).1 q.seats v.seats;
        schedule = own.kept db v.schedule;
      };
}

-- The updates of the seats.
pub confirms-Preserves : (now b : ℕ) → Keeps Preserves (confirm_booking_paid now b)
unfolding confirm_booking_paid
confirms-Preserves now b = record {
  kept = λ db v.
      let q = (confirms-Quiet now b).kept db in
      let found = any (λ r. r.id == b && is_payable_status r.status) db.bookings in
      record {
        payments = same_payments db (confirm_booking_paid now b db).1 q.payments q.fresh v.payments;
        tickets = same_tickets db (confirm_booking_paid now b db).1 refl q.fresh v.tickets;
        seats =
            TakenOnce-status (λ s. found && s.booking_id == b && is_held_seat s.status)
              seat_confirmed now db.seats (λ s h. ground arith) v.seats;
        schedule = same_trips db (confirm_booking_paid now b db).1 refl q.fresh v.schedule;
      };
}

pub check_in_seat-Preserves : (now q : ℕ) → Keeps Preserves (check_in_seat now q)
unfolding check_in_seat
check_in_seat-Preserves now q = record {
  kept = λ db v. record {
    payments = same_payments db (check_in_seat now q db).1 refl (omega arith) v.payments;
    tickets = same_tickets db (check_in_seat now q db).1 refl (omega arith) v.tickets;
    seats =
        TakenOnce-status (λ s. s.id == q && is_confirmed_seat s.status) seat_checked_in now db.seats
          (λ s h. ground arith) v.seats;
    schedule = same_trips db (check_in_seat now q db).1 refl (omega arith) v.schedule;
  };
}

pub releases-TakenOnce :
    (now b : ℕ) (db : Db) → TakenOnce db.seats → TakenOnce (release_booking_seats now b db).1.seats
unfolding release_booking_seats
releases-TakenOnce now b db h =
    TakenOnce-status (λ s. s.booking_id == b && is_releasable s.status) seat_cancelled now db.seats
      (λ s e. ground arith) h

pub expires-TakenOnce :
    (now c : ℕ) (t : Option ℕ) (db : Db)
    → TakenOnce db.seats
    → TakenOnce (release_expired now c t db).1.seats
unfolding release_expired
expires-TakenOnce now c t db h =
    let gone = select (is_expirable now c t) db.bookings in
    TakenOnce-status (λ s. any (λ b. s.booking_id == b.id) gone && is_held_seat s.status)
      seat_released now db.seats (λ s e. ground arith) h

pub Preserves-preorder : IsPreorder Preserves
Preserves-preorder = record { same = λ a v. v; chain = λ a b c p q v. q (p v) }

audits-payments :
    (bound : Bool) (a : Option ℕ) (c : ℕ) (t : AuditAction) (e : ℕ) (db : Db)
    → (append_audit bound a c t e db).1.payments ≡ db.payments
unfolding append_audit
audits-payments true a c t e db = refl
audits-payments false a c t e db = refl

pub appends-Preserves :
    (b c : ℕ) (a : Option ℕ) (t : BookingEventType) → Keeps Preserves (append_booking_event b c a t)
appends-Preserves b c a t =
    from_payments _ (Settlement.Preserves-Kept.appends b c a t) (appends-Apart b c a t)

pub audits-Preserves :
    (bound : Bool) (a : Option ℕ) (c : ℕ) (t : AuditAction) (e : ℕ)
    → Keeps Preserves (append_audit bound a c t e)
audits-Preserves bound a c t e = record {
  kept = λ db v.
      let q = (audits-Apart bound a c t e).kept db in
      record {
        payments =
            same_payments db (append_audit bound a c t e db).1 (audits-payments bound a c t e db)
              q.fresh v.payments;
        tickets = same_tickets db (append_audit bound a c t e db).1 q.tickets q.fresh v.tickets;
        seats = same_seats db (append_audit bound a c t e db).1 q.seats v.seats;
        schedule = same_trips db (append_audit bound a c t e db).1 q.trips q.fresh v.schedule;
      };
}
