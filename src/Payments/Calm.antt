-- ===== src/Payments/Calm.antt =====
-- What a settlement does behind `confirmBookingPaid` leaves bookings, seats and payments alone.
use voyagi.Prelude.{ℕ, List, [], ◌∷◌, Option, none, some, ◌≡◌, refl, ◌∙◌, arith}
use voyagi.Store.Enums.{BookingEventType, payment_confirmed}
use voyagi.Store.Rows.{Db, BookingRow, MembershipRow, CommissionRow, AuditAction, payment_succeeded}
use voyagi.Store.Monad.{M, pure, ◌>>=◌, ◌>>◌, notation}
use voyagi.Store.Keeps.{Keeps, IsPreorder, Keeps-if, Keeps-pure, keeping}
use voyagi.Audit.{append_audit}
use voyagi.Commissions.{
  create_eligible, insert_commission, insert_commissions, insert_for, returning_or_existing,
}
use voyagi.Payments.Types.{Payment, LockedPayment}
use voyagi.Payments.Repository.{confirm_booking_paid, append_booking_event}
use voyagi.Payments.Service.{PaymentsService, audit, audit_earned, after_success}

-- The bookings, the seats and the payments are as they were.
pub record Calm (a b : Db) : Type 0 where
  pub bookings : b.bookings ≡ a.bookings
  pub seats : b.seats ≡ a.seats
  pub payments : b.payments ≡ a.payments

Calm-refl : (a : Db) → Calm a a
Calm-refl a = record { bookings = refl; seats = refl; payments = refl }

Calm-trans : (a b c : Db) → Calm a b → Calm b c → Calm a c
Calm-trans a b c p q = record {
  bookings = q.bookings ∙ p.bookings;
  seats = q.seats ∙ p.seats;
  payments = q.payments ∙ p.payments;
}

Calm-preorder : IsPreorder Calm
Calm-preorder = record { same = Calm-refl; chain = Calm-trans }

insert_commission-Calm :
    (now : ℕ) (b : BookingRow) (m : MembershipRow) (db : Db)
    → Calm db (insert_commission now b m db).1
unfolding insert_commission
insert_commission-Calm now b m db = ground arith

insert_commissions-Calm :
    (now : ℕ) (b : BookingRow) (ms : List MembershipRow) (db : Db)
    → Calm db (insert_commissions now b ms db).1
unfolding insert_commissions
insert_commissions-Calm now b [] db = Calm-refl db
insert_commissions-Calm now b (m ∷ ms) db =
    Calm-trans db (insert_commission now b m db).1 _ (insert_commission-Calm now b m db)
      (insert_commissions-Calm now b ms (insert_commission now b m db).1)

insert_for-Calm : (now : ℕ) (o : Option BookingRow) (db : Db) → Calm db (insert_for now o db).1
unfolding insert_for
insert_for-Calm now none db = Calm-refl db
insert_for-Calm now (some b) db = insert_commissions-Calm now b db.memberships db

returned-db : (b c : ℕ) (x : Option CommissionRow × Db) → (returning_or_existing b c x).1 ≡ x.1
returned-db b c (none, db) = refl
returned-db b c (some r, db) = refl

earns-Calm : (now b c : ℕ) → Keeps Calm (create_eligible now b c)
unfolding create_eligible
earns-Calm now b c = record { kept = λ db. rw (returned-db b c _) (insert_for-Calm now _ db) }

appends-Calm :
    (b c : ℕ) (a : Option ℕ) (t : BookingEventType) → Keeps Calm (append_booking_event b c a t)
unfolding append_booking_event
appends-Calm b c a t = record {
  kept = λ db. record { bookings = refl; seats = refl; payments = refl };
}

module _ (s : PaymentsService) where
  audits-Calm : (a : Option ℕ) (c : ℕ) (t : AuditAction) (e : ℕ) → Keeps Calm (audit s a c t e)
  unfolding audit append_audit
  audits-Calm a c t e = record { kept = λ db. ground arith }

  audit_earned-Calm :
      (a : Option ℕ) (c : ℕ) (o : Option CommissionRow) → Keeps Calm (audit_earned s a c o)
  unfolding audit_earned
  audit_earned-Calm a c none = search (keeping, Calm-preorder)
  audit_earned-Calm a c (some r) =
      Keeps-if Calm-preorder _ _ _ (audits-Calm a c _ _) (Keeps-pure Calm-preorder tt)

  -- What `settle` calls behind `confirmBookingPaid`.
  abbrev recorded : LockedPayment → Option ℕ → Payment → M Payment
  recorded locked actor done =
      append_booking_event locked.booking_id locked.company_id actor payment_confirmed
      >> (create_eligible s.now locked.booking_id locked.company_id >>= λ commission.
          audit s actor locked.company_id payment_succeeded done.row.id
          >> (audit_earned s actor locked.company_id commission >> pure done))

  recorded-Calm : (l : LockedPayment) (a : Option ℕ) (p : Payment) → Keeps Calm (recorded l a p)
  recorded-Calm l a p =
      search (keeping, Calm-preorder, appends-Calm, earns-Calm, audits-Calm, audit_earned-Calm)
        depth 20

  -- The booking of a settled payment, where the seats and the bookings are those of `b`.
  pub after_success-Calm :
      (l : LockedPayment) (a : Option ℕ) (p : Payment) (db : Db)
      → Calm (confirm_booking_paid s.now l.booking_id db).1 (after_success s l a p db).1
  unfolding after_success notation confirm_booking_paid
  after_success-Calm l a p db = (recorded-Calm l a p).kept _
