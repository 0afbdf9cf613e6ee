-- ===== src/Payments/Quiet.antt =====
-- The statements that write other tables leave the payments as they are.
use voyagi.Prelude.{
  ℕ, ◌≤◌, Bool, List, [], ◌∷◌, Option, none, some, ◌≡◌, refl, ◌∙◌, arith, any, update, ◌==◌,
}
use voyagi.Store.Enums.{BookingEventType}
use voyagi.Store.Rows.{Db, BookingRow, MembershipRow, CommissionRow, AuditAction}
use voyagi.Store.Keeps.{Keeps, IsPreorder}
use voyagi.Commissions.{
  create_eligible, apply_full_refund, insert_commission, insert_commissions, insert_for,
  returning_or_existing,
}
use voyagi.Payments.Repository.{
  claim_idempotency, complete_idempotency, confirm_booking_paid, append_booking_event,
}
use voyagi.Payments.Service.{PaymentsService, audit}

-- The foreign key of a payment finds its booking.
abbrev pub has_booking : ℕ → Db → Bool
has_booking k db = any (λ b. b.id == k) db.bookings

pub record Quiet (a b : Db) : Type 0 where
  pub payments : b.payments ≡ a.payments
  pub fresh : a.next_id ≤ b.next_id
  pub bookings : (k : ℕ) → has_booking k b ≡ has_booking k a

pub Quiet-preorder : IsPreorder Quiet
Quiet-preorder = record {
  same = λ a. record { payments = refl; fresh = omega arith; bookings = λ k. refl };
  chain = λ a b c p q. record {
    payments = q.payments ∙ p.payments;
    fresh = omega arith;
    bookings = λ k. q.bookings k ∙ p.bookings k;
  };
}

insert_commission-Quiet :
    (now : ℕ) (b : BookingRow) (m : MembershipRow) (db : Db)
    → Quiet db (insert_commission now b m db).1
unfolding insert_commission
insert_commission-Quiet now b m db = ground arith

insert_commissions-Quiet :
    (now : ℕ) (b : BookingRow) (ms : List MembershipRow) (db : Db)
    → Quiet db (insert_commissions now b ms db).1
unfolding insert_commissions
insert_commissions-Quiet now b [] db = record {
  payments = refl;
  fresh = omega arith;
  bookings = λ k. refl;
}
insert_commissions-Quiet now b (m ∷ ms) db =
    Quiet-preorder.chain db (insert_commission now b m db).1 _ (insert_commission-Quiet now b m db)
      (insert_commissions-Quiet now b ms (insert_commission now b m db).1)

pub claims-Quiet : (now c a k f : ℕ) → Keeps Quiet (claim_idempotency now c a k f)
unfolding claim_idempotency
claims-Quiet now c a k f = record { kept = λ db. ground arith }

pub completes-Quiet : (now c a k b p : ℕ) → Keeps Quiet (complete_idempotency now c a k b p)
unfolding complete_idempotency
completes-Quiet now c a k b p = record {
  kept = λ db. record { payments = refl; fresh = omega arith; bookings = λ k. refl };
}

any-id-update :
    (k : ℕ) (p : BookingRow → Bool) (f : BookingRow → BookingRow)
    → ((b : BookingRow) → (f b).id ≡ b.id)
    → (bs : List BookingRow) → any (λ b. b.id == k) (update p f bs) ≡ any (λ b. b.id == k) bs
any-id-update k p f h [] = refl
any-id-update k p f h (b ∷ bs) = ground (arith, any-id-update k p f h bs, h b)

pub confirms-Quiet : (now b : ℕ) → Keeps Quiet (confirm_booking_paid now b)
unfolding confirm_booking_paid
confirms-Quiet now b = record {
  kept = λ db. record {
    payments = refl;
    fresh = omega arith;
    bookings = λ k. any-id-update k _ _ (λ r. refl) db.bookings;
  };
}

pub appends-Quiet :
    (b c : ℕ) (a : Option ℕ) (t : BookingEventType) → Keeps Quiet (append_booking_event b c a t)
unfolding append_booking_event
appends-Quiet b c a t = record {
  kept = λ db. record { payments = refl; fresh = omega arith; bookings = λ k. refl };
}

pub reverses-Quiet : (now b c : ℕ) → Keeps Quiet (apply_full_refund now b c)
unfolding apply_full_refund
reverses-Quiet now b c = record {
  kept = λ db. record { payments = refl; fresh = omega arith; bookings = λ k. refl };
}

pub audits-Quiet :
    (s : PaymentsService) (a : Option ℕ) (c : ℕ) (t : AuditAction) (e : ℕ)
    → Keeps Quiet (audit s a c t e)
unfolding audit
audits-Quiet s a c t e = record { kept = λ db. ground arith }

insert_for-Quiet : (now : ℕ) (o : Option BookingRow) (db : Db) → Quiet db (insert_for now o db).1
unfolding insert_for
insert_for-Quiet now none db = record { payments = refl; fresh = omega arith; bookings = λ k. refl }
insert_for-Quiet now (some b) db = insert_commissions-Quiet now b db.memberships db

returning-db : (b c : ℕ) (x : Option CommissionRow × Db) → (returning_or_existing b c x).1 ≡ x.1
returning-db b c (none, db) = refl
returning-db b c (some r, db) = refl

pub earns-Quiet : (now b c : ℕ) → Keeps Quiet (create_eligible now b c)
unfolding create_eligible
earns-Quiet now b c = record { kept = λ db. rw (returning-db b c _) (insert_for-Quiet now _ db) }
