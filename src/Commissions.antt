-- ===== src/Commissions.antt =====
-- modules/commissions/postgres-commissions.repository.ts: the commission of an agent's booking.
-- CommissionsService passes the two calls on as they are.
use voyagi.Prelude.{
  ℕ, ◌+◌, ◌*◌, ◌/◌, Bool, true, false, ◌&&◌, ◌||◌, not, List, [], ◌∷◌, ◌++◌, Option, none, some,
  any, find, update, ◌==◌, is_some_of, or_else, if◌then◌else◌,
}
use voyagi.Identity.Roles.{
  MembershipRole, super_admin, company_manager, branch_employee, agent, passenger,
}
use voyagi.Store.Enums.{
  confirmed, cancelled, partially_cancelled, is_booking, CommissionStatus, commission_pending,
  earned, paid, commission_cancelled, refunded, is_payment,
}
use voyagi.Store.Rows.{Db, BookingRow, MembershipRow, CommissionRow}
use voyagi.Store.Monad.{Result, ok, M}

abbrev pub is_agent : MembershipRole → Bool
is_agent super_admin = false
is_agent company_manager = false
is_agent branch_employee = false
is_agent agent = true
is_agent passenger = false

abbrev pub is_open_commission : CommissionStatus → Bool
is_open_commission commission_pending = true
is_open_commission earned = true
is_open_commission paid = false
is_open_commission commission_cancelled = false

abbrev pub is_paid_commission : CommissionStatus → Bool
is_paid_commission commission_pending = false
is_paid_commission earned = false
is_paid_commission paid = true
is_paid_commission commission_cancelled = false

-- `round(total_amount * commission_rate / 100, 2)`, halves away from zero, in hundredths.
unfoldable pub commission_amount_of : ℕ → ℕ → ℕ
commission_amount_of total rate = (2 * total * rate + 10000) / 20000

-- `JOIN company_memberships`: the active agent memberships of the booking's creator.
abbrev is_eligible_agent : BookingRow → MembershipRow → Bool
is_eligible_agent b m =
    m.membership.company_id == b.company_id
    && is_some_of b.booked_by_user_id m.membership.user_id
    && is_agent m.membership.role
    && m.membership.is_active

commission_of : ℕ → ℕ → BookingRow → MembershipRow → CommissionRow
commission_of now id b m = record {
  id = id;
  agent_membership_id = m.membership.id;
  booking_id = b.id;
  company_id = b.company_id;
  commission_rate = m.commission_rate;
  base_amount = b.total_amount;
  commission_amount = commission_amount_of b.total_amount m.commission_rate;
  currency = b.currency;
  status = earned;
  earned_at = some now;
  paid_at = none;
  cancelled_at = none;
  created_at = now;
  updated_at = now;
}

-- `INSERT … SELECT … ON CONFLICT (agent_membership_id, booking_id) DO NOTHING RETURNING`, for one
-- membership, and for each of them; the first row that it returns counts.
unfoldable pub insert_commission : ℕ → BookingRow → MembershipRow → Db → Option CommissionRow × Db
unfolding commission_of
insert_commission now b m db =
    if is_eligible_agent b m
      && not (
          any (λ c. c.agent_membership_id == m.membership.id && c.booking_id == b.id)
            db.commissions)
    then (
      some (commission_of now db.next_id b m),
      record db {
        commissions = db.commissions ++ commission_of now db.next_id b m ∷ [];
        next_id = db.next_id + 1;
      },
    )
    else (none, db)

unfoldable pub insert_commissions :
    ℕ → BookingRow → List MembershipRow → Db → Option CommissionRow × Db
insert_commissions now b [] db = (none, db)
insert_commissions now b (m ∷ ms) db =
    let (first, db') = insert_commission now b m db in
    let (later, db'') = insert_commissions now b ms db' in (or_else first later, db'')

-- The row of an earlier insert: its membership is an agent's, of the booking's creator.
abbrev is_existing : ℕ → ℕ → Db → CommissionRow → Bool
is_existing booking_id company_id db c =
    c.booking_id == booking_id
    && c.company_id == company_id
    && any
        (λ b.
          b.id == c.booking_id
          && b.company_id == c.company_id
          && any
              (λ m.
                m.membership.id == c.agent_membership_id
                && m.membership.company_id == c.company_id
                && is_some_of b.booked_by_user_id m.membership.user_id
                && is_agent m.membership.role)
              db.memberships)
        db.bookings

abbrev pub returning_or_existing :
    ℕ → ℕ → Option CommissionRow × Db → Result (Option CommissionRow) × Db
returning_or_existing booking_id company_id (some c, db) = (ok (some c), db)
returning_or_existing booking_id company_id (none, db) =
    (ok (find (is_existing booking_id company_id db) db.commissions), db)

unfoldable pub insert_for : ℕ → Option BookingRow → Db → Option CommissionRow × Db
insert_for now none db = (none, db)
insert_for now (some b) db = insert_commissions now b db.memberships db

unfoldable pub create_eligible : ℕ → ℕ → ℕ → M (Option CommissionRow)
unfolding insert_for insert_commissions
create_eligible now booking_id company_id db = returning_or_existing booking_id company_id (
    insert_for now
      (find (λ b. b.id == booking_id && b.company_id == company_id && is_booking b.status confirmed)
        db.bookings)
      db)

-- The two `EXISTS` of `applyFullRefund`.
abbrev refund_applies : ℕ → Db → CommissionRow → Bool
refund_applies company_id db c =
    any
      (λ b.
        b.id == c.booking_id
        && b.company_id == c.company_id
        && (is_booking b.status cancelled || is_booking b.status partially_cancelled))
      db.bookings
    && any (λ p. p.booking_id == c.booking_id && is_payment p.status refunded) db.payments

unfoldable pub apply_full_refund : ℕ → ℕ → ℕ → M (Option CommissionRow)
apply_full_refund now booking_id company_id db =
    let here = λ (c : CommissionRow).
      c.booking_id == booking_id && c.company_id == company_id && refund_applies company_id db c in
    let close = λ (c : CommissionRow). record c {
      status = commission_cancelled;
      cancelled_at = some now;
      updated_at = now;
    } in
    let changed = find (λ c. here c && is_open_commission c.status) db.commissions in
    let settled = find (λ c. here c && is_paid_commission c.status) db.commissions in
    (
      ok (elim changed [ some c ↦ some (close c) | none ↦ settled ]),
      record db {
        commissions = update (λ c. here c && is_open_commission c.status) close db.commissions;
      },
    )
