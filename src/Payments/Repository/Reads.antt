-- ===== src/Payments/Repository/Reads.antt =====
-- postgres-payments.repository.ts: the queries, and the clauses over the bookings that a caller
-- reaches.
use voyagi.Prelude.{
  ℕ, Bool, ◌&&◌, List, [], ◌∷◌, Option, none, some, any, find, ◌==◌, is_some_of, if◌then◌else◌,
}
use voyagi.Identity.Access.{Membership}
use voyagi.Identity.Scope.{AccessScope, in_scope}
use voyagi.Store.Enums.{is_online_channel}
use voyagi.Store.Rows.{Db, BookingRow, PaymentRow, MembershipRow}
use voyagi.Payments.Types.{PayableBooking, Payment, LockedPayment}

abbrev pub find_booking : ℕ → Db → Option BookingRow
find_booking id db = find (λ b. b.id == id) db.bookings

abbrev memberships_of : ℕ → ℕ → List MembershipRow → List Membership
memberships_of user company [] = []
memberships_of user company (m ∷ ms) =
    if m.membership.user_id == user && m.membership.company_id == company && m.membership.is_active
    then m.membership ∷ memberships_of user company ms
    else memberships_of user company ms

pub find_memberships : ℕ → ℕ → Db → List Membership
find_memberships user company db = memberships_of user company db.memberships

-- The `WHERE` clauses over the booking: the owner's, and the company's within a scope.
abbrev pub owned_by : ℕ → BookingRow → Bool
owned_by user b = is_some_of b.booked_by_user_id user && is_online_channel b.booking_channel

abbrev pub company_visible : ℕ → AccessScope → BookingRow → Bool
company_visible company scope b = b.company_id == company && in_scope scope b.branch_id

abbrev pub to_payable : BookingRow → PayableBooking
to_payable b = record {
  booking_id = b.id;
  company_id = b.company_id;
  branch_id = b.branch_id;
  booked_by_user_id = b.booked_by_user_id;
  booking_channel = b.booking_channel;
  status = b.status;
  total_amount = b.total_amount;
  currency = b.currency;
  expires_at = b.expires_at;
}

-- `findPayable`, for one of the two clauses.
unfoldable pub find_payable : (BookingRow → Bool) → ℕ → Db → Option PayableBooking
find_payable where_ booking_id db = elim (find (λ b. b.id == booking_id && where_ b) db.bookings) [
  | none ↦ none
  | some b ↦ some (to_payable b)
]

abbrev pub with_company : Db → PaymentRow → Option Payment
with_company db p = elim (find_booking p.booking_id db) [
  | none ↦ none
  | some b ↦ some (record { row = p; company_id = b.company_id })
]

-- `findOne`, for a clause over the booking that the payment joins.
unfoldable pub find_payment : (BookingRow → Bool) → ℕ → Db → Option Payment
find_payment where_ payment_id db =
    elim (find (λ p. p.id == payment_id && any (λ b. b.id == p.booking_id && where_ b) db.bookings)
      db.payments) [ none ↦ none | some p ↦ with_company db p ]

abbrev pub to_locked : PaymentRow → BookingRow → LockedPayment
to_locked p b = record {
  id = p.id;
  booking_id = p.booking_id;
  company_id = b.company_id;
  branch_id = b.branch_id;
  booked_by_user_id = b.booked_by_user_id;
  booking_channel = b.booking_channel;
  method = p.method;
  status = p.status;
  amount = p.amount;
  currency = p.currency;
  provider_reference = p.provider_reference;
  internal_reference = p.internal_reference;
}

-- `lock`: the payment that a clause selects, joined with its booking.
unfoldable pub lock_payment : (PaymentRow → Bool) → (BookingRow → Bool) → Db → Option LockedPayment
lock_payment of_payment of_booking db = elim (find of_payment db.payments) [
  | none ↦ none
  | some p ↦ elim (find (λ b. b.id == p.booking_id && of_booking b) db.bookings) [
    | none ↦ none
    | some b ↦ some (to_locked p b)
  ]
]
