-- ===== src/Payments/Repository/Inserts.antt =====
-- postgres-payments.repository.ts: `insertPayment`.
use voyagi.Prelude.{
  ℕ, ◌+◌, Bool, true, ◌&&◌, not, [], ◌∷◌, ◌++◌, Option, none, some, any, ◌==◌, ltb, if◌then◌else◌,
  ◌≡◌, Bool-cases, Option-cases, inl, inr,
}
use voyagi.Store.Enums.{PaymentMethod, pending, is_settled, is_payable_status}
use voyagi.Store.Rows.{Db, BookingRow, PaymentRow}
use voyagi.Store.Monad.{ok, M}
use voyagi.Payments.Repository.Reads.{find_booking}

-- A hold is open: `expires_at IS NULL OR expires_at > now()`.
abbrev pub is_unexpired : Option ℕ → ℕ → Bool
is_unexpired none now = true
is_unexpired (some t) now = ltb now t

abbrev pub new_payment : ℕ → ℕ → BookingRow → PaymentMethod → ℕ → PaymentRow
new_payment now id b method reference = record {
  id = id;
  booking_id = b.id;
  method = method;
  status = pending;
  amount = b.total_amount;
  currency = b.currency;
  provider_reference = none;
  internal_reference = reference;
  confirmed_by_user_id = none;
  paid_at = none;
  created_at = now;
  updated_at = now;
}

-- The `WHERE` clause of the insert, with its `ON CONFLICT (internal_reference) DO NOTHING`.
unfoldable pub is_insertable : ℕ → ℕ → Db → BookingRow → Bool
is_insertable now reference db b =
    is_payable_status b.status
    && is_unexpired b.expires_at now
    && not (any (λ p. p.booking_id == b.id && is_settled p.status) db.payments)
    && not (any (λ p. p.internal_reference == reference) db.payments)

abbrev pub with_payment : ℕ → PaymentMethod → ℕ → BookingRow → Db → Db
with_payment now method reference b db = record db {
  payments = db.payments ++ new_payment now db.next_id b method reference ∷ [];
  next_id = db.next_id + 1;
}

unfoldable pub insert_payment : ℕ → ℕ → PaymentMethod → ℕ → M (Option ℕ)
insert_payment now booking_id method reference db = elim (find_booking booking_id db) [
  | none ↦ (ok none, db)
  | some b ↦
      if is_insertable now reference db b
      then (ok (some db.next_id), with_payment now method reference b db)
      else (ok none, db)
]

-- An insert adds nothing, or the payment of an insertable booking.
pub insert_payment_cases {ℓ} :
    (P : Db → Type ℓ) (now booking_id : ℕ) (method : PaymentMethod) (reference : ℕ) (db : Db)
    → P db
    → ((b : BookingRow)
        → is_insertable now reference db b ≡ true
        → P (with_payment now method reference b db))
    → P (insert_payment now booking_id method reference db).1
unfolding insert_payment
insert_payment_cases P now booking_id method reference db same added =
    elim (Option-cases (find_booking booking_id db)) [
      | inl e ↦ rw (e, insert_payment) same
      | inr (b, e) ↦
          rw (e, insert_payment)
            (elim (Bool-cases (is_insertable now reference db b)) [
              | inl h ↦ rw h (added b h)
              | inr h ↦ rw h same
            ])
    ]
