-- ===== src/Payments/Webhook/Moves.antt =====
-- What a change of status and the statements behind it do to what an event finds.
use voyagi.Prelude.{
  any_found, ℕ, true, ◌&&◌, ◌==◌, List, [], ◌∷◌, Option, none, some, ◌≡◌, refl, arith, find, any,
  update, Bool-cases, Option-cases, inl, inr,
}
use voyagi.Store.Rows.{Db, BookingRow, PaymentRow, CommissionRow}
use voyagi.Store.Monad.{Error, Result, ok, err, M, pure, notation, continue, on_unique_result}
use voyagi.Store.Keeps.{Keeps, Keeps-if, Keeps-pure, keeping}
use voyagi.Payments.Types.{Payment, LockedPayment, TransitionPaymentParams}
use voyagi.Payments.Repository.{transition_payment, transitioned, payment_violation}
use voyagi.Payments.Service.{PaymentsService, audit_earned, after_success}
use voyagi.Payments.Evolution.{selected}
use voyagi.Payments.Quiet.{
  Quiet, Quiet-preorder, confirms-Quiet, appends-Quiet, earns-Quiet, audits-Quiet,
}

module _ (s : PaymentsService) where
  audit_earned-Quiet :
      (a : Option ℕ) (c : ℕ) (o : Option CommissionRow) → Keeps Quiet (audit_earned s a c o)
  unfolding audit_earned
  audit_earned-Quiet a c none = search (keeping, Quiet-preorder)
  audit_earned-Quiet a c (some r) =
      Keeps-if Quiet-preorder _ _ _ (audits-Quiet s a c _ _) (Keeps-pure Quiet-preorder tt)

  pub after_success-Quiet :
      (l : LockedPayment) (a : Option ℕ) (p : Payment) → Keeps Quiet (after_success s l a p)
  unfolding after_success
  after_success-Quiet l a p =
      search
        (
          keeping, Quiet-preorder, confirms-Quiet, appends-Quiet, earns-Quiet, audits-Quiet,
          audit_earned-Quiet,
        )
        depth 20

pub find-booking :
    (k : ℕ) (bs : List BookingRow)
    → any (λ b. b.id == k) bs ≡ true
    → (b : BookingRow) × (find (λ b. b.id == k && true) bs ≡ some b)
find-booking k [] h = absurd (cc)
find-booking k (b ∷ bs) h = elim (Bool-cases (b.id == k)) [
  | inl e ↦ (b, ground (arith, e))
  | inr e ↦ let (r, f) = find-booking k bs (ground (arith, e, h)) in (r, ground (arith, e, f))
]

pub booking-found :
    (k : ℕ) (bs : List BookingRow) (b : BookingRow)
    → find (λ b. b.id == k && true) bs ≡ some b
    → any (λ b. b.id == k) bs ≡ true
booking-found k [] b h = cc
booking-found k (c ∷ bs) b h = elim (Bool-cases (c.id == k)) [
  | inl e ↦ ground (arith, e)
  | inr e ↦ ground (arith, e, booking-found k bs b (ground (arith, e, h)))
]

module _ (params : TransitionPaymentParams) (now : ℕ) where
  pub found-moved :
      (r : ℕ) (ps : List PaymentRow) (p : PaymentRow)
      → find (λ q. q.internal_reference == r) ps ≡ some p
      → selected params p ≡ true
      → find
          (λ q. q.internal_reference == r)
          (update (selected params) (transitioned now params) ps)
        ≡ some (transitioned now params p)
  unfolding transitioned
  found-moved r [] p h e = cc
  found-moved r (q ∷ qs) p h e = elim (Bool-cases (q.internal_reference == r)) [
    | inl i ↦ ground (arith, i, e, h)
    | inr i ↦ ground (arith, i, found-moved r qs p (ground (arith, i, h)) e)
  ]

pub forgotten :
    (Q : Db → Type 0) (x : Result Payment × Db)
    → ((a : Payment) → x.0 ≡ ok a → Q x.1)
    → (continue (λ _. pure tt) x).0 ≡ ok tt
    → Q (continue (λ _. pure tt) x).1
unfolding notation
forgotten Q (ok a, db) q h = q a refl
forgotten Q (err x, db) q h = cc

pub selected-found :
    (params : TransitionPaymentParams) (r : ℕ) (ps : List PaymentRow) (p : PaymentRow)
    → find (λ q. q.internal_reference == r) ps ≡ some p
    → selected params p ≡ true
    → find (selected params) ps ≡ none
    → ⊥
selected-found params r [] p f h n = cc
selected-found params r (q ∷ qs) p f h n = elim (Bool-cases (q.internal_reference == r)) [
  | inl i ↦ ground (arith, i, f, h, n)
  | inr i ↦ selected-found params r qs p (ground (arith, i, f)) h (ground (arith, n))
]

-- A change of status that returns a payment has written it.
pub moved_cases {ℓ} :
    (P : Result (Option Payment) × Db → Type ℓ) (now : ℕ) (params : TransitionPaymentParams)
    (db : Db)
    → ((x : Error) → P (err x, db))
    → (find (selected params) db.payments ≡ none → P (ok none, db))
    → (any (selected params) db.payments ≡ true
        → (o : Option Payment)
        → P (
          ok o,
          record db { payments = update (selected params) (transitioned now params) db.payments },
        ))
    → P (transition_payment now params db)
unfolding transition_payment
moved_cases P now params db bad absent moved =
    elim (Option-cases (find (selected params) db.payments)) [
      | inl f ↦ rw (f, transition_payment) (absent f)
      | inr (old, f) ↦
          rw (f, transition_payment)
            (elim (Option-cases (payment_violation db old (transitioned now params old))) [
              | inr (x, v) ↦ rw v (bad x)
              | inl v ↦ rw v (moved (any_found (selected params) db.payments old f) _)
            ])
    ]

pub on_unique-throws :
    (f : Option Payment → M Payment) (e x : Error) (db : Db) (a : Payment)
    → (continue f (on_unique_result e (err x, db))).0 ≡ ok a
    → ⊥
unfolding continue
on_unique-throws f e x db a h = ground arith
