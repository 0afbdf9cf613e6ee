-- ===== src/Payments/Single.antt =====
-- At most one payment settles a booking, and payments have distinct ids.
use voyagi.Prelude.{
  ℕ, ◌+◌, ◌≤◌, ◌<◌, Bool, true, false, List, [], ◌∷◌, ◌++◌, some, ◌≡◌, refl, ◌∙◌, subst, arith,
  find, any, update, not, ◌&&◌, ◌==◌, Bool-cases, inl, inr,
}
use voyagi.Store.Enums.{PaymentMethod, is_settled, pending}
use voyagi.Store.Rows.{Db, PaymentRow}
use voyagi.Payments.Types.{TransitionPaymentParams}
use voyagi.Payments.Repository.{insert_payment, insert_payment_cases, transitioned, new_payment}
use voyagi.Payments.Evolution.{selected}

abbrev pub settles : ℕ → PaymentRow → Bool
settles booking p = p.booking_id == booking && is_settled p.status

abbrev pub DistinctIds : List PaymentRow → Type 0
DistinctIds [] = Unit {0}
DistinctIds (p ∷ ps) = (any (λ q. q.id == p.id) ps ≡ false) × DistinctIds ps

-- No two payments settle one booking.
abbrev pub SettledOnce : List PaymentRow → Type 0
SettledOnce [] = Unit {0}
SettledOnce (p ∷ ps) =
    ((is_settled p.status && any (settles p.booking_id) ps) ≡ false) × SettledOnce ps

abbrev pub IdsBelow : ℕ → List PaymentRow → Type 0
IdsBelow n [] = Unit {0}
IdsBelow n (p ∷ ps) = (p.id < n) × IdsBelow n ps

pub record IsValid (db : Db) : Type 0 where
  pub distinct : DistinctIds db.payments
  pub once : SettledOnce db.payments
  pub below : IdsBelow db.next_id db.payments

pub IdsBelow-mono : {m n : ℕ} (ps : List PaymentRow) → m ≤ n → IdsBelow m ps → IdsBelow n ps
IdsBelow-mono [] h b = tt
IdsBelow-mono (p ∷ ps) h b = (omega arith, IdsBelow-mono ps h b.1)

any-id_below : (n : ℕ) (ps : List PaymentRow) → IdsBelow n ps → any (λ q. q.id == n) ps ≡ false
any-id_below n [] b = refl
any-id_below n (p ∷ ps) b = ground (arith, any-id_below n ps b.1)

-- A new payment: its id is fresh and it settles nothing.
module _ (new : PaymentRow) (unsettled : is_settled new.status ≡ false) where
  any-settles-append :
      (b : ℕ) (ps : List PaymentRow) → any (settles b) (ps ++ new ∷ []) ≡ any (settles b) ps
  any-settles-append b [] = ground arith
  any-settles-append b (p ∷ ps) = ground (arith, any-settles-append b ps)

  any-id-append :
      (k : ℕ) (ps : List PaymentRow)
      → (k ≡ new.id → ⊥)
      → any (λ q. q.id == k) (ps ++ new ∷ []) ≡ any (λ q. q.id == k) ps
  any-id-append k [] h = ground arith
  any-id-append k (p ∷ ps) h = ground (arith, any-id-append k ps h)

  SettledOnce-append : (ps : List PaymentRow) → SettledOnce ps → SettledOnce (ps ++ new ∷ [])
  SettledOnce-append [] h = (ground arith, tt)
  SettledOnce-append (p ∷ ps) h =
      (ground (arith, any-settles-append p.booking_id ps), SettledOnce-append ps h.1)

  DistinctIds-append :
      (ps : List PaymentRow) → IdsBelow new.id ps → DistinctIds ps → DistinctIds (ps ++ new ∷ [])
  DistinctIds-append [] b h = (refl, tt)
  DistinctIds-append (p ∷ ps) b h =
      (any-id-append p.id ps (λ e. omega arith) ∙ h.0, DistinctIds-append ps b.1 h.1)

  IdsBelow-append :
      (ps : List PaymentRow) → IdsBelow new.id ps → IdsBelow (new.id + 1) (ps ++ new ∷ [])
  IdsBelow-append [] b = (omega arith, tt)
  IdsBelow-append (p ∷ ps) b = (omega arith, IdsBelow-append ps b.1)

pending_unsettled : is_settled pending ≡ false
unfolding is_settled
pending_unsettled = refl

pub insert_payment-IsValid :
    (now b : ℕ) (m : PaymentMethod) (r : ℕ) (db : Db)
    → IsValid db
    → IsValid (insert_payment now b m r db).1
insert_payment-IsValid now b m r db v = insert_payment_cases IsValid now b m r db v λ row _.
    let new = new_payment now db.next_id row m r in
    record {
      distinct = DistinctIds-append new pending_unsettled db.payments v.below v.distinct;
      once = SettledOnce-append new pending_unsettled db.payments v.once;
      below = IdsBelow-append new pending_unsettled db.payments v.below;
    }

-- A change of status: of the one payment that is selected.
module _ (now : ℕ) (params : TransitionPaymentParams) where
  abbrev moved : PaymentRow → PaymentRow
  moved = transitioned now params

  abbrev after : List PaymentRow → List PaymentRow
  after = update (selected params) moved

  found-selected :
      (ps : List PaymentRow) {old : PaymentRow}
      → find (selected params) ps ≡ some old
      → selected params old ≡ true
  found-selected [] h = cc
  found-selected (p ∷ ps) h = elim (Bool-cases (selected params p)) [
    | inl e ↦ ground (arith, e)
    | inr e ↦ found-selected ps (rw e at h)
  ]

  found-here :
      (p : PaymentRow) (ps : List PaymentRow) {old : PaymentRow}
      → selected params p ≡ true
      → find (selected params) (p ∷ ps) ≡ some old
      → old ≡ p
  found-here p ps e f = ground (arith, e, f)

  any-id-found :
      (ps : List PaymentRow) {old : PaymentRow}
      → find (selected params) ps ≡ some old
      → any (λ q. q.id == params.payment_id) ps ≡ true
  any-id-found [] h = cc
  any-id-found (p ∷ ps) h = elim (Bool-cases (selected params p)) [
    | inl e ↦ ground (arith, e)
    | inr e ↦ ground (arith, any-id-found ps (rw e at h))
  ]

  any-id-after :
      (k : ℕ) (ps : List PaymentRow) → any (λ q. q.id == k) (after ps) ≡ any (λ q. q.id == k) ps
  unfolding transitioned
  any-id-after k [] = refl
  any-id-after k (p ∷ ps) = ground (arith, any-id-after k ps)

  after_absent :
      (ps : List PaymentRow) → any (λ q. q.id == params.payment_id) ps ≡ false → after ps ≡ ps
  after_absent [] h = refl
  after_absent (p ∷ ps) h = ground (arith, after_absent ps)

  pub DistinctIds-after : (ps : List PaymentRow) → DistinctIds ps → DistinctIds (after ps)
  unfolding transitioned
  DistinctIds-after [] d = tt
  DistinctIds-after (p ∷ ps) d =
      (ground (arith, any-id-after p.id ps, d.0), DistinctIds-after ps d.1)

  pub IdsBelow-after : (n : ℕ) (ps : List PaymentRow) → IdsBelow n ps → IdsBelow n (after ps)
  unfolding transitioned
  IdsBelow-after n [] b = tt
  IdsBelow-after n (p ∷ ps) b = (ground arith, IdsBelow-after n ps b.1)

  any-settles-after :
      (b : ℕ) (old : PaymentRow) (ps : List PaymentRow)
      → find (selected params) ps ≡ some old
      → DistinctIds ps
      → (is_settled params.to && old.booking_id == b) ≡ false
      → any (settles b) ps ≡ false
      → any (settles b) (after ps) ≡ false
  unfolding transitioned
  any-settles-after b old [] f d h n = cc
  any-settles-after b old (p ∷ ps) f d h n = elim (Bool-cases (selected params p)) [
    | inl e ↦ ground (arith, after_absent ps, d.0)
    | inr e ↦ ground (arith, any-settles-after b old ps (rw e at f) d.1 h)
  ]

  unfoldable pub others : PaymentRow → PaymentRow → Bool
  others old q = not (q.id == old.id) && settles old.booking_id q

  -- Nobody else settles the booking: so among the rows with other ids there is none that does.
  any-settles_absent :
      (old : PaymentRow) (ps : List PaymentRow)
      → any (others old) ps ≡ false
      → any (λ q. q.id == old.id) ps ≡ false
      → any (settles old.booking_id) ps ≡ false
  unfolding others
  any-settles_absent old [] h n = refl
  any-settles_absent old (p ∷ ps) h n = ground (arith, any-settles_absent old ps)

  SettledOnce-here :
      (p : PaymentRow) (ps : List PaymentRow)
      → selected params p ≡ true
      → DistinctIds (p ∷ ps)
      → SettledOnce (p ∷ ps)
      → (is_settled params.to ≡ true → any (others p) (p ∷ ps) ≡ false)
      → SettledOnce (after (p ∷ ps))
  unfolding transitioned others
  SettledOnce-here p ps e d o h =
      let same = after_absent ps (ground (arith, d.0)) in
      rw (e, same)
        (
          elim (Bool-cases (is_settled params.to)) [
            | inl s ↦ ground (arith, any-settles_absent p ps (ground (arith, h s)) d.0)
            | inr s ↦ ground (arith, s)
          ],
          o.1,
        )

  pub SettledOnce-after :
      (old : PaymentRow) (ps : List PaymentRow)
      → find (selected params) ps ≡ some old
      → DistinctIds ps
      → SettledOnce ps
      → (is_settled params.to ≡ true → any (others old) ps ≡ false)
      → SettledOnce (after ps)
  unfolding others
  SettledOnce-after old [] f d o h = tt
  SettledOnce-after old (p ∷ ps) f d o h = elim (Bool-cases (selected params p)) [
    | inl e ↦
        SettledOnce-here p ps e d o
          (λ s. subst (λ x. any (others x) (p ∷ ps) ≡ false) (found-here p ps e f) (h s))
    | inr e ↦
        let g = rw e at f in
        let other = any-id-found ps g in
        let same = found-selected ps g in
        rw e (
          elim (Bool-cases (is_settled p.status)) [
            | inr s ↦ ground (arith, s)
            | inl s ↦ ground (
              arith,
              s,
              o.0,
              any-settles-after p.booking_id old ps g d.1
                  (elim (Bool-cases (is_settled params.to)) [
                    | inr t ↦ ground (arith, t)
                    | inl t ↦ ground (arith, h t, d.0)
                  ]),
            )
          ],
          SettledOnce-after old ps g d.1 o.1 (λ s. ground (arith, h s)),
        )
  ]
