-- ===== src/Payments/Settlement.antt =====
-- Whatever the calls, no booking is settled by two payments.
use voyagi.Prelude.{
  ℕ, true, false, List, [], ◌∷◌, none, ◌≡◌, arith, find, any, inl, inr, Option-cases,
}
use voyagi.Store.Enums.{is_settled}
use voyagi.Store.Rows.{Db, PaymentRow}
use voyagi.Store.Monad.{M}
use voyagi.Store.Keeps.{Keeps}
use voyagi.Payments.Types.{TransitionPaymentParams}
use voyagi.Payments.Repository.{transition_payment, transitioned, payment_violation}
use voyagi.Payments.Service.{PaymentsService}
use voyagi.Payments.Calls.{Call, serve, Kept, serve-kept}
use voyagi.Payments.Evolution.{history, selected}
use voyagi.Payments.Quiet.{
  Quiet, claims-Quiet, completes-Quiet, confirms-Quiet, appends-Quiet, earns-Quiet, reverses-Quiet,
  audits-Quiet,
}
use voyagi.Payments.Single.{
  IsValid, IdsBelow-mono, insert_payment-IsValid, SettledOnce-after, DistinctIds-after,
  IdsBelow-after, others,
}

-- The unique index on settled payments: a status that settles is written only where no other
-- payment settles the booking.
no_violation-others :
    (now : ℕ) (params : TransitionPaymentParams) (db : Db) (old : PaymentRow)
    → payment_violation db old (transitioned now params old) ≡ none
    → is_settled params.to ≡ true
    → any (others now params old) db.payments ≡ false
unfolding payment_violation others transitioned
no_violation-others now params db old h s = ground (arith, h, s)

transition_payment-IsValid :
    (now : ℕ) (params : TransitionPaymentParams) (db : Db)
    → IsValid db
    → IsValid (transition_payment now params db).1
unfolding transition_payment
transition_payment-IsValid now params db v =
    elim (Option-cases (find (selected params) db.payments)) [
      | inl e ↦ rw (e, transition_payment) v
      | inr (old, e) ↦
          rw (e, transition_payment)
            (elim (Option-cases (payment_violation db old (transitioned now params old))) [
              | inr (x, bad) ↦ rw bad v
              | inl good ↦ rw good (record {
                distinct = DistinctIds-after now params db.payments v.distinct;
                once =
                    SettledOnce-after now params old db.payments e v.distinct v.once
                      (no_violation-others now params db old good);
                below = IdsBelow-after now params db.next_id db.payments v.below;
              })
            ])
    ]

abbrev pub Preserves : Db → Db → Type 0
Preserves a b = IsValid a → IsValid b

quiet : {A : Type 0} (m : M A) → Keeps Quiet m → Keeps Preserves m
quiet m h = record {
  kept = λ db v.
      let q = h.kept db in
      record {
        distinct = rw q.payments v.distinct;
        once = rw q.payments v.once;
        below = rw q.payments (IdsBelow-mono db.payments q.fresh v.below);
      };
}

pub Preserves-Kept : Kept Preserves
Preserves-Kept = record {
  preorder = record { same = λ a v. v; chain = λ a b c p q v. q (p v) };
  claims = λ now c a k f. quiet _ (claims-Quiet now c a k f);
  completes = λ now c a k b p. quiet _ (completes-Quiet now c a k b p);
  inserts = λ now b m r. record { kept = insert_payment-IsValid now b m r };
  moves = λ now params h. record { kept = transition_payment-IsValid now params };
  confirms = λ now b. quiet _ (confirms-Quiet now b);
  appends = λ b c a t. quiet _ (appends-Quiet b c a t);
  earns = λ now b c. quiet _ (earns-Quiet now b c);
  reverses = λ now b c. quiet _ (reverses-Quiet now b c);
  audits = λ s a c t e. quiet _ (audits-Quiet s a c t e);
}

-- Where payments have distinct ids below the next one and no booking is settled by two of them,
-- this holds after any calls of the service, in any order, successful or not.
pub history-IsValid :
    (cs : List (PaymentsService × Call)) (db : Db) → IsValid db → IsValid (history cs db)
unfolding history
history-IsValid [] db v = v
history-IsValid ((s, c) ∷ cs) db v =
    history-IsValid cs (serve s c db).1 ((serve-kept Preserves-Kept s c).kept db v)
