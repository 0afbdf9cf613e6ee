-- ===== src/Payments/Evolution.antt =====
-- What any calls can do to the payments that are there: each stays, with its money and its keys,
-- and its status moves along the matrix.
use voyagi.Prelude.{
  ℕ, Bool, true, List, [], ◌∷◌, ◌++◌, some, ◌≡◌, refl, subst, ◌∙◌, arith, find, update, ◌&&◌, ◌==◌,
  Bool-cases, inl, inr,
}
use voyagi.Store.Enums.{PaymentMethod, PaymentStatus, is_payment}
use voyagi.Store.Rows.{Db, PaymentRow}
use voyagi.Store.Monad.{M}
use voyagi.Store.Keeps.{Keeps}
use voyagi.Payments.Machine.{can_transition_payment, is_terminal_payment_status}
use voyagi.Payments.Types.{TransitionPaymentParams}
use voyagi.Payments.Repository.{
  insert_payment, insert_payment_cases, transition_payment, transitioned,
}
use voyagi.Payments.Service.{PaymentsService}
use voyagi.Payments.Calls.{Call, serve, Kept, serve-kept}
use voyagi.Payments.Quiet.{
  Quiet, claims-Quiet, completes-Quiet, confirms-Quiet, appends-Quiet, earns-Quiet, reverses-Quiet,
  audits-Quiet,
}

-- Zero or more changes of status that the matrix admits.
pub data Run (s : PaymentStatus) : PaymentStatus → Type 0 where
  stop : Run s s
  step : {t u : PaymentStatus} → Run s t → can_transition_payment t u ≡ true → Run s u

Run-trans : {s t u : PaymentStatus} → Run s t → Run t u → Run s u
Run-trans p stop = p
Run-trans p (step q h) = step (Run-trans p q) h

pub record Continues (p q : PaymentRow) : Type 0 where
  pub id : q.id ≡ p.id
  pub booking_id : q.booking_id ≡ p.booking_id
  pub method : q.method ≡ p.method
  pub amount : q.amount ≡ p.amount
  pub currency : q.currency ≡ p.currency
  pub internal_reference : q.internal_reference ≡ p.internal_reference
  pub run : Run p.status q.status

-- The later list continues the earlier one, row by row; rows may be new behind it.
abbrev pub Evolves : List PaymentRow → List PaymentRow → Type 0
Evolves [] qs = Unit
Evolves (p ∷ ps) [] = ⊥
Evolves (p ∷ ps) (q ∷ qs) = Continues p q × Evolves ps qs

Continues-refl : (p : PaymentRow) → Continues p p
Continues-refl p = record {
  id = refl;
  booking_id = refl;
  method = refl;
  amount = refl;
  currency = refl;
  internal_reference = refl;
  run = stop;
}

Continues-trans : (p q r : PaymentRow) → Continues p q → Continues q r → Continues p r
Continues-trans p q r a b = record {
  id = b.id ∙ a.id;
  booking_id = b.booking_id ∙ a.booking_id;
  method = b.method ∙ a.method;
  amount = b.amount ∙ a.amount;
  currency = b.currency ∙ a.currency;
  internal_reference = b.internal_reference ∙ a.internal_reference;
  run = Run-trans a.run b.run;
}

Evolves-refl : (ps : List PaymentRow) → Evolves ps ps
Evolves-refl [] = tt
Evolves-refl (p ∷ ps) = (Continues-refl p, Evolves-refl ps)

Evolves-trans : (ps qs rs : List PaymentRow) → Evolves ps qs → Evolves qs rs → Evolves ps rs
Evolves-trans [] qs rs a b = tt
Evolves-trans (p ∷ ps) [] rs a b = absurd a
Evolves-trans (p ∷ ps) (q ∷ qs) [] a b = absurd b
Evolves-trans (p ∷ ps) (q ∷ qs) (r ∷ rs) a b =
    (Continues-trans p q r a.0 b.0, Evolves-trans ps qs rs a.1 b.1)

Evolves-append : (ps qs : List PaymentRow) → Evolves ps (ps ++ qs)
Evolves-append [] qs = tt
Evolves-append (p ∷ ps) qs = (Continues-refl p, Evolves-append ps qs)

transitioned-Continues :
    (now : ℕ) (params : TransitionPaymentParams) (p : PaymentRow)
    → can_transition_payment params.from params.to ≡ true
    → p.status ≡ params.from
    → Continues p (transitioned now params p)
unfolding transitioned
transitioned-Continues now params p h e = record {
  id = refl;
  booking_id = refl;
  method = refl;
  amount = refl;
  currency = refl;
  internal_reference = refl;
  run = rw e (step stop h);
}

abbrev pub selected : TransitionPaymentParams → PaymentRow → Bool
selected params p = p.id == params.payment_id && is_payment p.status params.from

selected-status :
    (params : TransitionPaymentParams) (p : PaymentRow)
    → selected params p ≡ true
    → p.status ≡ params.from
selected-status params p h = ground arith

Evolves-update :
    (now : ℕ) (params : TransitionPaymentParams) (ps : List PaymentRow)
    → can_transition_payment params.from params.to ≡ true
    → Evolves ps (update (selected params) (transitioned now params) ps)
Evolves-update now params [] h = tt
Evolves-update now params (p ∷ ps) h = elim (Bool-cases (selected params p)) [
  | inl e ↦ rw e (
    transitioned-Continues now params p h (selected-status params p e),
    Evolves-update now params ps h,
  )
  | inr e ↦ rw e (Continues-refl p, Evolves-update now params ps h)
]

transition_payment-Evolves :
    (now : ℕ) (params : TransitionPaymentParams) (db : Db)
    → can_transition_payment params.from params.to ≡ true
    → Evolves db.payments (transition_payment now params db).1.payments
unfolding transition_payment
transition_payment-Evolves now params db h =
    ground (arith, Evolves-refl db.payments, Evolves-update now params db.payments h)

insert_payment-Evolves :
    (now b : ℕ) (m : PaymentMethod) (r : ℕ) (db : Db)
    → Evolves db.payments (insert_payment now b m r db).1.payments
insert_payment-Evolves now b m r db =
    insert_payment_cases (λ d. Evolves db.payments d.payments) now b m r db
      (Evolves-refl db.payments) (λ row _. Evolves-append db.payments _)

abbrev pub Evolution : Db → Db → Type 0
Evolution a b = Evolves a.payments b.payments

quiet : {A : Type 0} (m : M A) → Keeps Quiet m → Keeps Evolution m
quiet m h = record { kept = λ db. rw ((h.kept db).payments) (Evolves-refl db.payments) }

Evolution-Kept : Kept Evolution
Evolution-Kept = record {
  preorder = record {
    same = λ a. Evolves-refl a.payments;
    chain = λ a b c p q. Evolves-trans a.payments b.payments c.payments p q;
  };
  claims = λ now c a k f. quiet _ (claims-Quiet now c a k f);
  completes = λ now c a k b p. quiet _ (completes-Quiet now c a k b p);
  inserts = λ now b m r. record { kept = insert_payment-Evolves now b m r };
  moves = λ now params h. record { kept = λ db. transition_payment-Evolves now params db h };
  confirms = λ now b. quiet _ (confirms-Quiet now b);
  appends = λ b c a t. quiet _ (appends-Quiet b c a t);
  earns = λ now b c. quiet _ (earns-Quiet now b c);
  reverses = λ now b c. quiet _ (reverses-Quiet now b c);
  audits = λ s a c t e. quiet _ (audits-Quiet s a c t e);
}

-- Calls one after the other, each with the service's environment at its time.
unfoldable pub history : List (PaymentsService × Call) → Db → Db
history [] db = db
history ((s, c) ∷ cs) db = history cs (serve s c db).1

-- After any calls, successful or not, every payment is still there, in its place, with the same
-- id, booking, method, amount, currency and internal reference, and its status has moved along
-- `PAYMENT_TRANSITIONS`.
pub history-Evolves :
    (cs : List (PaymentsService × Call)) (db : Db) → Evolves db.payments (history cs db).payments
unfolding history
history-Evolves [] db = Evolves-refl db.payments
history-Evolves ((s, c) ∷ cs) db =
    Evolves-trans db.payments (serve s c db).1.payments _ ((serve-kept Evolution-Kept s c).kept db)
      (history-Evolves cs (serve s c db).1)

terminal_step :
    (t u : PaymentStatus)
    → is_terminal_payment_status t ≡ true
    → can_transition_payment t u ≡ true
    → ⊥
unfolding is_terminal_payment_status can_transition_payment
terminal_step t u h e = ground arith

-- A run from a terminal status stays there.
terminal-Run : {s t : PaymentStatus} → Run s t → is_terminal_payment_status s ≡ true → t ≡ s
terminal-Run stop h = refl
terminal-Run {s} (step {t} {u} r e) h = absurd (terminal_step t u (rw (terminal-Run r h) h) e)

find-Evolves :
    (k : ℕ) (ps qs : List PaymentRow) {p : PaymentRow}
    → Evolves ps qs
    → find (λ r. r.id == k) ps ≡ some p
    → (q : PaymentRow) × (find (λ r. r.id == k) qs ≡ some q) × Continues p q
find-Evolves k [] qs e h = cc
find-Evolves k (p ∷ ps) [] e h = absurd e
find-Evolves k (p ∷ ps) (q ∷ qs) (c, e) h = elim (Bool-cases (p.id == k)) [
  | inl here ↦ (q, ground (arith, c.id), subst (λ x. Continues x q) (ground arith) c)
  | inr later ↦
      let (r, f, d) = find-Evolves k ps qs e (ground arith) in (r, ground (arith, c.id), d)
]

-- A payment whose status has no transition (it has failed, was cancelled or was refunded, in full or
-- in part) keeps that status and its amount, whatever calls follow.
pub history_terminal :
    (cs : List (PaymentsService × Call)) (db : Db) (k : ℕ) {p : PaymentRow}
    → find (λ r. r.id == k) db.payments ≡ some p
    → is_terminal_payment_status p.status ≡ true
    → (q : PaymentRow) × (find (λ r. r.id == k) (history cs db).payments ≡ some q)
      × (q.status ≡ p.status)
      × (q.amount ≡ p.amount)
history_terminal cs db k h t =
    let (q, f, c) = find-Evolves k db.payments _ (history-Evolves cs db) h in
    (q, f, terminal-Run c.run t, c.amount)
