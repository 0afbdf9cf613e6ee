-- ===== src/Payments/SameKeys.antt =====
-- The statements of a creation between its claim and its completion leave the keys alone.
use voyagi.Prelude.{ℕ, suc, zero, ◌+◌, Option, none, some, ◌≡◌, refl, ◌∙◌}
use voyagi.Store.Enums.{PaymentMethod, BookingEventType}
use voyagi.Store.Rows.{Db}
use voyagi.Store.Monad.{M}
use voyagi.Store.Keeps.{Keeps, IsPreorder, keeping, Keeps->>=}
use voyagi.Payments.Types.{PayableBooking, TransitionPaymentParams}
use voyagi.Payments.Repository.{
  insert_payment, insert_payment_cases, transition_payment, append_booking_event,
}
use voyagi.Payments.Service.{PaymentsService, allocate, or_next, initiate_online}
use voyagi.Payments.Webhook.Moves.{moved_cases}

abbrev pub SameKeys : Db → Db → Type 0
SameKeys a b = b.idempotency ≡ a.idempotency

pub SameKeys-preorder : IsPreorder SameKeys
SameKeys-preorder = record { same = λ a. refl; chain = λ a b c p q. q ∙ p }

inserts-SameKeys :
    (now b : ℕ) (m : PaymentMethod) (r : ℕ) → Keeps SameKeys (insert_payment now b m r)
inserts-SameKeys now b m r = record {
  kept = λ db. insert_payment_cases (SameKeys db) now b m r db refl (λ row _. refl);
}

moves-SameKeys :
    (now : ℕ) (params : TransitionPaymentParams) → Keeps SameKeys (transition_payment now params)
moves-SameKeys now params = record {
  kept =
      λ db. moved_cases (λ x. SameKeys db x.1) now params db (λ e. refl) (λ _. refl) (λ _ o. refl);
}

pub appends-SameKeys :
    (b c : ℕ) (a : Option ℕ) (t : BookingEventType) → Keeps SameKeys (append_booking_event b c a t)
unfolding append_booking_event
appends-SameKeys b c a t = record { kept = λ db. refl }

module _ (s : PaymentsService) where
  or_next-SameKeys :
      (o : Option ℕ) (r : ℕ) (rest : M (Option (ℕ × ℕ)))
      → Keeps SameKeys rest
      → Keeps SameKeys (or_next s o r rest)
  unfolding or_next
  or_next-SameKeys none r rest h = h
  or_next-SameKeys (some id) r rest h = search (keeping, SameKeys-preorder)

  pub allocate-SameKeys :
      (left attempt k : ℕ) (m : PaymentMethod) → Keeps SameKeys (allocate s left attempt k m)
  unfolding allocate
  allocate-SameKeys zero attempt k m = search (keeping, SameKeys-preorder)
  allocate-SameKeys (suc left) attempt k m =
      Keeps->>= SameKeys-preorder _ _ (inserts-SameKeys s.now k m (s.generate_reference attempt))
        λ o. or_next-SameKeys o _ _ (allocate-SameKeys left (attempt + 1) k m)

  pub initiate-SameKeys :
      (b : PayableBooking) (m : PaymentMethod) (p r : ℕ)
      → Keeps SameKeys (initiate_online s b m p r)
  unfolding initiate_online
  initiate-SameKeys b m p r = search (keeping, SameKeys-preorder, moves-SameKeys) depth 12
