-- ===== src/Payments/Machine.antt =====
-- modules/payments/payment-transitions.ts, and the trigger `enforce_payment_transition` of
-- supabase/migrations/20260722160000_016_payments_tickets_engine.sql that mirrors it.
use voyagi.Prelude.{◌≡◌, Bool, true, false, ◌&&◌, ◌||◌, List, [], ◌∷◌, any, arith}
use voyagi.Store.Enums.{
  PaymentStatus, pending, processing, succeeded, failed, payment_cancelled, partially_refunded,
  refunded, is_payment,
}

unfoldable pub payment_transitions : PaymentStatus → List PaymentStatus
payment_transitions pending = processing ∷ succeeded ∷ payment_cancelled ∷ []
payment_transitions processing = succeeded ∷ failed ∷ payment_cancelled ∷ []
payment_transitions succeeded = refunded ∷ []
payment_transitions partially_refunded = []
payment_transitions failed = []
payment_transitions payment_cancelled = []
payment_transitions refunded = []

unfoldable pub can_transition_payment : PaymentStatus → PaymentStatus → Bool
unfolding payment_transitions
can_transition_payment from to = any (λ s. is_payment s to) (payment_transitions from)

abbrev is_empty : List PaymentStatus → Bool
is_empty [] = true
is_empty (s ∷ ss) = false

unfoldable pub is_terminal_payment_status : PaymentStatus → Bool
unfolding payment_transitions
is_terminal_payment_status s = is_empty (payment_transitions s)

-- The `if not (…)` of the trigger, for a change of status.
unfoldable pub trigger_allows : PaymentStatus → PaymentStatus → Bool
trigger_allows old new =
    (is_payment old pending
      && (is_payment new processing
          || is_payment new succeeded
          || is_payment new payment_cancelled))
    || (is_payment old processing
        && (is_payment new succeeded || is_payment new failed || is_payment new payment_cancelled))
    || (is_payment old succeeded && is_payment new refunded)

-- The application's matrix and the database's admit the same changes of status.
pub can_transition-eq-trigger :
    (from to : PaymentStatus) → can_transition_payment from to ≡ trigger_allows from to
unfolding can_transition_payment trigger_allows
can_transition-eq-trigger from to = ground arith
