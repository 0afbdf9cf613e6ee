-- ===== src/Payments/Repository/Idempotency.antt =====
-- postgres-payments.repository.ts: `claimIdempotency` and `completeIdempotency`.
use voyagi.Prelude.{
  ℕ, ◌+◌, Bool, true, false, ◌&&◌, [], ◌∷◌, ◌++◌, Option, none, some, find, update, ◌==◌, leb,
  is_none, if◌then◌else◌,
}
use voyagi.Store.Rows.{
  IdempotencyRow, Operation, create_payment, create_passenger_booking, create_agent_booking,
}
use voyagi.Store.Monad.{ok, M}
use voyagi.Payments.Types.{IdempotencyClaim, claimed, conflict, replay}

abbrev is_create_payment : Operation → Bool
is_create_payment create_payment = true
is_create_payment create_passenger_booking = false
is_create_payment create_agent_booking = false

-- The unique scope of a key, for the operation `CREATE_PAYMENT`.
abbrev pub is_payment_key : ℕ → ℕ → ℕ → IdempotencyRow → Bool
is_payment_key company actor key r =
    r.company_id == company
    && r.actor_user_id == actor
    && is_create_payment r.operation
    && r.idempotency_key == key

-- `now() + interval '24 hours'`, in seconds.
abbrev pub day_after : ℕ → ℕ
day_after now = now + 86400

abbrev pub reopened : ℕ → ℕ → IdempotencyRow → IdempotencyRow
reopened now fingerprint r = record r {
  request_fingerprint = fingerprint;
  booking_id = none;
  payment_id = none;
  response_status = none;
  completed_at = none;
  expires_at = day_after now;
  created_at = now;
}

abbrev pub first_claim : ℕ → ℕ → ℕ → ℕ → ℕ → IdempotencyRow
first_claim now company actor key fingerprint = record {
  company_id = company;
  actor_user_id = actor;
  operation = create_payment;
  idempotency_key = key;
  request_fingerprint = fingerprint;
  booking_id = none;
  payment_id = none;
  response_status = none;
  completed_at = none;
  expires_at = day_after now;
  created_at = now;
}

abbrev claim_of : Option ℕ → IdempotencyClaim
claim_of none = conflict
claim_of (some payment) = replay payment

unfoldable pub claim_idempotency : ℕ → ℕ → ℕ → ℕ → ℕ → M IdempotencyClaim
claim_idempotency now company actor key fingerprint db =
    elim (find (is_payment_key company actor key) db.idempotency) [
      | none ↦ (
        ok claimed,
        record db {
          idempotency = db.idempotency ++ first_claim now company actor key fingerprint ∷ [];
        },
      )
      | some r ↦
          if leb r.expires_at now
          then (
            ok claimed,
            record db {
              idempotency =
                  update (is_payment_key company actor key) (reopened now fingerprint)
                    db.idempotency;
            },
          )
          else if r.request_fingerprint == fingerprint
          then (ok (claim_of r.payment_id), db)
          else (ok conflict, db)
    ]

abbrev pub completed : ℕ → ℕ → ℕ → IdempotencyRow → IdempotencyRow
completed now booking payment r = record r {
  booking_id = some booking;
  payment_id = some payment;
  response_status = some 201;
  completed_at = some now;
}

unfoldable pub complete_idempotency : ℕ → ℕ → ℕ → ℕ → ℕ → ℕ → M (Unit {0})
complete_idempotency now company actor key booking payment db = (
  ok tt,
  record db {
    idempotency =
        update (λ r. is_payment_key company actor key r && is_none r.payment_id)
          (completed now booking payment) db.idempotency;
  },
)
