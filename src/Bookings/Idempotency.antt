-- ===== src/Bookings/Idempotency.antt =====
-- postgres-bookings.repository.ts: `claimIdempotency` and `completeIdempotency`, for the two
-- operations that create a booking.
use voyagi.Prelude.{
  ℕ, Bool, true, false, ◌&&◌, [], ◌∷◌, ◌++◌, Option, none, some, find, update, ◌==◌, leb, is_none,
  if◌then◌else◌,
}
use voyagi.Store.Rows.{
  IdempotencyRow, Operation, create_payment, create_passenger_booking, create_agent_booking,
}
use voyagi.Store.Monad.{ok, M}
use voyagi.Payments.Types.{IdempotencyClaim, claimed, conflict, replay}
use voyagi.Payments.Repository.{day_after}

abbrev same_operation : Operation → Operation → Bool
same_operation create_payment create_payment = true
same_operation create_payment create_passenger_booking = false
same_operation create_payment create_agent_booking = false
same_operation create_passenger_booking create_payment = false
same_operation create_passenger_booking create_passenger_booking = true
same_operation create_passenger_booking create_agent_booking = false
same_operation create_agent_booking create_payment = false
same_operation create_agent_booking create_passenger_booking = false
same_operation create_agent_booking create_agent_booking = true

-- The unique scope of a key.
abbrev pub is_booking_key : ℕ → ℕ → Operation → ℕ → IdempotencyRow → Bool
is_booking_key company actor operation key r =
    r.company_id == company
    && r.actor_user_id == actor
    && same_operation r.operation operation
    && r.idempotency_key == key

abbrev first_booking_claim : ℕ → ℕ → ℕ → Operation → ℕ → ℕ → IdempotencyRow
first_booking_claim now company actor operation key fingerprint = record {
  company_id = company;
  actor_user_id = actor;
  operation = operation;
  idempotency_key = key;
  request_fingerprint = fingerprint;
  booking_id = none;
  payment_id = none;
  response_status = none;
  completed_at = none;
  expires_at = day_after now;
  created_at = now;
}

-- The update of a claim whose time is over. It leaves `payment_id`, which a booking's row never has.
abbrev reopened_booking : ℕ → ℕ → IdempotencyRow → IdempotencyRow
reopened_booking now fingerprint r = record r {
  request_fingerprint = fingerprint;
  booking_id = none;
  response_status = none;
  completed_at = none;
  expires_at = day_after now;
  created_at = now;
}

abbrev booking_claim_of : Option ℕ → IdempotencyClaim
booking_claim_of none = conflict
booking_claim_of (some booking) = replay booking

unfoldable pub claim_booking_key : ℕ → ℕ → ℕ → Operation → ℕ → ℕ → M IdempotencyClaim
claim_booking_key now company actor operation key fingerprint db =
    elim (find (is_booking_key company actor operation key) db.idempotency) [
      | none ↦ (
        ok claimed,
        record db {
          idempotency =
              db.idempotency
              ++ first_booking_claim now company actor operation key fingerprint ∷ [];
        },
      )
      | some r ↦
          if leb r.expires_at now
          then (
            ok claimed,
            record db {
              idempotency =
                  update (is_booking_key company actor operation key)
                    (reopened_booking now fingerprint) db.idempotency;
            },
          )
          else if r.request_fingerprint == fingerprint
          then (ok (booking_claim_of r.booking_id), db)
          else (ok conflict, db)
    ]

abbrev completed_booking : ℕ → ℕ → IdempotencyRow → IdempotencyRow
completed_booking now booking r = record r {
  booking_id = some booking;
  response_status = some 201;
  completed_at = some now;
}

unfoldable pub complete_booking_key : ℕ → ℕ → ℕ → Operation → ℕ → ℕ → M (Unit {0})
complete_booking_key now company actor operation key booking db = (
  ok tt,
  record db {
    idempotency =
        update (λ r. is_booking_key company actor operation key r && is_none r.booking_id)
          (completed_booking now booking) db.idempotency;
  },
)
