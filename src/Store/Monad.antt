-- ===== src/Store/Monad.antt =====
-- A service call reads and writes the database, and may throw. What was written before a throw
-- stays written until infrastructure/database/transaction.manager.ts rolls it back.
use voyagi.Prelude.{Bool, true, false, Option, none, some, if◌then◌else◌}
use voyagi.Store.Rows.{Db}

-- The errors of the database layer, then those of the services.
pub data Error : Type 0 where
  unique_violation check_violation foreign_key_violation exclusion_violation
        unknown_database_error :
      Error
  booking_not_found booking_not_cancellable trip_not_bookable idempotency_conflict : Error
  booking_reference_unavailable seat_already_reserved invalid_seat_selection : Error
  booking_branch_forbidden : Error
  trip_not_found trip_transition_conflict trip_version_conflict trip_association_invalid : Error
  validation_exception : Error
  payment_not_found payment_booking_not_found booking_not_payable payment_already_settled : Error
  payment_not_confirmable payment_not_refundable payment_method_not_allowed : Error
  payment_idempotency_conflict payment_reference_unavailable payment_provider_unavailable : Error
  ticket_booking_not_found ticket_forbidden ticket_not_found : Error
  ticket_not_issuable ticket_not_validatable : Error
  payment_forbidden invalid_idempotency_key webhook_signature_invalid : Error

pub data Result {ℓ} (A : Type ℓ) : Type ℓ where
  ok : A → Result A
  err : Error → Result A

abbrev pub is_ok {ℓ} : {A : Type ℓ} → Result A → Bool
is_ok (ok a) = true
is_ok (err e) = false

abbrev pub M : Type 0 → Type 0
M A = Db → Result A × Db

module _ {A : Type 0} where
  unfoldable pub pure : A → M A
  pure a db = (ok a, db)

  unfoldable pub throw : Error → M A
  throw e db = (err e, db)

  unfoldable pub gets : (Db → A) → M A
  gets f db = (ok (f db), db)

  -- `if (!value) throw error`
  unfoldable pub or_throw : Option A → Error → M A
  or_throw none e db = (err e, db)
  or_throw (some a) e db = (ok a, db)

  -- `try { … } catch (error) { if (error instanceof UniqueConstraintViolationError) throw e }`
  abbrev pub on_unique_result : Error → Result A × Db → Result A × Db
  on_unique_result e (ok a, db) = (ok a, db)
  on_unique_result e (err unique_violation, db) = (err e, db)
  on_unique_result e (err other, db) = (err other, db)

  unfoldable pub on_unique : Error → M A → M A
  on_unique e m db = on_unique_result e (m db)

  -- `TransactionManager.run`: COMMIT on success, ROLLBACK to the state at BEGIN on a throw.
  unfoldable pub settle_transaction : Db → Result A × Db → Result A × Db
  settle_transaction before (ok a, db) = (ok a, db)
  settle_transaction before (err e, db) = (err e, before)

  unfoldable pub transaction : M A → M A
  unfolding settle_transaction
  transaction work db = settle_transaction db (work db)

infixl 5 ◌>>=◌ ◌>>◌
unfoldable pub continue : {A B : Type 0} → (A → M B) → Result A × Db → Result B × Db
continue f (ok a, db) = f a db
continue f (err e, db) = (err e, db)

unfoldable pub ◌>>=◌ : {A B : Type 0} → M A → (A → M B) → M B
unfolding continue
◌>>=◌ m f db = continue f (m db)

unfoldable pub ◌>>◌ : {A B : Type 0} → M A → M B → M B
unfolding ◌>>=◌
m >> k = m >>= λ _. k

unfoldable pub throw_if : Bool → Error → M (Unit {0})
throw_if c e db = (if c then err e else ok tt, db)

-- A proof that computes through the notation names this one.
unfoldable pub notation : Unit {0}
unfolding pure throw gets or_throw on_unique continue ◌>>=◌ ◌>>◌ throw_if
notation = tt
