-- ===== src/Bookings/Calls.antt =====
-- Every mutating call of BookingsService at once: what each statement keeps, each call keeps.
use voyagi.Prelude.{
  ℕ, zero, suc, ◌+◌, Bool, List, [], ◌∷◌, Option, none, some, Option-cases, inl, inr, ◌≡◌, refl,
}
use voyagi.Identity.Identifier.{Text, bigint_of}
use voyagi.Store.Enums.{BookingStatus, BookingEventType}
use voyagi.Store.Rows.{Db, BookingRow, Operation, AuditAction}
use voyagi.Store.Monad.{Result, ok, err, M, pure, ◌>>◌}
use voyagi.Store.Keeps.{
  Keeps, Keeps-pure, Keeps-gets, Keeps-throw_if, Keeps->>=, Keeps->>, Keeps-transaction, IsPreorder,
  keeping,
}
use voyagi.Audit.{append_audit}
use voyagi.Payments.Types.{IdempotencyClaim, claimed, conflict, replay}
use voyagi.Payments.Repository.{append_booking_event}
use voyagi.Bookings.Inputs.{BookingPassengerInput, CreateBookingInput, validate_create_booking}
use voyagi.Bookings.Idempotency.{claim_booking_key, complete_booking_key}
use voyagi.Bookings.Inserts.{
  BookingTripFacts, InsertBookingParams, insert_booking, insert_passenger, insert_seat,
}
use voyagi.Bookings.Repository.{cancel_booking, release_booking_seats, release_expired}
use voyagi.Bookings.Service.{
  BookingsService, or_refuse, cancel_within, cancel_owned_booking, cancel_company_booking,
  append_expired, expire_within, expire_bookings,
}
use voyagi.Bookings.Creation.{
  catch_result, catching_seats, Request, or_retry, allocate_booking, insert_seats,
  create_claimed_booking, after_booking_claim, create_under_key, create_passenger_within,
  create_passenger_booking_call, create_agent_within, create_agent_booking_call,
}

-- A call of the service that may change the database, by its entry point.
pub data Call : Type 0 where
  passenger_creation : Text → Option Text → CreateBookingInput → Call
  agent_creation : Text → Text → Text → Option Text → CreateBookingInput → Call
  owner_cancellation : ℕ → Text → Call
  company_cancellation : ℕ → Text → Text → Call
  expiry : Text → Call

unfoldable pub serve : BookingsService → Call → M (Unit {0})
serve s (passenger_creation actor key input) =
    create_passenger_booking_call s actor key input >> pure tt
serve s (agent_creation actor company branch key input) =
    create_agent_booking_call s actor company branch key input >> pure tt
serve s (owner_cancellation actor booking) = cancel_owned_booking s actor booking >> pure tt
serve s (company_cancellation actor company booking) =
    cancel_company_booking s actor company booking >> pure tt
serve s (expiry company) = expire_bookings s company >> pure tt

-- What the statements keep.
pub record Kept (R : Db → Db → Type 0) : Type 0 where
  pub preorder : IsPreorder R
  pub claims : (now c a : ℕ) (o : Operation) (k f : ℕ) → Keeps R (claim_booking_key now c a o k f)
  pub completes :
      (now c a : ℕ) (o : Operation) (k b : ℕ) → Keeps R (complete_booking_key now c a o k b)
  pub books : (now : ℕ) (params : InsertBookingParams) → Keeps R (insert_booking now params)
  pub boards : (b : ℕ) (p : BookingPassengerInput) → Keeps R (insert_passenger b p)
  pub seats : (now t b p q : ℕ) → Keeps R (insert_seat now t b p q)
  pub cancels : (now : ℕ) (reach : BookingRow → Bool) (b : ℕ) → Keeps R (cancel_booking now reach b)
  pub releases : (now b : ℕ) → Keeps R (release_booking_seats now b)
  pub expires : (now c : ℕ) (t : Option ℕ) → Keeps R (release_expired now c t)
  pub appends :
      (b c : ℕ) (a : Option ℕ) (t : BookingEventType) → Keeps R (append_booking_event b c a t)
  pub audits :
      (bound : Bool) (a : Option ℕ) (c : ℕ) (t : AuditAction) (e : ℕ)
      → Keeps R (append_audit bound a c t e)

module _ {R : Db → Db → Type 0} (k : Kept R) (s : BookingsService) where
  open k use {
    preorder, claims, completes, books, boards, seats, cancels, releases, expires, appends, audits,
  }

  catch_result-db : {A : Type 0} (x : Result A × Db) → (catch_result x).1 ≡ x.1
  catch_result-db (ok a, db) = refl
  catch_result-db (err e, db) = refl

  catching-kept : {A : Type 0} (m : M A) → Keeps R m → Keeps R (catching_seats m)
  unfolding catching_seats
  catching-kept m h = record { kept = λ db. rw (catch_result-db (m db)) (h.kept db) }

  append_expired-kept : (c : ℕ) (bs : List BookingRow) → Keeps R (append_expired s c bs)
  unfolding append_expired
  append_expired-kept c [] = Keeps-pure preorder tt
  append_expired-kept c (b ∷ bs) =
      Keeps->> preorder _ _ (appends b.id c none _) (append_expired-kept c bs)

  or_retry-kept :
      (t : BookingTripFacts) (o : Option ℕ) (rest : M (Option ℕ))
      → Keeps R rest
      → Keeps R (or_retry s t o rest)
  unfolding or_retry
  or_retry-kept t none rest h =
      Keeps->>= preorder _ _ (Keeps-gets preorder _)
        λ c. Keeps->> preorder _ _ (Keeps-throw_if preorder _ _) h
  or_retry-kept t (some b) rest h = Keeps-pure preorder (some b)

  allocate-kept :
      (left attempt : ℕ) (t : BookingTripFacts) (r : Request)
      → Keeps R (allocate_booking s left attempt t r)
  unfolding allocate_booking
  allocate-kept zero attempt t r = Keeps-pure preorder none
  allocate-kept (suc left) attempt t r =
      Keeps->>= preorder _ _ (books s.now _)
        λ o. or_retry-kept t o _ (allocate-kept left (attempt + 1) t r)

  insert_seats-kept : (t b : ℕ) (ps : List BookingPassengerInput) → Keeps R (insert_seats s t b ps)
  unfolding insert_seats
  insert_seats-kept t b [] = Keeps-pure preorder tt
  insert_seats-kept t b (p ∷ ps) =
      Keeps->>= preorder _ _ (boards b p)
        λ n. Keeps->> preorder _ _ (seats s.now t b n _) (insert_seats-kept t b ps)

  create_claimed-kept :
      (t : BookingTripFacts) (r : Request) → Keeps R (create_claimed_booking s t r)
  unfolding create_claimed_booking
  create_claimed-kept t r =
      search
        (
          keeping, preorder, expires, append_expired-kept, allocate-kept, catching-kept,
          insert_seats-kept, appends, completes,
        )
        depth 30

  after_claim-kept :
      (trip company : ℕ) (reach : BookingRow → Bool) (r : Request) (c : IdempotencyClaim)
      → Keeps R (after_booking_claim s trip company reach r c)
  unfolding after_booking_claim
  after_claim-kept trip company reach r conflict = search (keeping, preorder)
  after_claim-kept trip company reach r (replay b) = search (keeping, preorder) depth 12
  after_claim-kept trip company reach r claimed =
      search (keeping, preorder, create_claimed-kept) depth 12

  under_key-kept :
      (trip company f : ℕ) (reach : BookingRow → Bool) (r : Request)
      → Keeps R (create_under_key s trip company f reach r)
  unfolding create_under_key
  under_key-kept trip company f reach r =
      search (keeping, preorder, claims, after_claim-kept) depth 12

  passenger-kept : (trip f : ℕ) (r : Request) → Keeps R (create_passenger_within s trip f r)
  unfolding create_passenger_within
  passenger-kept trip f r = search (keeping, preorder, under_key-kept) depth 12

  agent-kept : (trip c b f : ℕ) (r : Request) → Keeps R (create_agent_within s trip c b f r)
  unfolding create_agent_within
  agent-kept trip c b f r = search (keeping, preorder, under_key-kept) depth 12

  validate-kept :
      (a : Text) (key : Option Text) (i : CreateBookingInput)
      → Keeps R (validate_create_booking a key i)
  unfolding validate_create_booking
  validate-kept a key i = search (keeping, preorder) depth 30

  or_refuse-kept :
      (o : Option (ℕ × BookingStatus)) (reach : BookingRow → Bool) (b : ℕ)
      → Keeps R (or_refuse s o reach b)
  unfolding or_refuse
  or_refuse-kept none reach b = search (keeping, preorder) depth 12
  or_refuse-kept (some c) reach b = Keeps-pure preorder c

  cancel-kept :
      (a : ℕ) (c : Option ℕ) (reach : BookingRow → Bool) (b : ℕ)
      → Keeps R (cancel_within s a c reach b)
  unfolding cancel_within
  cancel-kept a c reach b =
      search (keeping, preorder, cancels, or_refuse-kept, releases, appends, audits) depth 30

  expire-kept : (c : ℕ) → Keeps R (expire_within s c)
  unfolding expire_within
  expire-kept c = search (keeping, preorder, expires, append_expired-kept) depth 12

  expire_bookings-kept : (c : Text) → Keeps R (expire_bookings s c)
  unfolding expire_bookings
  expire_bookings-kept c = elim (Option-cases (bigint_of c)) [
    | inl e ↦ rw (expire_bookings, e) (Keeps-pure preorder 0)
    | inr (n, e) ↦ rw (expire_bookings, e) (Keeps-transaction preorder _ (expire-kept n))
  ]

  -- Every call keeps what every statement keeps.
  pub serve-kept : (c : Call) → Keeps R (serve s c)
  unfolding serve create_passenger_booking_call create_agent_booking_call cancel_owned_booking
      cancel_company_booking
  serve-kept (passenger_creation a key i) =
      search (keeping, preorder, validate-kept, passenger-kept) depth 20
  serve-kept (agent_creation a c b key i) =
      search (keeping, preorder, validate-kept, agent-kept) depth 20
  serve-kept (owner_cancellation a b) = search (keeping, preorder, cancel-kept) depth 20
  serve-kept (company_cancellation a c b) = search (keeping, preorder, cancel-kept) depth 20
  serve-kept (expiry c) = search (keeping, preorder, expire_bookings-kept) depth 12
