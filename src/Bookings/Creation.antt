-- ===== src/Bookings/Creation.antt =====
-- modules/bookings/bookings.service.ts: `createPassengerBooking` and `createAgentBooking`.
use voyagi.Prelude.{
  ℕ, zero, suc, ◌+◌, Bool, false, ◌&&◌, not, List, [], ◌∷◌, Option, none, some, length, ltb,
}
use voyagi.Identity.Identifier.{Text, bigint_of}
use voyagi.Identity.Roles.{bookings_create, bookings_read}
use voyagi.Identity.Access.{resolve_entitlements, can_exercise_permission_in_branch}
use voyagi.Identity.Scope.{access_scope}
use voyagi.Store.Enums.{BookingChannel, web, agent_desk, booking_created}
use voyagi.Store.Network.{is_trip, scheduled}
use voyagi.Store.Rows.{Db, BookingRow, Operation, create_passenger_booking, create_agent_booking}
use voyagi.Store.Monad.{
  Error, unique_violation, check_violation, foreign_key_violation, Result, ok, err, M, pure, throw,
  gets, or_throw, throw_if, transaction, ◌>>=◌, ◌>>◌, booking_not_found, trip_not_bookable,
  idempotency_conflict, booking_reference_unavailable, seat_already_reserved,
  invalid_seat_selection, booking_branch_forbidden,
}
use voyagi.Payments.Types.{IdempotencyClaim, claimed, conflict, replay}
use voyagi.Payments.Repository.{find_memberships, owned_by, company_visible, append_booking_event}
use voyagi.Bookings.Inputs.{
  BookingPassengerInput, CreateBookingInput, normalize_input, validate_create_booking, seat_value,
}
use voyagi.Bookings.Idempotency.{claim_booking_key, complete_booking_key}
use voyagi.Bookings.Inserts.{
  BookingTripFacts, InsertBookingParams, find_trip_company, find_trip_for_booking, insert_booking,
  insert_passenger, insert_seat,
}
use voyagi.Bookings.Repository.{Booking, find_one, release_expired}
use voyagi.Bookings.Service.{BookingsService, append_expired}

-- The `catch` around the passengers and their seats.
unfoldable pub seat_error : Error → Error
seat_error unique_violation = seat_already_reserved
seat_error check_violation = invalid_seat_selection
seat_error foreign_key_violation = invalid_seat_selection
seat_error e = e

abbrev pub catch_result : {A : Type 0} → Result A × Db → Result A × Db
catch_result (ok a, db) = (ok a, db)
catch_result (err e, db) = (err (seat_error e), db)

unfoldable pub catching_seats : {A : Type 0} → M A → M A
catching_seats m db = catch_result (m db)

-- What both creations share, once the key is claimed.
pub record Request : Type 0 where
  pub actor : ℕ
  pub branch : Option ℕ
  pub channel : BookingChannel
  pub operation : Operation
  pub key : ℕ
  pub input : CreateBookingInput

module _ (s : BookingsService) where
  unfoldable pub is_trip_bookable : Option BookingTripFacts → Bool
  is_trip_bookable none = false
  is_trip_bookable (some t) =
      t.is_active && is_trip t.status scheduled && ltb s.app_now t.boarding_closes_at

  abbrev pub booking_params : BookingTripFacts → Request → ℕ → InsertBookingParams
  booking_params t r attempt = record {
    company_id = t.company_id;
    trip_id = t.trip_id;
    branch_id = r.branch;
    actor_user_id = r.actor;
    booking_reference = s.generate_reference attempt;
    booking_channel = r.channel;
    passenger_count = length r.input.passengers;
  }

  -- An attempt that inserts ends the loop; one that does not reads the trip again.
  unfoldable pub or_retry : BookingTripFacts → Option ℕ → M (Option ℕ) → M (Option ℕ)
  or_retry t (some booking) rest = pure (some booking)
  or_retry t none rest = do
    current ← gets (find_trip_for_booking t.trip_id t.company_id)
    throw_if (not (is_trip_bookable current)) trip_not_bookable
    rest

  -- The loop over the attempts that are left.
  unfoldable pub allocate_booking : ℕ → ℕ → BookingTripFacts → Request → M (Option ℕ)
  allocate_booking zero attempt t r = pure none
  allocate_booking (suc left) attempt t r = do
    inserted ← insert_booking s.now (booking_params t r attempt)
    or_retry t inserted (allocate_booking left (attempt + 1) t r)

  unfoldable pub insert_seats : ℕ → ℕ → List BookingPassengerInput → M (Unit {0})
  insert_seats trip booking [] = pure tt
  insert_seats trip booking (p ∷ ps) = do
    passenger ← insert_passenger booking p
    insert_seat s.now trip booking passenger (seat_value p)
    insert_seats trip booking ps

  -- The clause that the new booking is loaded with.
  abbrev pub reach_of : BookingTripFacts → Request → Option ℕ → BookingRow → Bool
  reach_of t r none = owned_by r.actor
  reach_of t r (some branch) =
      company_visible t.company_id (record { company_wide_scope = false; branch_ids = branch ∷ [] })

  unfoldable pub create_claimed_booking : BookingTripFacts → Request → M Booking
  create_claimed_booking t r = do
    throw_if (not (is_trip_bookable (some t))) trip_not_bookable
    expired ← release_expired s.now t.company_id (some t.trip_id)
    append_expired s t.company_id expired
    allocated ← allocate_booking 3 0 t r
    booking ← or_throw allocated booking_reference_unavailable
    catching_seats (insert_seats t.trip_id booking r.input.passengers)
    append_booking_event booking t.company_id (some r.actor) booking_created
    complete_booking_key s.now t.company_id r.actor r.operation r.key booking
    found ← gets (find_one (reach_of t r r.branch) booking)
    or_throw found booking_not_found

  -- The branches on `claim.kind`, for the clause that a replay is loaded with.
  unfoldable pub after_booking_claim :
      ℕ → ℕ → (BookingRow → Bool) → Request → IdempotencyClaim → M Booking
  after_booking_claim trip company reach r conflict = throw idempotency_conflict
  after_booking_claim trip company reach r (replay booking) = do
    found ← gets (find_one reach booking)
    or_throw found booking_not_found
  after_booking_claim trip company reach r claimed = do
    facts ← gets (find_trip_for_booking trip company)
    t ← or_throw facts trip_not_bookable
    create_claimed_booking t r

  unfoldable pub create_under_key : ℕ → ℕ → ℕ → (BookingRow → Bool) → Request → M Booking
  create_under_key trip company fingerprint reach r = do
    claim ← claim_booking_key s.now company r.actor r.operation r.key fingerprint
    after_booking_claim trip company reach r claim

  unfoldable pub create_passenger_within : ℕ → ℕ → Request → M Booking
  create_passenger_within trip fingerprint r = do
    found ← gets (find_trip_company trip)
    company ← or_throw found trip_not_bookable
    create_under_key trip company fingerprint (owned_by r.actor) r

  unfoldable pub create_passenger_booking_call : Text → Option Text → CreateBookingInput → M Booking
  create_passenger_booking_call actor_user_id idempotency_key raw = do
    v ← validate_create_booking actor_user_id idempotency_key (normalize_input raw)
    transaction (
        create_passenger_within v.2
          (s.fingerprint (record {
            operation = create_passenger_booking;
            company = none;
            branch = none;
            input = normalize_input raw;
          }))
          (record {
            actor = v.0;
            branch = none;
            channel = web;
            operation = create_passenger_booking;
            key = v.1;
            input = normalize_input raw;
          }))

  unfoldable pub create_agent_within : ℕ → ℕ → ℕ → ℕ → Request → M Booking
  create_agent_within trip company branch fingerprint r = do
    memberships ← gets (find_memberships r.actor company)
    throw_if
        (not (
          can_exercise_permission_in_branch (resolve_entitlements memberships) bookings_create
            branch))
        booking_branch_forbidden
    create_under_key trip company fingerprint
        (company_visible company (access_scope (resolve_entitlements memberships) bookings_read)) r

  unfoldable pub create_agent_booking_call :
      Text → Text → Text → Option Text → CreateBookingInput → M Booking
  create_agent_booking_call actor_user_id company_id branch_id idempotency_key raw = do
    v ← validate_create_booking actor_user_id idempotency_key (normalize_input raw)
    company ← or_throw (bigint_of company_id) booking_branch_forbidden
    branch ← or_throw (bigint_of branch_id) booking_branch_forbidden
    transaction (
        create_agent_within v.2 company branch
          (s.fingerprint (record {
            operation = create_agent_booking;
            company = some company;
            branch = some branch;
            input = normalize_input raw;
          }))
          (record {
            actor = v.0;
            branch = some branch;
            channel = agent_desk;
            operation = create_agent_booking;
            key = v.1;
            input = normalize_input raw;
          }))
