-- ===== src/Payments/Tests.antt =====
-- A company with one booking on hold and one online payment, a provider that answers for it, and a
-- manager who collects cash.
use voyagi.Prelude.{
  leb, Bool, ◌&&◌, any, false, ℕ, ◌+◌, ◌≡◌, refl, true, List, [], ◌∷◌, none, some, find, ◌==◌,
  arith, Rewritten,
}
use voyagi.Identity.Identifier.{Text}
use voyagi.Identity.Roles.{company_manager}
use voyagi.Store.Changes.{BookingIn, SeatIn}
use voyagi.Store.Enums.{
  seat_confirmed, confirmed, cash, pending, cancelled, succeeded, web, held, seat_held, bankily,
  is_online_method, PaymentStatus-discrete, PaymentMethod-discrete, BookingStatus-discrete,
  is_payable_status, processing, failed, is_settled,
}
use voyagi.Store.Network.{no_network}
use voyagi.Store.Rows.{Db, BookingRow, SeatRow, PaymentRow, MembershipRow}
use voyagi.Store.Monad.{
  ok, err, payment_provider_unavailable, notation, transaction, settle_transaction,
}
use voyagi.Commissions.{create_eligible, insert_for, insert_commissions, insert_commission}
use voyagi.Payments.Machine.{
  can_transition_payment, payment_transitions, trigger_allows, can_transition-eq-trigger,
  is_terminal_payment_status,
}
use voyagi.Payments.Types.{
  PayableBooking, LockedPayment, Payment, PaymentProvider, ProviderEvent, event_succeeded,
  WebhookRequest,
}
use voyagi.Payments.Repository.{
  to_payable, claim_idempotency, insert_payment, is_insertable, complete_idempotency, find_payment,
  to_locked, lock_payment, transition_payment, transitioned, payment_violation,
  confirm_booking_paid, append_booking_event,
}
use voyagi.Payments.Service.{
  create_claimed, after_claim, create_new, is_booking_payable, allocate, or_next, initiate_online,
  load_payment, PaymentsService, assert_payments_enabled, handle_webhook, webhook_work, mismatches,
  apply_event, apply_outcome, settle, after_success, audit, audit_earned,
}
use voyagi.Payments.Calls.{Call, cash_confirmation, webhook, serve}
use voyagi.Payments.Evolution.{Evolves, history, history-Evolves, history_terminal}
use voyagi.Payments.Single.{IsValid}
use voyagi.Payments.Settlement.{history-IsValid}
use voyagi.Payments.Atomic.{serve_disabled}
use voyagi.Payments.Replay.{of_key, create_claimed_replayed}
use voyagi.Payments.Settling.{
  is_open, is_confirmed, is_held_for, is_settled_as, settle_confirms, settle_unconfirmed,
}
use voyagi.Payments.Webhook.Redelivery.{handle_webhook_redelivered}

abbrev booking : BookingRow
booking = record {
  id = 10;
  booking_reference = 1000;
  trip_id = 5;
  company_id = 3;
  branch_id = some 7;
  booked_by_user_id = some 40;
  booking_channel = web;
  status = held;
  ticket_price_snapshot = 50000;
  subtotal_amount = 50000;
  service_fee_amount = 0;
  discount_amount = 0;
  total_amount = 50000;
  currency = 1;
  expires_at = some 900;
  version = 1;
  created_at = 0;
  updated_at = 0;
}

abbrev seat : SeatRow
seat = record {
  id = 12;
  trip_id = 5;
  booking_id = 10;
  passenger_id = 11;
  seat_number = 4;
  status = seat_held;
  held_until = some 900;
  updated_at = 0;
}

abbrev started : PaymentRow
started = record {
  id = 20;
  booking_id = 10;
  method = bankily;
  status = processing;
  amount = 50000;
  currency = 1;
  provider_reference = some 77;
  internal_reference = 600;
  confirmed_by_user_id = none;
  paid_at = none;
  created_at = 100;
  updated_at = 100;
}

abbrev given_up : PaymentRow
given_up = record started {
  id = 21;
  status = failed;
  internal_reference = 601;
  provider_reference = some 78;
}

abbrev manager : MembershipRow
manager = record {
  membership = record {
    id = 1;
    user_id = 41;
    company_id = 3;
    branch_id = none;
    role = company_manager;
    is_active = true;
    created_at = 0;
    updated_at = 0;
  };
  commission_rate = 0;
}

abbrev db : Db
db = record {
  network = no_network;
  trips = [];
  trip_events = [];
  memberships = manager ∷ [];
  bookings = booking ∷ [];
  passengers = [];
  seats = seat ∷ [];
  payments = given_up ∷ started ∷ [];
  tickets = [];
  events = [];
  idempotency = [];
  commissions = [];
  audit = [];
  next_id = 30;
}

abbrev paid_event : ProviderEvent
paid_event = record {
  event_id = 1;
  provider_reference = 77;
  internal_reference = 600;
  outcome = event_succeeded;
  amount = 50000;
  currency = 1;
}

abbrev provider : PaymentProvider
provider = record {
  name = 2;
  handles_method = is_online_method;
  initiate = λ method reference amount currency. 77;
  verify_and_parse = λ request. some paid_event;
}

abbrev service : ℕ → PaymentsService
service now = record {
  providers = provider ∷ [];
  generate_reference = λ attempt. 700 + attempt;
  fingerprint = λ payload. payload.actor;
  now = now;
  app_now = now;
  audits = true;
}

abbrev disabled : PaymentsService
disabled = record (service 200) { providers = [] }

abbrev request : WebhookRequest
request = record { raw_body = []; headers = [] }

abbrev no_uuid : Text
no_uuid = b'1' ∷ []

abbrev calls : List (PaymentsService × Call)
calls =
    (service 200, webhook 2 request) ∷ (service 300, cash_confirmation no_uuid no_uuid no_uuid) ∷ []

unfoldable opened : Unit {0}
unfolding handle_webhook assert_payments_enabled webhook_work lock_payment mismatches apply_event
    apply_outcome can_transition_payment payment_transitions settle transition_payment transitioned
    payment_violation trigger_allows after_success confirm_booking_paid append_booking_event
    create_eligible insert_for insert_commissions insert_commission audit audit_earned transaction
    settle_transaction PaymentStatus-discrete PaymentMethod-discrete BookingStatus-discrete
    is_online_method is_settled is_payable_status notation
opened = tt

first_delivery : (handle_webhook (service 200) 2 request db).0 ≡ ok tt
unfolding opened
first_delivery = refl

handle_webhook_redelivered_example :
    handle_webhook (service 500) 2 request (handle_webhook (service 200) 2 request db).1
    ≡ (ok tt, (handle_webhook (service 200) 2 request db).1)
handle_webhook_redelivered_example =
    handle_webhook_redelivered (service 200) (service 500) 2 request db refl first_delivery

db-IsValid : IsValid db
unfolding is_settled
db-IsValid = record {
  distinct = (refl, (refl, tt));
  once = (refl, (refl, tt));
  below = (omega arith, (omega arith, tt));
}

history-IsValid_example : IsValid (history calls db)
history-IsValid_example = history-IsValid calls db db-IsValid

history-Evolves_example : Evolves db.payments (history calls db).payments
history-Evolves_example = history-Evolves calls db

given_up_terminal : is_terminal_payment_status failed ≡ true
unfolding is_terminal_payment_status payment_transitions
given_up_terminal = refl

history_terminal_example :
    (q : PaymentRow) × (find (λ r. r.id == 21) (history calls db).payments ≡ some q)
    × (q.status ≡ failed)
    × (q.amount ≡ 50000)
history_terminal_example = history_terminal calls db 21 {p = given_up} refl given_up_terminal

serve_disabled_example :
    serve disabled (webhook 2 request) db ≡ (err payment_provider_unavailable, db)
serve_disabled_example = serve_disabled disabled (webhook 2 request) db refl

can_transition-eq-trigger_example :
    can_transition_payment processing failed ≡ trigger_allows processing failed
can_transition-eq-trigger_example = can_transition-eq-trigger processing failed

abbrev locked : LockedPayment
locked = to_locked started booking

abbrev settled : Payment
settled = record {
  row = record started { status = succeeded; paid_at = some 200; updated_at = 200 };
  company_id = 3;
}

settled_ok : (settle (service 200) locked processing none (some 77) db).0 ≡ ok settled
unfolding opened
settled_ok = refl

waiting : any (is_open (service 200) 10) db.bookings ≡ true
unfolding is_payable_status
waiting = refl

settle_confirms_example :
    let final = (settle (service 200) locked processing none (some 77) db).1 in
    (any (is_settled_as (service 200) 20) final.payments ≡ true)
    × (any (is_confirmed (service 200) 10) final.bookings ≡ true)
    × Rewritten (is_open (service 200) 10) (BookingIn confirmed) db.bookings final.bookings
    × Rewritten (is_held_for (service 200) 10) (SeatIn seat_confirmed) db.seats final.seats
settle_confirms_example =
    settle_confirms (service 200) locked processing none (some 77) db settled waiting settled_ok

-- The same, where the booking was cancelled before the event of the provider came.
abbrev cancelled_db : Db
cancelled_db = record db { bookings = record booking { status = cancelled } ∷ [] }

cancelled_ok : (settle (service 200) locked processing none (some 77) cancelled_db).0 ≡ ok settled
unfolding opened
cancelled_ok = refl

not_waiting : any (is_open (service 200) 10) cancelled_db.bookings ≡ false
unfolding is_payable_status
not_waiting = refl

settle_unconfirmed_example :
    let final = (settle (service 200) locked processing none (some 77) cancelled_db).1 in
    (any (is_settled_as (service 200) 20) final.payments ≡ true)
    × (final.bookings ≡ cancelled_db.bookings)
    × (final.seats ≡ cancelled_db.seats)
settle_unconfirmed_example =
    settle_unconfirmed (service 200) locked processing none (some 77) cancelled_db settled
      not_waiting cancelled_ok

-- A cash payment of the manager, under the key 9, before any other payment of the booking.
abbrev empty_db : Db
empty_db = record db { payments = [] }

abbrev payable : PayableBooking
payable = to_payable booking

abbrev everywhere : BookingRow → Bool
everywhere b = true

abbrev collected : Payment
collected = record {
  row = record {
    id = 30;
    booking_id = 10;
    method = cash;
    status = pending;
    amount = 50000;
    currency = 1;
    provider_reference = none;
    internal_reference = 700;
    confirmed_by_user_id = none;
    paid_at = none;
    created_at = 200;
    updated_at = 200;
  };
  company_id = 3;
}

created_ok : (create_claimed (service 200) payable 41 9 5 cash everywhere empty_db).0 ≡ ok collected
unfolding opened create_claimed after_claim create_new claim_idempotency is_booking_payable allocate
    or_next insert_payment is_insertable initiate_online complete_idempotency load_payment
    find_payment
created_ok = refl

unexpired_key :
    any
      (λ r. of_key (service 200) payable 41 9 5 cash everywhere r && leb r.expires_at 300)
      (create_claimed (service 200) payable 41 9 5 cash everywhere empty_db).1.idempotency
    ≡ false
unfolding opened create_claimed after_claim create_new claim_idempotency is_booking_payable allocate
    or_next insert_payment is_insertable initiate_online complete_idempotency load_payment
    find_payment
unexpired_key = refl

create_claimed_replayed_example :
    create_claimed
      (service 300)
      payable
      41
      9
      5
      cash
      everywhere
      (create_claimed (service 200) payable 41 9 5 cash everywhere empty_db).1
    ≡ (ok collected, (create_claimed (service 200) payable 41 9 5 cash everywhere empty_db).1)
create_claimed_replayed_example =
    create_claimed_replayed (service 200) payable 41 9 5 cash everywhere (service 300) empty_db
      collected created_ok unexpired_key
