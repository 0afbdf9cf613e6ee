-- ===== src/Store/Enums.antt =====
-- The enums of booking.types.ts, payment.types.ts and commission-status.ts, with the sets of
-- values that the queries and the services test for.
use voyagi.Prelude.{Bool, true, false}

pub data BookingStatus : Type 0 where
  draft held pending_payment confirmed : BookingStatus
  partially_cancelled cancelled completed expired : BookingStatus

pub data BookingChannel : Type 0 where
  mobile_app web agent_desk branch_office admin : BookingChannel

pub data PassengerGender : Type 0 where
  male female unspecified : PassengerGender

pub data SeatStatus : Type 0 where
  seat_held seat_confirmed seat_checked_in seat_released seat_cancelled : SeatStatus

pub data PaymentMethod : Type 0 where
  cash bankily masrvi seddad other : PaymentMethod

pub data PaymentStatus : Type 0 where
  pending processing succeeded failed payment_cancelled : PaymentStatus
  partially_refunded refunded : PaymentStatus

pub data CommissionStatus : Type 0 where
  commission_pending earned paid commission_cancelled : CommissionStatus

pub data BookingEventType : Type 0 where
  booking_created payment_pending payment_confirmed : BookingEventType
  refund_created refund_completed booking_cancelled booking_expired checked_in : BookingEventType

-- Every test on a method or a status asks for equality.
unfoldable pub BookingStatus-discrete : Discrete BookingStatus
BookingStatus-discrete = hlevel

unfoldable pub PaymentStatus-discrete : Discrete PaymentStatus
PaymentStatus-discrete = hlevel

unfoldable pub PaymentMethod-discrete : Discrete PaymentMethod
PaymentMethod-discrete = hlevel

abbrev pub is_booking : BookingStatus → BookingStatus → Bool
is_booking a b = elim (BookingStatus-discrete a b) [ yes _ ↦ true | no _ ↦ false ]

abbrev pub is_payment : PaymentStatus → PaymentStatus → Bool
is_payment a b = elim (PaymentStatus-discrete a b) [ yes _ ↦ true | no _ ↦ false ]

abbrev pub is_method : PaymentMethod → PaymentMethod → Bool
is_method a b = elim (PaymentMethod-discrete a b) [ yes _ ↦ true | no _ ↦ false ]

-- `booking_channel IN ('WEB', 'MOBILE_APP')`
unfoldable pub is_online_channel : BookingChannel → Bool
is_online_channel mobile_app = true
is_online_channel web = true
is_online_channel agent_desk = false
is_online_channel branch_office = false
is_online_channel admin = false

-- `ONLINE_METHODS.includes(method)`
unfoldable pub is_online_method : PaymentMethod → Bool
is_online_method cash = false
is_online_method bankily = true
is_online_method masrvi = true
is_online_method seddad = true
is_online_method other = false

-- `PAYABLE_BOOKING_STATUSES.includes(status)`
unfoldable pub is_payable_status : BookingStatus → Bool
is_payable_status draft = false
is_payable_status held = true
is_payable_status pending_payment = true
is_payable_status confirmed = false
is_payable_status partially_cancelled = false
is_payable_status cancelled = false
is_payable_status completed = false
is_payable_status expired = false

-- `SETTLED_STATUSES.includes(status)`
unfoldable pub is_settled : PaymentStatus → Bool
is_settled pending = false
is_settled processing = false
is_settled succeeded = true
is_settled failed = false
is_settled payment_cancelled = false
is_settled partially_refunded = true
is_settled refunded = true

abbrev pub is_held_seat : SeatStatus → Bool
is_held_seat seat_held = true
is_held_seat seat_confirmed = false
is_held_seat seat_checked_in = false
is_held_seat seat_released = false
is_held_seat seat_cancelled = false
