-- ===== src/Store/Rows.antt =====
-- The rows of the tables. A text that the code only stores and compares (a reference, a currency,
-- a name, a seat number, a hash) stands as a number, and so do times. Amounts are in hundredths.
use voyagi.Store.Network.{Network, TripRow, TripEventRow}
use voyagi.Prelude.{ℕ, List, Option}
use voyagi.Identity.Access.{Membership}
use voyagi.Store.Enums.{
  BookingStatus, BookingChannel, PassengerGender, SeatStatus, PaymentMethod, PaymentStatus,
  CommissionStatus, BookingEventType,
}

pub record BookingRow : Type 0 where
  pub id : ℕ
  pub booking_reference : ℕ
  pub trip_id : ℕ
  pub company_id : ℕ
  pub branch_id : Option ℕ
  pub booked_by_user_id : Option ℕ
  pub booking_channel : BookingChannel
  pub status : BookingStatus
  pub ticket_price_snapshot : ℕ
  pub subtotal_amount : ℕ
  pub service_fee_amount : ℕ
  pub discount_amount : ℕ
  pub total_amount : ℕ
  pub currency : ℕ
  pub expires_at : Option ℕ
  pub version : ℕ
  pub created_at : ℕ
  pub updated_at : ℕ

pub record PassengerRow : Type 0 where
  pub id : ℕ
  pub booking_id : ℕ
  pub full_name : ℕ
  pub phone : Option ℕ
  pub document_number : Option ℕ
  pub boarding_station_id : Option ℕ
  pub gender : PassengerGender

pub record SeatRow : Type 0 where
  pub id : ℕ
  pub trip_id : ℕ
  pub booking_id : ℕ
  pub passenger_id : ℕ
  pub seat_number : ℕ
  pub status : SeatStatus
  pub held_until : Option ℕ
  pub updated_at : ℕ

pub record PaymentRow : Type 0 where
  pub id : ℕ
  pub booking_id : ℕ
  pub method : PaymentMethod
  pub status : PaymentStatus
  pub amount : ℕ
  pub currency : ℕ
  pub provider_reference : Option ℕ
  pub internal_reference : ℕ
  pub confirmed_by_user_id : Option ℕ
  pub paid_at : Option ℕ
  pub created_at : ℕ
  pub updated_at : ℕ

pub record EventRow : Type 0 where
  pub booking_id : ℕ
  pub company_id : ℕ
  pub actor_user_id : Option ℕ
  pub event_type : BookingEventType

pub record TicketRow : Type 0 where
  pub id : ℕ
  pub booking_id : ℕ
  pub passenger_id : ℕ
  pub seat_reservation_id : ℕ
  pub ticket_number : ℕ
  pub qr_token_hash : ℕ
  pub issued_at : ℕ
  pub checked_in_at : Option ℕ
  pub cancelled_at : Option ℕ

-- The operations that `idempotency_records.operation` names.
pub data Operation : Type 0 where
  create_payment create_passenger_booking create_agent_booking : Operation

pub record IdempotencyRow : Type 0 where
  pub company_id : ℕ
  pub actor_user_id : ℕ
  pub operation : Operation
  pub idempotency_key : ℕ
  pub request_fingerprint : ℕ
  pub booking_id : Option ℕ
  pub payment_id : Option ℕ
  pub response_status : Option ℕ
  pub completed_at : Option ℕ
  pub expires_at : ℕ
  pub created_at : ℕ

-- A membership with the rate of its commission, in hundredths of a per cent.
pub record MembershipRow : Type 0 where
  pub membership : Membership
  pub commission_rate : ℕ

pub record CommissionRow : Type 0 where
  pub id : ℕ
  pub agent_membership_id : ℕ
  pub booking_id : ℕ
  pub company_id : ℕ
  pub commission_rate : ℕ
  pub base_amount : ℕ
  pub commission_amount : ℕ
  pub currency : ℕ
  pub status : CommissionStatus
  pub earned_at : Option ℕ
  pub paid_at : Option ℕ
  pub cancelled_at : Option ℕ
  pub created_at : ℕ
  pub updated_at : ℕ

pub data AuditAction : Type 0 where
  payment_succeeded payment_refunded commission_earned : AuditAction
  commission_manual_reconciliation_required audit_booking_cancelled : AuditAction
  ticket_validated : AuditAction

pub record AuditRow : Type 0 where
  pub actor_user_id : Option ℕ
  pub company_id : ℕ
  pub action : AuditAction
  pub entity_id : ℕ

-- The database. `next_id` stands for the default values of the key columns
-- (`gen_random_uuid()` and identity columns), which no row has yet.
pub record Db : Type 0 where
  pub network : Network
  pub trips : List TripRow
  pub trip_events : List TripEventRow
  pub memberships : List MembershipRow
  pub bookings : List BookingRow
  pub passengers : List PassengerRow
  pub seats : List SeatRow
  pub payments : List PaymentRow
  pub tickets : List TicketRow
  pub events : List EventRow
  pub idempotency : List IdempotencyRow
  pub commissions : List CommissionRow
  pub audit : List AuditRow
  pub next_id : ℕ
