-- ===== src/Payments/Types.antt =====
-- payment.types.ts, payments.repository.ts and payment-provider.port.ts: what passes between the
-- service, the repository and a provider.
use voyagi.Prelude.{ℕ, Bool, List, Option}
use voyagi.Store.Enums.{BookingStatus, BookingChannel, PaymentMethod, PaymentStatus}
use voyagi.Store.Rows.{PaymentRow}

pub record PayableBooking : Type 0 where
  pub booking_id : ℕ
  pub company_id : ℕ
  pub branch_id : Option ℕ
  pub booked_by_user_id : Option ℕ
  pub booking_channel : BookingChannel
  pub status : BookingStatus
  pub total_amount : ℕ
  pub currency : ℕ
  pub expires_at : Option ℕ

-- A payment as the domain exposes it: its row, and the company of its booking.
pub record Payment : Type 0 where
  pub row : PaymentRow
  pub company_id : ℕ

pub record LockedPayment : Type 0 where
  pub id : ℕ
  pub booking_id : ℕ
  pub company_id : ℕ
  pub branch_id : Option ℕ
  pub booked_by_user_id : Option ℕ
  pub booking_channel : BookingChannel
  pub method : PaymentMethod
  pub status : PaymentStatus
  pub amount : ℕ
  pub currency : ℕ
  pub provider_reference : Option ℕ
  pub internal_reference : ℕ

pub record TransitionPaymentParams : Type 0 where
  pub payment_id : ℕ
  pub from : PaymentStatus
  pub to : PaymentStatus
  pub provider_reference : Option ℕ
  pub confirmed_by_user_id : Option ℕ
  pub set_paid_at : Bool

pub data IdempotencyClaim : Type 0 where
  claimed conflict : IdempotencyClaim
  replay : ℕ → IdempotencyClaim

pub data ProviderEventOutcome : Type 0 where
  event_succeeded event_failed : ProviderEventOutcome

pub record ProviderEvent : Type 0 where
  pub event_id : ℕ
  pub provider_reference : ℕ
  pub internal_reference : ℕ
  pub outcome : ProviderEventOutcome
  pub amount : ℕ
  pub currency : ℕ

pub record WebhookRequest : Type 0 where
  pub raw_body : List ℕ
  pub headers : List (ℕ × ℕ)

-- The port that an adapter implements; `none` stands for the throw of `verifyAndParse`.
pub record PaymentProvider : Type 0 where
  pub name : ℕ
  pub handles_method : PaymentMethod → Bool
  pub initiate : PaymentMethod → ℕ → ℕ → ℕ → ℕ
  pub verify_and_parse : WebhookRequest → Option ProviderEvent
