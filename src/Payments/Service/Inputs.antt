-- ===== src/Payments/Service/Inputs.antt =====
-- payments.service.ts: what the service is given by its environment and by a caller.
use voyagi.Prelude.{
  ℕ, ◌+◌, ◌*◌, Bool, ◌&&◌, List, [], ◌∷◌, Option, none, some, all, leb, length, if◌then◌else◌,
}
use voyagi.Identity.Identifier.{Text}
use voyagi.Store.Enums.{PaymentMethod}
use voyagi.Payments.Types.{PaymentProvider}

-- What the fingerprint of a creation is taken of; `company` is absent for a passenger's.
pub record CreatePayload : Type 0 where
  pub actor : ℕ
  pub company : Option ℕ
  pub booking_id : Text
  pub method : PaymentMethod

pub record PaymentsService : Type 0 where
  pub providers : List PaymentProvider
  pub generate_reference : ℕ → ℕ
  pub fingerprint : CreatePayload → ℕ
  pub now : ℕ
  pub app_now : ℕ
  pub audits : Bool

pub record CreatePaymentInput : Type 0 where
  pub booking_id : Text
  pub method : PaymentMethod

-- `/^[\x21-\x7E]{1,255}$/`, and the key as a value.
abbrev pub is_key_character : ℕ → Bool
is_key_character c = leb 0x21 c && leb c 0x7E

unfoldable pub is_idempotency_key : Text → Bool
is_idempotency_key key = leb 1 (length key) && leb (length key) 255 && all is_key_character key

abbrev pub key_value : ℕ → Text → ℕ
key_value acc [] = acc
key_value acc (c ∷ cs) = key_value (acc * 256 + c) cs

unfoldable pub key_of : Option Text → Option ℕ
unfolding is_idempotency_key
key_of none = none
key_of (some key) = if is_idempotency_key key then some (key_value 0 key) else none
