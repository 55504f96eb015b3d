-- ===== src/Payment.antt =====
-- internal/payment/model.go: payments and the input of the payment service. `Status` is a string type
-- of the source; every value that the program writes is one of its four constants.
pub mod Repository
pub mod Service
pub mod List
use billax.Prelude.{ℕ, Bool, Option, ℤ, Text}
use billax.Calendar.{Time}
use billax.Provider.{Config, PaymentMethodInfo}

pub data PaymentStatus : Type 0 where
  pending succeeded failed refunded : PaymentStatus

pub record Payment : Type 0 where
  pub id : ℕ
  pub tenant_id : ℕ
  pub subscription_id : ℕ
  pub idempotency_key : Text
  pub provider_name : Text
  pub provider_charge_id : Text
  pub amount : ℤ
  pub currency : Text
  pub status : PaymentStatus
  pub failure_reason : Text
  pub payment_method : Option PaymentMethodInfo
  pub provider_response : Text
  pub created_at : Time
  pub updated_at : Time

pub record CreatePaymentInput : Type 0 where
  pub subscription_id : ℕ
  pub idempotency_key : Text
  pub provider_name : Text
  pub amount : ℤ
  pub currency : Text
  pub description : Text
  pub external_customer_id : Text
  pub provider_config : Config
  pub metadata : Config

pub record CreatePaymentResult : Type 0 where
  pub payment : Payment
  pub created : Bool
