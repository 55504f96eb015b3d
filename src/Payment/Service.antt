-- ===== src/Payment/Service.antt =====
-- internal/payment/service.go: `CreatePayment`, with its validation, the call of the provider adapter,
-- and the idempotent insert. The tenant is that of the context; 0 is `uuid.Nil`, no tenant. The
-- counter of the metric is left out.
pub mod Frame
pub mod Outcomes
pub mod Safety
use billax.Prelude.{
  ℕ, Bool, not, ◌||◌, Option, none, some, List, [], ◌∷◌, ◌++◌, ◌==◌, if◌then◌else◌, length, Text,
  codes, text_eq, trim_space, Unicode,
}
use billax.Calendar.{zero_time}
use billax.Errors.{err_missing_tenant_id, FieldError, sentinel}
use billax.Result.{Result}
use billax.Validation.{add_all, err_of, field_error, non_empty, positive_int, iso_currency}
use billax.Provider.{
  Config, ChargeRequest, ChargeStatus, charge_pending, charge_succeeded, charge_failed,
  other_charge_status, ChargeResult, PaymentProvider, find_provider, ProviderAdapter, create_charge,
}
use billax.Payment.{PaymentStatus, pending, succeeded, failed, Payment, CreatePaymentInput}
use billax.Payment.Repository
use billax.World.{Act, pure, lift, ◌>>=◌, ◌>>◌, check, wrapped, new_uuid}

-- `convertChargeStatus`
unfoldable pub convert_charge_status : ChargeStatus → PaymentStatus
convert_charge_status charge_pending = pending
convert_charge_status charge_succeeded = succeeded
convert_charge_status charge_failed = failed
convert_charge_status (other_charge_status t) = pending

abbrev is_blank : Text → Bool
is_blank t = text_eq (trim_space t) []

-- The loop over the provider configuration reports the first blank key or value, and stops.
abbrev config_check : Config → Option FieldError
config_check [] = none
config_check ((k, v) ∷ rest) =
    let later = config_check rest in
    if is_blank k || is_blank v
    then some (
        field_error (codes "provider_config")
          (codes "config keys and values must be non-empty strings"))
    else later

abbrev pub currency_check : Unicode → Text → Option FieldError
currency_check u currency =
    if text_eq currency [] then none else iso_currency u (codes "currency") currency

-- The validation of `CreatePayment`.
unfoldable pub validate_payment : Unicode → CreatePaymentInput → Result (Unit {0})
unfolding text_eq
validate_payment u input = err_of (
    add_all [] (
      non_empty (codes "idempotency_key") input.idempotency_key
      ∷ non_empty (codes "provider_name") input.provider_name
      ∷ positive_int (codes "amount") input.amount
      ∷ currency_check u input.currency
      ∷ config_check input.provider_config
      ∷ []))

unfoldable pub charge_request : CreatePaymentInput → ChargeRequest
charge_request input = record {
  amount = input.amount;
  currency = input.currency;
  description = input.description;
  external_customer_id = input.external_customer_id;
  idempotency_key = input.idempotency_key;
  config = input.provider_config;
  metadata = input.metadata;
}

-- A registered provider is called, which is recorded whether it accepts the charge or not.
abbrev pub sent : Option PaymentProvider → Text → ChargeRequest → List (Text × ChargeRequest)
sent none name req = []
sent (some p) name req = (name, req) ∷ []

unfoldable pub send_charge : ProviderAdapter → Text → ChargeRequest → Act ChargeResult
send_charge a name req w = (
  create_charge a (length w.charges) name req,
  record w { charges = w.charges ++ sent (find_provider a.registry name) name req },
)

-- The times are left at Go's zero value; the database sets them.
unfoldable pub payment_of : ℕ → ℕ → CreatePaymentInput → ChargeResult → Payment
unfolding convert_charge_status
payment_of tenant id input r = record {
  id = id;
  tenant_id = tenant;
  subscription_id = input.subscription_id;
  idempotency_key = input.idempotency_key;
  provider_name = input.provider_name;
  provider_charge_id = r.provider_charge_id;
  amount = input.amount;
  currency = input.currency;
  status = convert_charge_status r.status;
  failure_reason = r.failure_reason;
  payment_method = r.payment_method;
  provider_response = r.raw_response;
  created_at = zero_time;
  updated_at = zero_time;
}

-- `CreatePayment`
unfoldable pub create_payment :
    Unicode → ProviderAdapter → ℕ → CreatePaymentInput → Act (Payment × Bool)
unfolding new_uuid send_charge payment_of charge_request
create_payment u a tenant input = do
  check (not (tenant == 0)) (sentinel err_missing_tenant_id)
  lift (validate_payment u input)
  result ←
      wrapped (codes "provider charge") (send_charge a input.provider_name (charge_request input))
  id ← new_uuid
  made ← wrapped (codes "creating payment") (Repository.create (payment_of tenant id input result))
  pure (made.payment, made.created)
