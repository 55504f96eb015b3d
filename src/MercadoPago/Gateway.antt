-- ===== src/MercadoPago/Gateway.antt =====
-- internal/provider/mercadopago/provider.go: the connector as a payment provider. Log lines are left
-- out. `HandleWebhook` stands in MercadoPago/Signature.
use billax.Prelude.{
  ℕ, true, false, Option, none, some, List, [], ◌∷◌, ◌++◌, if◌then◌else◌, ℤ, Text, codes, text_eq,
  quote, ascii,
}
use billax.Errors.{
  Sentinel, err_invalid_input, err_provider_error, err_not_supported, err_provider_auth_failure,
  err_provider_rejected, err_provider_rate_limited, ErrorCategory, auth_failure, rejected,
  rate_limited, validation_error, unknown, Error, sentinel, domain, provider, wrap,
}
use billax.Result.{Result, ok, err, wrap_err}
use billax.Provider.{
  config_value, Config, ChargeRequest, ChargeResult, RefundResult, PaymentProvider,
}
use billax.MercadoPago.{MpPayment, build_create_payment_request, map_to_charge_result}
use billax.MercadoPago.Signature
use billax.MercadoPago.Client.{Network, Wire, Traced}
use billax.MercadoPago.Client
use billax.MercadoPago.Signature.{MpWebhookPayload}

-- `errors.As(err, &provErr)`: the category and the message of the provider.
unfoldable pub as_provider_error : Error → Option (ErrorCategory × Text)
as_provider_error (provider category status code message) = some (category, message)
as_provider_error (wrap prefix e) = as_provider_error e
as_provider_error (domain code message status cause) = as_provider_error cause
as_provider_error _ = none

abbrev failed : Sentinel → Error
failed s = wrap (codes "mercadopago.CreateCharge") (sentinel s)

abbrev pub no_token : Error
no_token =
    wrap (codes "mercadopago.CreateCharge: access_token is required") (sentinel err_invalid_input)

-- The switch of `CreateCharge` on the category of an error of the client.
unfoldable pub classify : Option (ErrorCategory × Text) → Error
classify (some (auth_failure, message)) = failed err_provider_auth_failure
classify (some (rejected, message)) =
    domain (codes "provider_rejected") message 422 (sentinel err_provider_rejected)
classify (some (rate_limited, message)) = failed err_provider_rate_limited
classify (some (validation_error, message)) = failed err_invalid_input
classify (some (unknown, message)) = failed err_provider_error
classify none = failed err_provider_error

-- `RequiredConfig`
abbrev pub required_config : List Text
required_config = codes "access_token" ∷ codes "webhook_secret" ∷ []

unfoldable pub require_all : Config → List Text → Result (Unit {0})
unfolding config_value text_eq quote
require_all config [] = ok tt
require_all config (key ∷ keys) =
    let rest = require_all config keys in
    if text_eq (config_value config key) []
    then err (
        wrap (codes "mercadopago: missing required config key " ++ quote ascii key)
          (sentinel err_invalid_input))
    else rest

-- `ValidateConfig`
unfoldable pub validate_config : Config → Result (Unit {0})
unfolding require_all
validate_config config = require_all config required_config

-- `RefundCharge`
pub refund_charge : Text → ℤ → Result RefundResult
refund_charge charge_id amount = err (
    wrap
      (codes
        "mercadopago.RefundCharge: not implemented — the PaymentProvider interface does not propagate per-call credentials to this method")
      (sentinel err_not_supported))

module _ (wire : Wire) where
  -- What `CreateCharge` makes of the answer of the client.
  unfoldable pub finish_charge : Result MpPayment → Result ChargeResult
  unfolding classify as_provider_error map_to_charge_result
  finish_charge (err e) = err (classify (as_provider_error e))
  finish_charge (ok p) =
      wrap_err (codes "mercadopago.CreateCharge: mapping result")
        (map_to_charge_result wire.marshal_payment p)

  -- `CreateCharge` with the access token
  unfoldable pub charge_with : Network → ChargeRequest → Text → Traced ChargeResult
  unfolding finish_charge Client.create_payment
  charge_with net req [] = (err no_token, [])
  charge_with net req (c ∷ token) =
      let mp_req = build_create_payment_request req in
      let (r, steps) = Client.create_payment wire net mp_req (c ∷ token) req.idempotency_key in
      (finish_charge r, steps)

  -- `CreateCharge`, with the waits and requests of the client
  unfoldable pub create_charge : Network → ChargeRequest → Traced ChargeResult
  unfolding charge_with config_value text_eq
  create_charge net req = charge_with net req (config_value req.config (codes "access_token"))

-- `Provider`, in the terms of internal/provider: each charge meets the network as it is then.
abbrev pub mercado_pago :
    Wire → (Text → Text → Text) → (Text → Result MpWebhookPayload) → (ℕ → Network) → PaymentProvider
mercado_pago wire hmac_hex unmarshal nets = record {
  provider_name = codes "mercadopago";
  capabilities = record { plans = true; pay_per_use = false };
  create_charge = λ n req. let (r, steps) = create_charge wire (nets n) req in r;
  refund_charge = refund_charge;
  handle_webhook = Signature.handle_webhook hmac_hex unmarshal;
  validate_config = validate_config;
}
