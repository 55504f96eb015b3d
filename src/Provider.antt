-- ===== src/Provider.antt =====
-- internal/provider: the types of provider.go and capabilities.go, the registry of registry.go, and
-- the adapter of adapter.go. A payment provider is a record of functions; `create_charge` also takes
-- the number of charges made before, so that a provider may answer two equal requests differently.
pub mod Laws
use billax.Prelude.{
  ℕ, Bool, true, false, Option, none, some, List, [], ◌∷◌, ◌++◌, if◌then◌else◌, ℤ, Text, codes,
  text_eq, quote, ascii,
}
use billax.Errors.{err_provider_not_found, sentinel, wrap}
use billax.Result.{Result, ok, err, wrap_err, ◌>>=◌, ◌>>◌}

-- A `map[string]string`.
abbrev pub Config : Type 0
Config = List (Text × Text)

-- The Go expression `config[key]`, with "" for a key that is missing.
unfoldable pub config_value : Config → Text → Text
unfolding text_eq
config_value [] key = []
config_value ((k, v) ∷ rest) key =
    let later = config_value rest key in if text_eq k key then v else later

pub record ProviderCapabilities : Type 0 where
  pub plans : Bool
  pub pay_per_use : Bool

pub record ChargeRequest : Type 0 where
  pub amount : ℤ
  pub currency : Text
  pub description : Text
  pub external_customer_id : Text
  pub idempotency_key : Text
  pub config : Config
  pub metadata : Config

-- A string type of the source, with three constants.
pub data ChargeStatus : Type 0 where
  charge_pending charge_succeeded charge_failed : ChargeStatus
  other_charge_status : Text → ChargeStatus

pub record PaymentMethodInfo : Type 0 where
  pub method_type : Text
  pub brand : Text
  pub last_four : Text
  pub bank : Text

pub record ChargeResult : Type 0 where
  pub provider_charge_id : Text
  pub status : ChargeStatus
  pub failure_reason : Text
  pub payment_method : Option PaymentMethodInfo
  pub raw_response : Text

pub record RefundResult : Type 0 where
  pub provider_refund_id : Text
  pub status : ChargeStatus
  pub raw_response : Text

pub record WebhookEvent : Type 0 where
  pub provider_name : Text
  pub event_type : Text
  pub provider_charge_id : Text
  pub status : ChargeStatus
  pub raw_payload : Text

pub record PaymentProvider : Type 0 where
  pub provider_name : Text
  pub capabilities : ProviderCapabilities
  pub create_charge : ℕ → ChargeRequest → Result ChargeResult
  pub refund_charge : Text → ℤ → Result RefundResult
  pub handle_webhook : Text → Text → Result WebhookEvent
  pub validate_config : Config → Result (Unit {0})

abbrev pub Registry : Type 0
Registry = List PaymentProvider

abbrev pub new_registry : Registry
new_registry = []

unfoldable pub find_provider : Registry → Text → Option PaymentProvider
find_provider [] name = none
find_provider (p ∷ ps) name =
    let rest = find_provider ps name in if text_eq p.provider_name name then some p else rest

-- `Register`; `none` is the panic on a name that is taken.
unfoldable pub register : Registry → PaymentProvider → Option Registry
unfolding find_provider
register r p = elim (find_provider r p.provider_name) [ none ↦ some (p ∷ r) | some taken ↦ none ]

-- `Lookup`
unfoldable pub lookup_provider : Registry → Text → Result PaymentProvider
unfolding find_provider
lookup_provider r name = elim (find_provider r name) [
  | none ↦ err (wrap (codes "provider " ++ quote ascii name) (sentinel err_provider_not_found))
  | some p ↦ ok p
]

-- The capabilities that providers.yml gives, by provider name.
abbrev pub CapabilitiesConfig : Type 0
CapabilitiesConfig = List (Text × ProviderCapabilities)

unfoldable pub find_capabilities : CapabilitiesConfig → Text → Option ProviderCapabilities
find_capabilities [] name = none
find_capabilities ((n, c) ∷ rest) name =
    let later = find_capabilities rest name in if text_eq n name then some c else later

abbrev pub default_capabilities : ProviderCapabilities
default_capabilities = record { plans = true; pay_per_use = false }

pub record ProviderAdapter : Type 0 where
  pub registry : Registry
  pub yaml_caps : CapabilitiesConfig

abbrev via : Text → Text → Text
via call name = codes "adapter." ++ (call ++ (codes " via " ++ name))

-- `CreateCharge`; the number is that of the charges made before.
unfoldable pub create_charge : ProviderAdapter → ℕ → Text → ChargeRequest → Result ChargeResult
create_charge a n name req = do
  p ← lookup_provider a.registry name
  wrap_err (via (codes "CreateCharge") name) (p.create_charge n req)

-- `RefundCharge`: the `config` argument is not passed on.
pub refund_charge : ProviderAdapter → Text → Text → ℤ → Config → Result RefundResult
refund_charge a name charge_id amount config = do
  p ← lookup_provider a.registry name
  wrap_err (via (codes "RefundCharge") name) (p.refund_charge charge_id amount)

-- `HandleWebhook`
unfoldable pub handle_webhook : ProviderAdapter → Text → Text → Text → Result WebhookEvent
handle_webhook a name payload signature = do
  p ← lookup_provider a.registry name
  wrap_err (via (codes "HandleWebhook") name) (p.handle_webhook payload signature)

-- `ValidateConfig`
pub validate_config : ProviderAdapter → Text → Config → Result (Unit {0})
validate_config a name config = do
  p ← lookup_provider a.registry name
  wrap_err (via (codes "ValidateConfig") name) (p.validate_config config)

abbrev gated : ProviderCapabilities → Option ProviderCapabilities → ProviderCapabilities
gated caps none = caps
gated caps (some entry) = entry

-- `GetCapabilities`
unfoldable pub get_capabilities : ProviderAdapter → Text → ProviderCapabilities
get_capabilities a name = elim (lookup_provider a.registry name) [
  | err e ↦ default_capabilities
  | ok p ↦ gated p.capabilities (find_capabilities a.yaml_caps name)
]
