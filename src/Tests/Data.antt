-- ===== src/Tests/Data.antt =====
-- The data of the tests: one tenant with a provider, a plan and some subscriptions.
use billax.Prelude.{true, false, none, some, [], ◌∷◌, pos, codes, ascii}
use billax.Result.{Result, ok, err}
use billax.Errors.{err_not_found, err_not_supported, Error, sentinel}
use billax.Calendar.{Time}
use billax.Provider.{
  Config, ChargeStatus, charge_succeeded, ChargeResult, PaymentProvider, ProviderAdapter,
}
use billax.Plan.{month, Plan}
use billax.Payment.{CreatePaymentInput}
use billax.Tenant.{Tenant}
use billax.Subscription.{active, Subscription}
use billax.Subscription.Lifecycle.{LifecycleRunner}
use billax.World.{Row, World}

-- 2024-10-04
abbrev pub a_time : Time
a_time = record { day = 20000; nanos = 0 }

abbrev pub gold : Plan
gold = record {
  id = 3;
  tenant_id = 7;
  slug = codes "gold";
  name = codes "Gold";
  description = [];
  amount = pos 990;
  currency = codes "USD";
  interval = month;
  interval_count = pos 1;
  trial_days = pos 14;
  is_active = true;
  created_at = a_time;
  updated_at = a_time;
}

abbrev pub base_sub : Subscription
base_sub = record {
  id = 5;
  tenant_id = 7;
  plan_id = none;
  amount = pos 1500;
  currency = codes "ARS";
  interval = month;
  interval_count = pos 1;
  subscription_key = 40;
  external_customer_id = [];
  status = active;
  provider_name = codes "mock";
  provider_subscription_id = [];
  current_period_start = record { day = 19970; nanos = 0 };
  current_period_end = a_time;
  trial_ends_at = none;
  canceled_at = none;
  cancel_at_period_end = false;
  tags = some [];
  metadata = none;
  payments = [];
  created_at = a_time;
  updated_at = a_time;
}

abbrev pub acme : Tenant
acme = record {
  id = 7;
  name = codes "Acme";
  slug = codes "acme";
  email = codes "ops@acme.example";
  is_active = true;
  default_provider_name = codes "mercadopago";
  created_at = a_time;
  updated_at = a_time;
}

abbrev pub row_with : Subscription → Row
row_with s = record { sub = s; key = codes "k1" }

abbrev pub world_with : Subscription → World
world_with s = record {
  subs = row_with s ∷ [];
  plans = gold ∷ [];
  payments = [];
  charges = [];
  tenants = acme ∷ [];
  api_keys = [];
  credentials = [];
  users = [];
  now = a_time;
  fresh = 100;
  faults = [];
}

abbrev pub a_world : World
a_world = world_with base_sub

abbrev pub answered : ChargeStatus → ChargeResult
answered status = record {
  provider_charge_id = codes "ch_1";
  status = status;
  failure_reason = [];
  payment_method = none;
  raw_response = codes "{}";
}

-- A provider that answers each charge with the same result.
abbrev pub provider_with : Result ChargeResult → PaymentProvider
provider_with answer = record {
  provider_name = codes "mock";
  capabilities = record { plans = true; pay_per_use = false };
  create_charge = λ n req. answer;
  refund_charge = λ id amount. err (sentinel err_not_supported);
  handle_webhook = λ payload signature. err (sentinel err_not_supported);
  validate_config = λ config. ok tt;
}

abbrev pub adapter_with : Result ChargeResult → ProviderAdapter
adapter_with answer = record { registry = provider_with answer ∷ []; yaml_caps = [] }

abbrev pub an_adapter : ProviderAdapter
an_adapter = adapter_with (ok (answered charge_succeeded))

abbrev pub no_credentials : Error
no_credentials = sentinel err_not_found

abbrev pub runner_with : ProviderAdapter → Result Config → LifecycleRunner
runner_with a config = record {
  unicode = ascii;
  adapter = a;
  validate_and_fetch = λ tenant name. config;
  uuid_text = λ id. codes "uuid";
  grace_days = pos 3;
}

abbrev pub a_payment_input : CreatePaymentInput
a_payment_input = record {
  subscription_id = 5;
  idempotency_key = codes "order-1";
  provider_name = codes "mock";
  amount = pos 1500;
  currency = codes "ARS";
  description = [];
  external_customer_id = [];
  provider_config = [];
  metadata = [];
}
