-- ===== src/Payment/Service/Outcomes.antt =====
-- What `CreatePayment` returns and stores when the database answers.
use billax.Prelude.{
  ℕ, ◌+◌, ◌≡◌, refl, inl, inr, arith, Option-cases, true, not, none, List, [], ◌∷◌, ◌++◌, ◌==◌,
  length, find, Text, Unicode,
}
use billax.Payment.Repository.Outcomes.{inserted, create-new}
use billax.Result.{ok}
use billax.Provider.{
  ChargeRequest, ChargeResult, ChargeStatus, charge_pending, charge_succeeded, charge_failed,
  other_charge_status, find_provider, lookup_provider, ProviderAdapter, create_charge,
}
use billax.Payment.{PaymentStatus, pending, succeeded, failed, Payment, CreatePaymentInput}
use billax.Payment.Repository.{is_keyed, stored_method, references}
use billax.Payment.Service.{
  validate_payment, convert_charge_status, sent, payment_of, create_payment,
}
use billax.World.{World}

-- The status that a payment is to have for that of its charge: a charge that neither succeeded nor
-- failed leaves it pending.
abbrev pub status_due : ChargeStatus → PaymentStatus
status_due charge_succeeded = succeeded
status_due charge_failed = failed
status_due charge_pending = pending
status_due (other_charge_status t) = pending

-- The charge that a provider is to be asked for.
abbrev pub charge_due : CreatePaymentInput → ChargeRequest
charge_due input = record {
  amount = input.amount;
  currency = input.currency;
  description = input.description;
  external_customer_id = input.external_customer_id;
  idempotency_key = input.idempotency_key;
  config = input.provider_config;
  metadata = input.metadata;
}

-- The row that is to be stored for an accepted charge, field by field; the uuid before it went to the
-- value that the INSERT does not use.
unfoldable pub stored_payment : ℕ → CreatePaymentInput → ChargeResult → World → Payment
stored_payment tenant input result w = record {
  id = w.fresh + 1;
  tenant_id = tenant;
  subscription_id = input.subscription_id;
  idempotency_key = input.idempotency_key;
  provider_name = input.provider_name;
  provider_charge_id = result.provider_charge_id;
  amount = input.amount;
  currency = input.currency;
  status = status_due result.status;
  failure_reason = result.failure_reason;
  payment_method = stored_method result.payment_method;
  provider_response = result.raw_response;
  created_at = w.now;
  updated_at = w.now;
}

convert_charge_status_lem :
    (status : ChargeStatus) → convert_charge_status status ≡ status_due status
unfolding convert_charge_status
convert_charge_status_lem charge_pending = refl
convert_charge_status_lem charge_succeeded = refl
convert_charge_status_lem charge_failed = refl
convert_charge_status_lem (other_charge_status t) = refl

inserted-payment_of :
    (tenant : ℕ) (input : CreatePaymentInput) (result : ChargeResult) (w v : World)
    → v.fresh ≡ w.fresh + 1
    → v.now ≡ w.now
    → inserted (payment_of tenant w.fresh input result) v ≡ stored_payment tenant input result w
unfolding inserted payment_of stored_payment
inserted-payment_of tenant input result w v counted clock =
    rw (counted, clock, convert_charge_status_lem result.status) refl

-- A charge that came back was sent to a provider.
create_charge-sent :
    (a : ProviderAdapter) (n : ℕ) (name : Text) (req : ChargeRequest) (result : ChargeResult)
    → create_charge a n name req ≡ ok result
    → sent (find_provider a.registry name) name req ≡ (name, req) ∷ []
unfolding create_charge lookup_provider
create_charge-sent a n name req result h = elim (Option-cases (find_provider a.registry name)) [
  | inl missing ↦ absurd (ground (arith, missing, h))
  | inr (p, there) ↦ rw there refl
]

-- A request that passes the checks, for a registered provider that returns a result.
pub record IsAccepted (u : Unicode) (a : ProviderAdapter) (tenant : ℕ) (input : CreatePaymentInput)
    (result : ChargeResult) (w : World) : Type 0 where
  pub has_tenant : not (tenant == 0) ≡ true
  pub valid : validate_payment u input ≡ ok tt
  pub charged :
      create_charge a (length w.charges) input.provider_name (charge_due input) ≡ ok result
  pub up : w.faults ≡ []

module _ (u : Unicode) (a : ProviderAdapter) (tenant : ℕ) (input : CreatePaymentInput)
    (w : World) where
  -- The charges after the call of the provider.
  abbrev pub charged_with : List (Text × ChargeRequest)
  charged_with = w.charges ++ (input.provider_name, charge_due input) ∷ []

  -- For a request that passes the checks, of an existing subscription, with a registered
  -- provider that returns a result and a database that answers, under a key that is new: one payment
  -- is stored and returned as created, with the fields of the request and of the charge, `succeeded`
  -- or `failed` as the charge is and else `pending`; one charge, with the fields of the request, is
  -- sent.
  pub create_payment_new :
      {result : ChargeResult}
      → IsAccepted u a tenant input result w
      → find (is_keyed tenant input.idempotency_key) w.payments ≡ none
      → references input.subscription_id w.subs ≡ true
      → create_payment u a tenant input w ≡ (
        ok (stored_payment tenant input result w, true),
        record w {
          payments = w.payments ++ stored_payment tenant input result w ∷ [];
          charges = charged_with;
          fresh = w.fresh + 1 + 1;
        },
      )
  unfolding create_payment
  create_payment_new {result} h new there =
      let v = record w { charges = charged_with; fresh = w.fresh + 1 } in
      rw
        (
          ← inserted-payment_of tenant input result w v refl refl,
          h.has_tenant,
          h.valid,
          h.charged,
          create_charge-sent a (length w.charges) input.provider_name (charge_due input) result
              h.charged,
          create-new (payment_of tenant w.fresh input result) v h.up new there,
        )
        refl
