-- ===== src/Payment/Service/Safety.antt =====
-- What `CreatePayment` never does, whatever the database and the providers answer.
use billax.Prelude.{ℕ, ◌≡◌, ◌⊎◌, inl, inr, ◌==◌, Bool-cases, Text, Unicode}
use billax.Errors.{Error}
use billax.Result.{err}
use billax.Provider.{ChargeRequest, ProviderAdapter}
use billax.Payment.{CreatePaymentInput}
use billax.Payment.Repository.Unique.{UniqueKeys, create-UniqueKeys}
use billax.Payment.Service.{validate_payment, send_charge, create_payment}
use billax.World.{World, new_uuid}
use billax.World.Preserves.{Preserves, preserves_rules}

abbrev Unique : World → Type 0
Unique w = UniqueKeys w.payments

new_uuid-Unique : Preserves Unique new_uuid
unfolding new_uuid
new_uuid-Unique = record { at = λ w u. u }

send_charge-Unique :
    (a : ProviderAdapter) (name : Text) (req : ChargeRequest)
    → Preserves Unique (send_charge a name req)
unfolding send_charge
send_charge-Unique a name req = record { at = λ w u. u }

steps-Unique :
    (u : Unicode) (a : ProviderAdapter) (tenant : ℕ) (input : CreatePaymentInput)
    → Preserves Unique (create_payment u a tenant input)
unfolding create_payment
steps-Unique u a tenant input =
    search (preserves_rules, send_charge-Unique, new_uuid-Unique, create-UniqueKeys) depth 9

-- `CreatePayment` keeps at most one payment for each tenant and idempotency key, whether it succeeds or
-- fails.
pub create_payment-UniqueKeys :
    (u : Unicode) (a : ProviderAdapter) (tenant : ℕ) (input : CreatePaymentInput) (w : World)
    → UniqueKeys w.payments
    → UniqueKeys (create_payment u a tenant input w).1.payments
create_payment-UniqueKeys u a tenant input w h = (steps-Unique u a tenant input).at w h

-- A request without a tenant, or one that fails the validation, changes nothing: no provider is called
-- and no statement is sent.
pub create_payment_rejected :
    (u : Unicode) (a : ProviderAdapter) (tenant : ℕ) (input : CreatePaymentInput) (w : World)
    → (tenant ≡ 0) ⊎ ((e : Error) × (validate_payment u input ≡ err e))
    → (create_payment u a tenant input w).1 ≡ w
unfolding create_payment
create_payment_rejected u a tenant input w (inl none') = rw none'
create_payment_rejected u a tenant input w (inr (e, bad)) = elim (Bool-cases (tenant == 0)) [
  | inl none' ↦ rw none'
  | inr some' ↦ rw (some', bad)
]
