-- ===== src/Payment/Service/Frame.antt =====
-- `CreatePayment` changes no subscription.
use billax.Prelude.{ℕ, refl, Text, Unicode}
use billax.Provider.{ChargeRequest, ProviderAdapter}
use billax.Payment.{CreatePaymentInput}
use billax.Payment.Repository.Frame.{create-subs}
use billax.Payment.Service.{send_charge, create_payment}
use billax.World.{new_uuid}
use billax.World.Keeps.{Keeps, keeps_rules}

new_uuid-subs : Keeps (λ w. w.subs) new_uuid
unfolding new_uuid
new_uuid-subs = record { at = λ w. refl }

send_charge-subs :
    (a : ProviderAdapter) (name : Text) (req : ChargeRequest)
    → Keeps (λ w. w.subs) (send_charge a name req)
unfolding send_charge
send_charge-subs a name req = record { at = λ w. refl }

pub create_payment-subs :
    (u : Unicode) (a : ProviderAdapter) (tenant : ℕ) (input : CreatePaymentInput)
    → Keeps (λ w. w.subs) (create_payment u a tenant input)
unfolding create_payment
create_payment-subs u a tenant input =
    search (keeps_rules, send_charge-subs, new_uuid-subs, create-subs) depth 9
