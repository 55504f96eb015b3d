-- ===== src/Tests/Payments.antt =====
-- `CreatePayment`.
use billax.Prelude.{◌≡◌, refl, true, some, pos, codes, [], ◌∷◌, text_eq, ascii}
use billax.Validation.{add_all, err_of, non_empty, positive_int, iso_currency}
use billax.Result.{ok}
use billax.Provider.{charge_succeeded, find_provider, lookup_provider, create_charge}
use billax.Payment.{succeeded, Payment}
use billax.Payment.Repository.Unique.{UniqueKeys}
use billax.Payment.Service.{validate_payment, create_payment}
use billax.Payment.Service.Outcomes.{stored_payment, IsAccepted, charged_with, create_payment_new}
use billax.Payment.Service.Safety.{create_payment-UniqueKeys}
use billax.Plan.List.{decode_cursor}
use billax.Payment.List.{
  ListPaymentsInput, ListPaymentsResult, list_payments, list_payment_rows, rows_of, is_wanted,
  sort_payments, insert_payment,
}
use billax.Payment.List.Pages.{IsPage, list_payments-IsPage}
use billax.Tests.Plans.{plain_codecs}
use billax.World.{query, World}
use billax.Tests.Data.{a_world, answered, an_adapter, a_payment_input}

accepted : IsAccepted ascii an_adapter 7 a_payment_input (answered charge_succeeded) a_world
unfolding validate_payment create_charge lookup_provider find_provider err_of add_all iso_currency
    positive_int non_empty
accepted = record { has_tenant = refl; valid = refl; charged = refl; up = refl }

abbrev first_payment : Payment
first_payment = stored_payment 7 a_payment_input (answered charge_succeeded) a_world

create_payment_new_example : create_payment ascii an_adapter 7 a_payment_input a_world ≡ (
  ok (first_payment, true),
  record a_world {
    payments = first_payment ∷ [];
    charges = charged_with ascii an_adapter 7 a_payment_input a_world;
    fresh = 102;
  },
)
create_payment_new_example =
    create_payment_new ascii an_adapter 7 a_payment_input a_world accepted refl refl

abbrev paid_world : World
paid_world = record a_world { payments = first_payment ∷ [] }

create_payment-UniqueKeys_example :
    UniqueKeys (create_payment ascii an_adapter 7 a_payment_input paid_world).1.payments
create_payment-UniqueKeys_example =
    create_payment-UniqueKeys ascii an_adapter 7 a_payment_input paid_world (tt, tt)

-- Two payments of two tenants.
abbrev listed_world : World
listed_world = record a_world {
  payments = first_payment ∷ record first_payment { id = 99; tenant_id = 8 } ∷ [];
}

abbrev any_payments : ListPaymentsInput
any_payments = record {
  provider_name = some (codes "mock");
  statuses = succeeded ∷ [];
  limit = pos 500;
  cursor = [];
}

abbrev first_page : ListPaymentsResult
first_page = record { payments = first_payment ∷ []; next_cursor = [] }

list_payments-IsPage_example : IsPage 7 any_payments listed_world.payments first_page
unfolding stored_payment
list_payments-IsPage_example =
    list_payments-IsPage plain_codecs 7 any_payments listed_world first_page (
      unfold list_payments list_payment_rows decode_cursor query rows_of is_wanted text_eq
        sort_payments insert_payment in
      refl)
