-- ===== src/Tests/Subscriptions.antt =====
-- The subscription service, its transitions and its tags.
use billax.Prelude.{
  ◌≡◌, refl, true, false, none, some, List, [], ◌∷◌, pos, Text, codes, text_eq, is_space, trim_left,
  trim_space, fold_case, ascii,
}
use billax.Result.{ok, err}
use billax.Validation.{
  add_all, err_of, non_empty, max_length, min_int, positive_int, contains, iso_currency, valid_enum,
}
use billax.Provider.{find_provider, lookup_provider, find_capabilities, get_capabilities}
use billax.Plan.{month}
use billax.Subscription.{
  active, canceled, Subscription, CreateSubscriptionInput, UpdateSubscriptionInput,
}
use billax.Subscription.Transitions.{forbidden, transition_error, Reaches, all-Reaches}
use billax.Subscription.Tags.{normalize_from, tag_checks, validate_tags, normalize_tags}
use billax.Subscription.Repository.{row_ok}
use billax.Subscription.Service.{
  terms_of_plan, terms_of_input, validate_planless, validate_customer, can_bill_plan,
  subscription_of, create, amount_check, update,
}
use billax.Subscription.Service.Outcomes.{
  IsAccepted, row_due, planless_due, plan_due, create_planless, create_from_plan, update-forbidden,
}
use billax.Tests.Data.{a_time, gold, base_sub, row_with, world_with, a_world, an_adapter}

all-Reaches_example : Reaches canceled active
all-Reaches_example = all-Reaches canceled active

abbrev some_tags : List Text
some_tags = codes " Gold" ∷ codes "gold" ∷ codes "vip" ∷ []

abbrev planless : CreateSubscriptionInput
planless = record {
  plan_slug = [];
  amount = pos 1500;
  currency = codes "ARS";
  interval = month;
  interval_count = pos 1;
  external_customer_id = codes "c1";
  provider_name = codes "mock";
  provider_subscription_id = [];
  tags = codes "vip" ∷ [];
  metadata = none;
  idempotency_key = codes "k2";
}

abbrev planned : CreateSubscriptionInput
planned = record planless { plan_slug = codes "gold" }

planless_accepted : IsAccepted 7 planless a_world
unfolding validate_customer validate_tags tag_checks err_of add_all max_length text_eq trim_space
    trim_left is_space
planless_accepted = record { has_tenant = refl; customer = refl; tags = refl; up = refl }

planned_accepted : IsAccepted 7 planned a_world
unfolding validate_customer validate_tags tag_checks err_of add_all max_length text_eq trim_space
    trim_left is_space
planned_accepted = record { has_tenant = refl; customer = refl; tags = refl; up = refl }

create_planless_example : create ascii an_adapter 7 planless a_world ≡ (
  ok ((row_due ascii 7 (planless_due planless) planless a_world).sub, true),
  record a_world {
    subs = row_with base_sub ∷ row_due ascii 7 (planless_due planless) planless a_world ∷ [];
    fresh = 102;
  },
)
unfolding text_eq validate_planless err_of add_all positive_int non_empty iso_currency valid_enum
    min_int row_ok subscription_of terms_of_input normalize_tags normalize_from fold_case contains
create_planless_example =
    create_planless ascii an_adapter 7 planless a_world planless_accepted refl refl refl refl

create_from_plan_example : create ascii an_adapter 7 planned a_world ≡ (
  ok ((row_due ascii 7 (plan_due a_time gold) planned a_world).sub, true),
  record a_world {
    subs = row_with base_sub ∷ row_due ascii 7 (plan_due a_time gold) planned a_world ∷ [];
    fresh = 102;
  },
)
unfolding text_eq can_bill_plan get_capabilities lookup_provider find_provider find_capabilities
    row_ok subscription_of terms_of_plan normalize_tags normalize_from fold_case contains
create_from_plan_example =
    create_from_plan ascii an_adapter 7 planned a_world planned_accepted refl refl refl refl refl
      refl

abbrev over_sub : Subscription
over_sub = record base_sub { status = canceled }

abbrev revive : UpdateSubscriptionInput
revive = record {
  status = some active;
  cancel_at_period_end = none;
  amount = none;
  tags = none;
  tags_provided = false;
  metadata = none;
}

update-forbidden_example :
    update ascii an_adapter 5 revive (world_with over_sub)
    ≡ (err (transition_error canceled active), world_with over_sub)
unfolding amount_check forbidden
update-forbidden_example =
    update-forbidden ascii an_adapter 5 revive (world_with over_sub) active refl refl refl refl refl
