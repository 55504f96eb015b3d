-- ===== src/Subscription/Service.antt =====
-- internal/subscription/service.go, but for `List`. The tenant is that of the context; 0 is `uuid.Nil`.
pub mod Outcomes
use billax.Prelude.{
  ℕ, Bool, false, not, ◌||◌, Option, none, some, List, [], ◌∷◌, ◌==◌, if◌then◌else◌, ℤ, pos, ltb_ℤ,
  Text, codes, text_eq, Unicode,
}
use billax.Errors.{
  err_plan_not_active, err_missing_tenant_id, err_pay_per_use_not_supported,
  err_plans_not_supported, err_provider_required, sentinel,
}
use billax.Result.{Result, ok, err}
use billax.Calendar.{Time, zero_time, add_date}
use billax.Validation.{add_all, err_of, non_empty, max_length, min_int, positive_int, valid_enum}
use billax.Provider.{ProviderAdapter, get_capabilities}
use billax.Plan.{Interval, interval_text, Plan}
use billax.Payment.{Payment}
use billax.Subscription.{
  SubscriptionStatus, trialing, active, Subscription, CreateSubscriptionInput,
  UpdateSubscriptionInput,
}
use billax.Subscription.Periods.{calculate_period_end}
use billax.Subscription.Transitions.{validate_status_transition}
use billax.Subscription.Tags.{validate_tags, normalize_tags}
use billax.Payment.Service.{currency_check}
use billax.World.{Act, pure, lift, ◌>>=◌, ◌>>◌, check, wrapped, new_uuid}
use billax.Plan.Repository as PlanRepository
use billax.Payment.Repository.{list_by_subscription}
use billax.Subscription.Repository

-- The variables that the two paths of `Create` set.
pub record Terms : Type 0 where
  pub plan_id : Option ℕ
  pub amount : ℤ
  pub currency : Text
  pub interval : Interval
  pub interval_count : ℤ
  pub status : SubscriptionStatus
  pub trial_ends_at : Option Time

-- What is copied from a plan. With trial days the subscription begins as a trial.
unfoldable pub terms_of_plan : Time → Plan → Terms
terms_of_plan start p =
    let trial = ltb_ℤ (pos 0) p.trial_days in
    record {
      plan_id = some p.id;
      amount = p.amount;
      currency = p.currency;
      interval = p.interval;
      interval_count = p.interval_count;
      status = if trial then trialing else active;
      trial_ends_at = if trial then some (add_date start (pos 0) (pos 0) p.trial_days) else none;
    }

unfoldable pub terms_of_input : CreateSubscriptionInput → Terms
terms_of_input input = record {
  plan_id = none;
  amount = input.amount;
  currency = input.currency;
  interval = input.interval;
  interval_count = input.interval_count;
  status = active;
  trial_ends_at = none;
}

-- The validation of the planless path.
unfoldable pub validate_planless : Unicode → CreateSubscriptionInput → Result (Unit {0})
unfolding text_eq
validate_planless u input = err_of (
    add_all [] (
      positive_int (codes "amount") input.amount
      ∷ non_empty (codes "currency") input.currency
      ∷ currency_check u input.currency
      ∷ valid_enum (codes "interval") (interval_text input.interval)
          (codes "day" ∷ codes "week" ∷ codes "month" ∷ codes "year" ∷ [])
      ∷ min_int (codes "interval_count") input.interval_count (pos 1)
      ∷ []))

unfoldable pub validate_customer : Text → Result (Unit {0})
unfolding text_eq
validate_customer customer = err_of (
    add_all [] (
      (if text_eq customer [] then none else max_length (codes "external_customer_id") customer 255)
      ∷ []))

module _ (u : Unicode) (a : ProviderAdapter) where
  -- The provider can bill by plan, if one is named.
  unfoldable pub can_bill_plan : Text → Bool
  unfolding text_eq get_capabilities
  can_bill_plan name = text_eq name [] || (get_capabilities a name).plans

  -- The plan-based path.
  unfoldable pub plan_terms : ℕ → CreateSubscriptionInput → Time → Act Terms
  unfolding can_bill_plan terms_of_plan
  plan_terms tenant input start = do
    p ← wrapped (codes "resolving plan") (PlanRepository.get_by_slug tenant input.plan_slug)
    check p.is_active (sentinel err_plan_not_active)
    check (can_bill_plan input.provider_name) (sentinel err_plans_not_supported)
    pure (terms_of_plan start p)

  -- The planless path.
  unfoldable pub planless_terms : CreateSubscriptionInput → Act Terms
  unfolding validate_planless terms_of_input
  planless_terms input = do lift (validate_planless u input); pure (terms_of_input input)

  unfoldable pub terms_for : ℕ → CreateSubscriptionInput → Time → Act Terms
  unfolding text_eq plan_terms planless_terms
  terms_for tenant input start =
      if text_eq input.plan_slug [] then planless_terms input else plan_terms tenant input start

  -- The value that `Create` hands to the repository.
  unfoldable pub subscription_of : ℕ → ℕ → Time → Terms → CreateSubscriptionInput → Subscription
  unfolding calculate_period_end normalize_tags
  subscription_of tenant key start t input = record {
    id = 0;
    tenant_id = tenant;
    plan_id = t.plan_id;
    amount = t.amount;
    currency = t.currency;
    interval = t.interval;
    interval_count = t.interval_count;
    subscription_key = key;
    external_customer_id = input.external_customer_id;
    status = t.status;
    provider_name = input.provider_name;
    provider_subscription_id = input.provider_subscription_id;
    current_period_start = start;
    current_period_end = calculate_period_end start t.interval t.interval_count;
    trial_ends_at = t.trial_ends_at;
    canceled_at = none;
    cancel_at_period_end = false;
    tags = normalize_tags u input.tags;
    metadata = input.metadata;
    payments = [];
    created_at = zero_time;
    updated_at = zero_time;
  }

  -- `Create`
  unfoldable pub create : ℕ → CreateSubscriptionInput → Act (Subscription × Bool)
  unfolding new_uuid terms_for validate_customer validate_tags subscription_of
  create tenant input w =
      (do
        check (not (tenant == 0)) (sentinel err_missing_tenant_id)
        key ← new_uuid
        terms ← terms_for tenant input w.now
        lift (validate_customer input.external_customer_id)
        lift (validate_tags input.tags)
        result ←
            wrapped (codes "creating subscription") (
              Repository.create (subscription_of tenant key w.now terms input)
                input.idempotency_key)
        pure (result.subscription, result.created))
        w

  -- The check of a change of the amount.
  unfoldable pub amount_check : Subscription → Option ℤ → Result (Unit {0})
  unfolding text_eq get_capabilities
  amount_check s none = ok tt
  amount_check s (some amount) =
      if text_eq s.provider_name []
      then err (sentinel err_provider_required)
      else if (get_capabilities a s.provider_name).pay_per_use
      then ok tt
      else err (sentinel err_pay_per_use_not_supported)

  unfoldable pub status_check : Subscription → Option SubscriptionStatus → Result (Unit {0})
  unfolding validate_status_transition
  status_check s none = ok tt
  status_check s (some next) = validate_status_transition s.status next

  abbrev given : Option (List Text) → List Text
  given none = []
  given (some tags) = tags

  unfoldable pub tags_check : UpdateSubscriptionInput → Result (Unit {0})
  unfolding validate_tags
  tags_check input = if input.tags_provided then validate_tags (given input.tags) else ok tt

  unfoldable pub with_tags : UpdateSubscriptionInput → UpdateSubscriptionInput
  unfolding normalize_tags
  with_tags input =
      if input.tags_provided
      then record input { tags = normalize_tags u (given input.tags) }
      else input

  -- `Update`
  unfoldable pub update : ℕ → UpdateSubscriptionInput → Act Subscription
  unfolding amount_check status_check tags_check with_tags
  update id input = do
    current ← Repository.get_by_id id
    lift (amount_check current input.amount)
    lift (status_check current input.status)
    lift (tags_check input)
    Repository.update id (with_tags input)

-- An error of the payment list is passed over.
abbrev or_empty : Result (List Payment) → List Payment
or_empty (ok ps) = ps
or_empty (err e) = []

unfoldable pub with_payments : Subscription → Act Subscription
unfolding list_by_subscription
with_payments s w =
    let (r, w') = list_by_subscription s.id 10 w in (ok (record s { payments = or_empty r }), w')

-- `GetByKey`
unfoldable pub get_by_key : ℕ → Act Subscription
unfolding with_payments
get_by_key key = do s ← Repository.get_by_key key; with_payments s

-- `GetByID`
abbrev pub get_by_id : ℕ → Act Subscription
get_by_id id = Repository.get_by_id id

-- `Cancel`
unfoldable pub cancel : ℕ → Bool → Act Subscription
cancel key at_period_end = do
  s ← Repository.get_by_key key
  wrapped (codes "canceling subscription") (Repository.cancel s.id at_period_end)
