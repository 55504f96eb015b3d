-- ===== src/Subscription/Service/Outcomes.antt =====
-- What the operations of the subscription service return and change when the database answers.
use billax.Prelude.{
  ℕ, zero, suc, Bool, if◌then◌else◌, ltb_ℤ, ◌+◌, ◌≡◌, refl, ap, arith, ℤ, pos, negsuc, Option, true,
  not, none, [], ◌∷◌, ◌++◌, ◌==◌, find, Unicode, false, some, text_eq,
}
use billax.Subscription.Repository.Statements.{
  inserted, create-new, row_of, get_by_key_ok, get_by_id_ok, update_returning_ok,
}
use billax.Result.{Result, ok, err}
use billax.Calendar.{Time, add_date}
use billax.Subscription.Periods.{intervals_after, calculate_period_end-known}
use billax.Plan.{Plan}
use billax.Plan.Repository.{has_slug}
use billax.Plan.Repository.Unique.{get_by_slug_ok}
use billax.Subscription.Transitions.{forbidden, transition_error, validate_status_transition}
use billax.Provider.{ProviderAdapter}
use billax.Subscription.{
  trialing, active, Subscription, SubscriptionStatus, CreateSubscriptionInput,
  UpdateSubscriptionInput,
}
use billax.Subscription.Tags.{validate_tags, normalize_tags}
use billax.Subscription.Repository.{
  row_ok, stored_metadata, has_key, has_id, has_subscription_key, change_row, apply_cancel,
}
use billax.Subscription.Service.{
  Terms, terms_of_plan, terms_of_input, validate_planless, can_bill_plan, plan_terms,
  planless_terms, validate_customer, terms_for, subscription_of, create, amount_check, status_check,
  update, cancel,
}
use billax.World.{Row, World}

-- A request to create a subscription that passes the checks which do not depend on the path.
pub record IsAccepted (tenant : ℕ) (input : CreateSubscriptionInput) (w : World) : Type 0 where
  pub has_tenant : not (tenant == 0) ≡ true
  pub customer : validate_customer input.external_customer_id ≡ ok tt
  pub tags : validate_tags input.tags ≡ ok tt
  pub up : w.faults ≡ []

-- The row that is to be stored for the terms of a request, field by field: a first period of one
-- interval that starts now, the tags normalised, and the metadata as the column holds them. The first
-- uuid went to the subscription key.
abbrev pub row_due : Unicode → ℕ → Terms → CreateSubscriptionInput → World → Row
row_due u tenant t input w = record {
  sub = record {
    id = w.fresh + 1;
    tenant_id = tenant;
    plan_id = t.plan_id;
    amount = t.amount;
    currency = t.currency;
    interval = t.interval;
    interval_count = t.interval_count;
    subscription_key = w.fresh;
    external_customer_id = input.external_customer_id;
    status = t.status;
    provider_name = input.provider_name;
    provider_subscription_id = input.provider_subscription_id;
    current_period_start = w.now;
    current_period_end = intervals_after w.now t.interval t.interval_count;
    trial_ends_at = t.trial_ends_at;
    canceled_at = none;
    cancel_at_period_end = false;
    tags = normalize_tags u input.tags;
    metadata = stored_metadata input.metadata;
    payments = [];
    created_at = w.now;
    updated_at = w.now;
  };
  key = input.idempotency_key;
}

-- The terms that a planless request is to get: its own, without plan and trial.
abbrev pub planless_due : CreateSubscriptionInput → Terms
planless_due input = record {
  plan_id = none;
  amount = input.amount;
  currency = input.currency;
  interval = input.interval;
  interval_count = input.interval_count;
  status = active;
  trial_ends_at = none;
}

-- The terms that a request for a plan is to get: those of the plan, with a trial of as many days as
-- the plan has.
abbrev pub first_status : ℤ → SubscriptionStatus
first_status (pos (suc days)) = trialing
first_status days = active

abbrev pub first_trial_end : Time → ℤ → Option Time
first_trial_end start (pos (suc days)) = some (add_date start (pos 0) (pos 0) (pos (suc days)))
first_trial_end start days = none

abbrev pub plan_due : Time → Plan → Terms
plan_due start p = record {
  plan_id = some p.id;
  amount = p.amount;
  currency = p.currency;
  interval = p.interval;
  interval_count = p.interval_count;
  status = first_status p.trial_days;
  trial_ends_at = first_trial_end start p.trial_days;
}

trial_lem :
    (start : Time) (days : ℤ)
    → ((if ltb_ℤ (pos 0) days then trialing else active) ≡ first_status days)
      × ((if ltb_ℤ (pos 0) days then some (add_date start (pos 0) (pos 0) days) else none)
          ≡ first_trial_end start days)
trial_lem start (pos zero) = (refl, refl)
trial_lem start (pos (suc days)) = (ground arith, ground arith)
trial_lem start (negsuc days) = (ground arith, ground arith)

terms_of_plan_lem : (start : Time) (p : Plan) → terms_of_plan start p ≡ plan_due start p
unfolding terms_of_plan
terms_of_plan_lem start p =
    let (status, trial_end) = trial_lem start p.trial_days in rw (status, trial_end) refl

inserted-row_due :
    (u : Unicode) (a : ProviderAdapter) (tenant : ℕ) (t : Terms) (input : CreateSubscriptionInput)
    (w : World)
    → row_ok (row_due u tenant t input w).sub ≡ true
    → inserted
        (subscription_of u a tenant w.fresh w.now t input)
        input.idempotency_key
        (record w { fresh = w.fresh + 1 })
      ≡ row_due u tenant t input w
unfolding inserted subscription_of row_ok
inserted-row_due u a tenant t input w allowed =
    ap
      (λ end.
        let r = row_due u tenant t input w in
        record r { sub = record r.sub { current_period_end = end } })
      (calculate_period_end-known w.now t.interval t.interval_count (ground (arith, allowed)))

module _ (u : Unicode) (a : ProviderAdapter) (tenant : ℕ) (input : CreateSubscriptionInput)
    (w : World) (h : IsAccepted tenant input w) where
  abbrev started : World
  started = record w { fresh = w.fresh + 1 }

  -- What `Create` answers and leaves when it stores a row.
  abbrev pub stores : Row → Result (Subscription × Bool) × World
  stores row = (ok (row.sub, true), record w { subs = w.subs ++ row ∷ []; fresh = w.fresh + 1 + 1 })

  create-terms :
      (t : Terms)
      → terms_for u a tenant input w.now started ≡ (ok t, started)
      → row_ok (row_due u tenant t input w).sub ≡ true
      → find (has_key tenant input.idempotency_key) w.subs ≡ none
      → create u a tenant input w ≡ stores (row_due u tenant t input w)
  unfolding create subscription_of row_ok
  create-terms t settled allowed new =
      rw
        (
          h.has_tenant,
          settled,
          h.customer,
          h.tags,
          create-new (subscription_of u a tenant w.fresh w.now t input) input.idempotency_key
              started h.up allowed new,
        )
        (ap stores (inserted-row_due u a tenant t input w allowed))

  -- For a planless request that passes the validation and the table's constraints, under a new
  -- key, with a database that answers: one row is stored and returned as created. It is active, with
  -- the billing fields of the request and a first period of one interval that starts now; it has no
  -- plan and no trial.
  pub create_planless :
      text_eq input.plan_slug [] ≡ true
      → validate_planless u input ≡ ok tt
      → row_ok (row_due u tenant (planless_due input) input w).sub ≡ true
      → find (has_key tenant input.idempotency_key) w.subs ≡ none
      → create u a tenant input w ≡ (
        ok ((row_due u tenant (planless_due input) input w).sub, true),
        record w {
          subs = w.subs ++ row_due u tenant (planless_due input) input w ∷ [];
          fresh = w.fresh + 1 + 1;
        },
      )
  unfolding terms_for planless_terms terms_of_input
  create_planless no_plan valid allowed new =
      create-terms (planless_due input) (rw (no_plan, valid) refl) allowed new

  -- For a request for an active plan of the tenant, and no provider or one that bills by plan,
  -- that passes the checks and the table's constraints, under a new key, with a database that
  -- answers: one row is stored and returned as created. The billing fields are those of the plan, the
  -- first period is one interval that starts now, and if the plan has trial days the subscription is
  -- trialing for as many days, else active.
  pub create_from_plan :
      {p : Plan}
      → text_eq input.plan_slug [] ≡ false
      → find (has_slug tenant input.plan_slug) w.plans ≡ some p
      → p.is_active ≡ true
      → can_bill_plan u a input.provider_name ≡ true
      → row_ok (row_due u tenant (plan_due w.now p) input w).sub ≡ true
      → find (has_key tenant input.idempotency_key) w.subs ≡ none
      → create u a tenant input w ≡ (
        ok ((row_due u tenant (plan_due w.now p) input w).sub, true),
        record w {
          subs = w.subs ++ row_due u tenant (plan_due w.now p) input w ∷ [];
          fresh = w.fresh + 1 + 1;
        },
      )
  unfolding terms_for plan_terms
  create_from_plan {p} planned there live billable allowed new =
      create-terms (plan_due w.now p)
        (rw
          (
            planned,
            get_by_slug_ok tenant input.plan_slug started h.up there,
            live,
            billable,
            terms_of_plan_lem w.now p,
          )
          refl)
        allowed new

module _ (u : Unicode) (a : ProviderAdapter) (id : ℕ) (input : UpdateSubscriptionInput)
    (w : World) where
  -- For a stored subscription and a database that answers, a change of status that the
  -- transition table forbids, in a request whose change of the amount is allowed, is refused
  -- with its own error, and changes nothing.
  pub update-forbidden :
      {r : Row} (next : SubscriptionStatus)
      → w.faults ≡ []
      → row_of id w ≡ some r
      → amount_check u a r.sub input.amount ≡ ok tt
      → input.status ≡ some next
      → forbidden r.sub.status next ≡ true
      → update u a id input w ≡ (err (transition_error r.sub.status next), w)
  unfolding update status_check validate_status_transition
  update-forbidden {r} next up there affordable asked refused =
      rw (get_by_id_ok w up id there, affordable, asked, refused) refl

-- An immediate cancellation of a stored subscription, with a database that answers: its row
-- becomes canceled, now, with no cancellation left pending, and comes back.
pub cancel_now :
    (key : ℕ) (w : World) {r : Row}
    → w.faults ≡ []
    → find (has_subscription_key key) w.subs ≡ some r
    → row_of r.sub.id w ≡ some r
    → row_ok (apply_cancel false w.now r.sub) ≡ true
    → cancel key false w ≡ (
      ok (apply_cancel false w.now r.sub),
      record w { subs = change_row r.sub.id (apply_cancel false w.now) w.subs },
    )
unfolding cancel billax.Subscription.Repository.cancel
cancel_now key w {r} up there own allowed =
    rw
      (
        get_by_key_ok w up key there,
        update_returning_ok w up _ r.sub.id (apply_cancel false w.now) own allowed,
      )
      refl
