-- ===== src/Subscription/Lifecycle.antt =====
-- internal/subscription/lifecycle.go: the background job that renews subscriptions, ends trials and
-- expires unpaid subscriptions. Log lines are left out.
pub mod Renewal
pub mod Spares
pub mod Idle
use billax.Prelude.{ℕ, Bool, List, [], ◌∷◌, ◌++◌, ℤ, pos, negate, Text, codes, Unicode}
use billax.Errors.{opaque}
use billax.Result.{Result, ok, err}
use billax.Calendar.{Time, add_date, format_date}
use billax.Provider.{Config, ProviderAdapter}
use billax.Payment.{Payment, CreatePaymentInput}
use billax.Payment.Service.{create_payment}
use billax.Subscription.{active, past_due, expired, Subscription}
use billax.Subscription.Periods.{next_period_end}
use billax.Subscription.Repository.{update_status, advance_period}
use billax.Subscription.Due.{
  list_due_for_renewal, list_expired_trials, list_past_due_pending_expiry,
}
use billax.World.{World, Act, fail, ◌>>=◌, ◌>>◌, wrapped}

-- What the runner is built with: the payment service's Unicode tables and adapter, the credentials of a
-- tenant for a provider (`CredentialsFetcher`), the text of a uuid, and the days of grace.
pub record LifecycleRunner : Type 0 where
  pub unicode : Unicode
  pub adapter : ProviderAdapter
  pub validate_and_fetch : ℕ → Text → Result Config
  pub uuid_text : ℕ → Text
  pub grace_days : ℤ

-- A loop over subscriptions whose body's errors are logged and passed over.
unfoldable pub for_each : (Subscription → Act (Unit {0})) → List Subscription → World → World
for_each body [] w = w
for_each body (sub ∷ subs) w = for_each body subs (body sub w).1

unfoldable pub process : (Subscription → Act (Unit {0})) → List Subscription → Act (Unit {0})
unfolding for_each
process body subs w = (ok tt, for_each body subs w)

module _ (r : LifecycleRunner) where
  -- `renewal:{subscription_key}:{period_end_date}`
  unfoldable pub renewal_key : Subscription → Text
  unfolding format_date
  renewal_key sub =
      codes "renewal:"
      ++ (r.uuid_text sub.subscription_key ++ (codes ":" ++ format_date sub.current_period_end))

  unfoldable pub renewal_input : Subscription → Config → CreatePaymentInput
  unfolding renewal_key
  renewal_input sub config = record {
    subscription_id = sub.id;
    idempotency_key = renewal_key sub;
    provider_name = sub.provider_name;
    amount = sub.amount;
    currency = sub.currency;
    description = [];
    external_customer_id = sub.external_customer_id;
    provider_config = config;
    metadata = [];
  }

  -- No credentials: the subscription becomes past due.
  unfoldable pub without_credentials : Subscription → Act (Unit {0})
  unfolding update_status
  without_credentials sub = do
    wrapped (codes "updating status to past_due") (update_status sub.id past_due)
    fail (opaque (codes "credentials not configured"))

  -- What follows the charge. On an error `err` is assigned anew by the inner `if`, so the returned
  -- error wraps nil.
  unfoldable pub after_charge : Subscription → Result (Payment × Bool) → Act (Unit {0})
  unfolding update_status advance_period next_period_end
  after_charge sub (err e) = do
    wrapped (codes "updating status to past_due after charge failure")
        (update_status sub.id past_due)
    fail (opaque (codes "charge failed: %!w(<nil>)"))
  after_charge sub (ok paid) = wrapped (codes "advancing period") (
      advance_period sub.id sub.current_period_end
        (next_period_end sub.current_period_end sub.interval sub.interval_count))

  unfoldable pub with_credentials : Subscription → Config → Act (Unit {0})
  unfolding create_payment renewal_input after_charge
  with_credentials sub config w =
      let (result, w') =
        create_payment r.unicode r.adapter sub.tenant_id (renewal_input sub config) w in
      after_charge sub result w'

  unfoldable pub on_credentials : Result Config → Subscription → Act (Unit {0})
  unfolding without_credentials with_credentials
  on_credentials (err e) sub = without_credentials sub
  on_credentials (ok config) sub = with_credentials sub config

  -- `renewSubscription`
  unfoldable pub renew_subscription : Subscription → Act (Unit {0})
  unfolding on_credentials
  renew_subscription sub = on_credentials (r.validate_and_fetch sub.tenant_id sub.provider_name) sub

  -- `RunRenewals`; `now` is what `time.Now()` returns to it.
  unfoldable pub run_renewals : Time → Act (Unit {0})
  unfolding list_due_for_renewal process renew_subscription
  run_renewals now = do
    subs ← wrapped (codes "running renewals: listing due subscriptions") (list_due_for_renewal now)
    process renew_subscription subs

  -- `RunTrialExpiry`
  unfoldable pub run_trial_expiry : Time → Act (Unit {0})
  unfolding list_expired_trials process update_status
  run_trial_expiry now = do
    subs ← wrapped (codes "running trial expiry: listing expired trials") (list_expired_trials now)
    process (λ sub. update_status sub.id active) subs

  -- `RunPastDueExpiry`
  unfoldable pub run_past_due_expiry : Time → Act (Unit {0})
  unfolding list_past_due_pending_expiry process update_status
  run_past_due_expiry grace_period_end = do
    subs ←
        wrapped (codes "running past due expiry: listing pending expiry")
          (list_past_due_pending_expiry grace_period_end)
    process (λ sub. update_status sub.id expired) subs

  abbrev pub grace_period_end : Time → Time
  grace_period_end now = add_date now (pos 0) (pos 0) (negate r.grace_days)

  -- `runAllJobs`: an error of a job is logged.
  unfoldable pub run_all_jobs : World → World
  unfolding run_renewals run_trial_expiry run_past_due_expiry
  run_all_jobs w =
      let renewed = (run_renewals w.now w).1 in
      let begun = (run_trial_expiry w.now renewed).1 in
      (run_past_due_expiry (grace_period_end w.now) begun).1

  -- `Run`: the jobs at each tick of the ticker, until the context is cancelled. Between two ticks only
  -- the clock moves.
  unfoldable pub run : List Time → World → World
  unfolding run_all_jobs
  run [] w = w
  run (now ∷ ticks) w = run ticks (run_all_jobs (record w { now = now }))
