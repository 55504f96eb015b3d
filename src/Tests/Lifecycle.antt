-- ===== src/Tests/Lifecycle.antt =====
-- The lifecycle job.
use billax.Prelude.{◌≡◌, refl, ap, inl, true, some, List, [], ◌∷◌, codes, text_eq, ascii}
use billax.Subscription.Lifecycle.Idle.{IsIdle, run-idle, run-ended, run-cancel_at_period_end}
use billax.Subscription.Due.{is_due, is_expired_trial, is_pending_expiry}
use billax.Payment.Service.Outcomes.{stored_payment, IsAccepted, charged_with, create_payment_new}
use billax.Calendar.{Time}
use billax.Subscription.{trialing, canceled, Subscription}
use billax.Payment.{failed, Payment}
use billax.Errors.{err_provider_rejected, Error, sentinel, wrap}
use billax.Result.{ok, err}
use billax.Provider.{charge_succeeded, charge_failed, find_provider, lookup_provider, create_charge}
use billax.Subscription.Repository.{row_ok}
use billax.Subscription.Repository.Statements.{row_of}
use billax.Validation.{add_all, err_of, non_empty, positive_int, iso_currency}
use billax.Payment.Service.{validate_payment, charge_request, send_charge, create_payment}
use billax.Subscription.Lifecycle.{
  LifecycleRunner, renewal_key, renewal_input, renew_subscription, grace_period_end, run,
}
use billax.Subscription.Lifecycle.Renewal.{
  listed, IsStored, charge_of, past_due_row, advanced_row, renewal_without_credentials,
  renewal_charge_error, renewal_charged, renewal_charge_failed,
}
use billax.Tests.Data.{
  a_time, base_sub, row_with, world_with, a_world, answered, adapter_with, an_adapter,
  no_credentials, runner_with,
}

stored : IsStored base_sub a_world
unfolding row_ok
stored = record { key = codes "k1"; there = refl; allowed = refl }

abbrev poor : LifecycleRunner
poor = runner_with an_adapter (err no_credentials)

abbrev paying : LifecycleRunner
paying = runner_with an_adapter (ok [])

abbrev declining : LifecycleRunner
declining = runner_with (adapter_with (err (sentinel err_provider_rejected))) (ok [])

abbrev failing : LifecycleRunner
failing = runner_with (adapter_with (ok (answered charge_failed))) (ok [])

renewal_without_credentials_example :
    (row_of 5 (renew_subscription poor (listed base_sub) a_world).1
      ≡ some (past_due_row poor base_sub a_world stored a_time))
    × ((renew_subscription poor (listed base_sub) a_world).1.charges ≡ [])
    × ((renew_subscription poor (listed base_sub) a_world).1.payments ≡ [])
renewal_without_credentials_example =
    renewal_without_credentials poor base_sub a_world stored no_credentials refl refl

abbrev refusal : Error
refusal =
    wrap (codes "provider charge")
      (wrap (codes "adapter.CreateCharge via mock") (sentinel err_provider_rejected))

refused_charge : charge_of declining base_sub a_world stored [] a_world ≡ (
  err refusal,
  record a_world {
    charges = (codes "mock", charge_request (renewal_input declining (listed base_sub) [])) ∷ [];
  },
)
unfolding validate_payment create_charge lookup_provider find_provider err_of add_all iso_currency
    positive_int non_empty create_payment renewal_input renewal_key send_charge charge_request
refused_charge = refl

renewal_charge_error_example :
    row_of 5 (renew_subscription declining (listed base_sub) a_world).1
    ≡ some (
        past_due_row declining base_sub a_world stored
          (charge_of declining base_sub a_world stored [] a_world).1.now)
renewal_charge_error_example =
    renewal_charge_error declining base_sub a_world stored [] refusal refl
      (ap (λ x. x.0) refused_charge) (ap (λ x. x.1.faults) refused_charge)

paid :
    IsAccepted ascii an_adapter 7
      (renewal_input paying (listed base_sub) [])
      (answered charge_succeeded)
      a_world
unfolding validate_payment create_charge lookup_provider find_provider err_of add_all iso_currency
    positive_int non_empty renewal_input renewal_key
paid = record { has_tenant = refl; valid = refl; charged = refl; up = refl }

unpaid :
    IsAccepted ascii
      (adapter_with (ok (answered charge_failed)))
      7
      (renewal_input failing (listed base_sub) [])
      (answered charge_failed)
      a_world
unfolding validate_payment create_charge lookup_provider find_provider err_of add_all iso_currency
    positive_int non_empty renewal_input renewal_key
unpaid = record { has_tenant = refl; valid = refl; charged = refl; up = refl }

abbrev renewal_payment : Payment
renewal_payment =
    stored_payment 7 (renewal_input paying (listed base_sub) []) (answered charge_succeeded) a_world

paid_charge : charge_of paying base_sub a_world stored [] a_world ≡ (
  ok (renewal_payment, true),
  record a_world {
    payments = renewal_payment ∷ [];
    charges = charged_with ascii an_adapter 7 (renewal_input paying (listed base_sub) []) a_world;
    fresh = 102;
  },
)
unfolding renewal_input
paid_charge =
    create_payment_new ascii an_adapter 7 (renewal_input paying (listed base_sub) []) a_world paid
      refl refl

renewal_charged_example :
    row_of 5 (renew_subscription paying (listed base_sub) a_world).1
    ≡ some (
        advanced_row paying base_sub a_world stored
          (charge_of paying base_sub a_world stored [] a_world).1.now)
renewal_charged_example =
    renewal_charged paying base_sub a_world stored [] renewal_payment true refl
      (ap (λ x. x.0) paid_charge) (ap (λ x. x.1.faults) paid_charge)

renewal_charge_failed_example :
    (row_of 5 (renew_subscription failing (listed base_sub) a_world).1
      ≡ some (advanced_row failing base_sub a_world stored a_time))
    × ((renew_subscription failing (listed base_sub) a_world).1.payments
        ≡ stored_payment 7
            (renewal_input failing (listed base_sub) [])
            (answered charge_failed)
            a_world
          ∷ [])
    × ((stored_payment 7
          (renewal_input failing (listed base_sub) [])
          (answered charge_failed)
          a_world).status
        ≡ failed)
renewal_charge_failed_example =
    renewal_charge_failed failing base_sub a_world stored [] (answered charge_failed) refl unpaid
      refl refl

abbrev ticks : List Time
ticks = a_time ∷ record { day = 20001; nanos = 0 } ∷ []

abbrev canceled_sub : Subscription
canceled_sub = record base_sub { status = canceled }

abbrev ending_sub : Subscription
ending_sub = record base_sub { cancel_at_period_end = true }

-- Trialing without an end of the trial.
abbrev idle_sub : Subscription
idle_sub = record base_sub { status = trialing }

IsIdle-always : (now : Time) → IsIdle now (grace_period_end paying now) idle_sub
unfolding is_due is_expired_trial is_pending_expiry text_eq
IsIdle-always now = record { not_due = refl; not_expired_trial = refl; not_pending_expiry = refl }

run-idle_example : row_of 5 (run paying ticks (world_with idle_sub)) ≡ some (row_with idle_sub)
run-idle_example = run-idle paying 5 ticks (world_with idle_sub) (tt, tt) refl IsIdle-always

run-ended_example :
    row_of 5 (run paying ticks (world_with canceled_sub)) ≡ some (row_with canceled_sub)
run-ended_example = run-ended paying 5 ticks (world_with canceled_sub) (tt, tt) refl (inl refl)

run-cancel_at_period_end_example :
    row_of 5 (run paying ticks (world_with ending_sub)) ≡ some (row_with ending_sub)
run-cancel_at_period_end_example =
    run-cancel_at_period_end paying 5 ticks (world_with ending_sub) (tt, tt) refl refl refl
