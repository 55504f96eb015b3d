-- ===== src/Subscription/Lifecycle/Renewal.antt =====
-- What the renewal of one subscription leaves, when the database answers: every outcome of
-- `renewSubscription`.
use billax.Prelude.{
  ◌≡◌, refl, ap, ◌∙◌, Bool, true, false, none, some, [], ◌∷◌, ◌++◌, arith, find, Text,
}
use billax.Subscription.Due.{selected}
use billax.Payment.Repository.{is_keyed, references}
use billax.Payment.Service.Outcomes.{stored_payment, IsAccepted, create_payment_new}
use billax.Payment.Service.Frame.{create_payment-subs}
use billax.Result.{ok, err}
use billax.Errors.{Error}
use billax.Subscription.Periods.{intervals_after, next_period_end, next_period_end-known}
use billax.Calendar.{Time}
use billax.Provider.{Config, charge_failed, ChargeResult}
use billax.Payment.{failed, Payment}
use billax.Payment.Service.{convert_charge_status, payment_of, create_payment}
use billax.Subscription.{SubscriptionStatus, past_due, Subscription}
use billax.Subscription.Repository.{
  row_ok, has_id, change_row, with_status, update_status, with_period, advance_period,
}
use billax.Subscription.Repository.Statements.{row_of, find-change_row_self, update_exec_ok}
use billax.Subscription.Lifecycle.{
  LifecycleRunner, renewal_key, renewal_input, without_credentials, after_charge, with_credentials,
  renew_subscription,
}
use billax.World.{Row, World, Act}

-- A subscription as the query of the renewals reads it.
abbrev pub listed : Subscription → Subscription
listed s = selected false true s

-- The subscription is the row of its id, with values that the table's constraints allow.
pub record IsStored (s : Subscription) (w : World) : Type 0 where
  pub key : Text
  pub there : row_of s.id w ≡ some (record { sub = s; key = key })
  pub allowed : row_ok s ≡ true

status_row :
    (s : Subscription) (w : World) (status : SubscriptionStatus) (st : IsStored s w)
    → w.faults ≡ []
    → row_ok (with_status status w.now s) ≡ true
    → update_status s.id status w
      ≡ (ok tt, record w { subs = change_row s.id (with_status status w.now) w.subs })
unfolding update_status
status_row s w status st up allowed =
    update_exec_ok (with_status status w.now) (λ x. refl) _ w s.id up st.there allowed

-- What a renewal is to make of a subscription: past due, or renewed for one interval of its own that
-- starts where the period ended.
abbrev pub overdue : Subscription → Time → Subscription
overdue s now = record s { status = past_due; updated_at = now }

abbrev pub renewed : Subscription → Time → Subscription
renewed s now = record s {
  current_period_start = s.current_period_end;
  current_period_end = intervals_after s.current_period_end s.interval s.interval_count;
  updated_at = now;
}

with_period-renewed :
    (s : Subscription) (now : Time)
    → row_ok s ≡ true
    → with_period s.current_period_end
        (next_period_end s.current_period_end s.interval s.interval_count)
        now
        s
      ≡ renewed s now
unfolding with_period
with_period-renewed s now h =
    ap
      (λ end. record s {
        current_period_start = s.current_period_end;
        current_period_end = end;
        updated_at = now;
      })
      (next_period_end-known s.current_period_end s.interval s.interval_count
        (unfold row_ok in ground (arith, h)))

past_due_ok :
    (s : Subscription) (now : Time) → row_ok s ≡ true → row_ok (with_status past_due now s) ≡ true
unfolding row_ok with_status
past_due_ok s now h = ground arith

period_row :
    (s : Subscription) (w : World) (start end : Time) (st : IsStored s w)
    → w.faults ≡ []
    → advance_period s.id start end w
      ≡ (ok tt, record w { subs = change_row s.id (with_period start end w.now) w.subs })
unfolding advance_period
period_row s w start end st up =
    update_exec_ok (with_period start end w.now) (λ x. refl) _ w s.id up st.there
      (allowed_ s st.allowed)
  where
    allowed_ : (x : Subscription) → row_ok x ≡ true → row_ok (with_period start end w.now x) ≡ true
    allowed_ x h = unfold row_ok with_period in h

module _ (r : LifecycleRunner) (s : Subscription) (w : World) (st : IsStored s w)
    (up : w.faults ≡ []) where
  after_charge_err :
      (e : Error)
      → row_of s.id (after_charge r (listed s) (err e) w).1
        ≡ some (record { sub = overdue s w.now; key = st.key })
  unfolding after_charge
  after_charge_err e =
      rw (status_row s w past_due st up (past_due_ok s w.now st.allowed))
        (find-change_row_self (with_status past_due w.now) (λ x. refl) s.id w.subs st.there)

  after_charge_ok :
      (paid : Payment × Bool)
      → after_charge r (listed s) (ok paid) w ≡ (
        ok tt,
        record w {
          subs =
              change_row s.id
                (with_period s.current_period_end
                  (next_period_end s.current_period_end s.interval s.interval_count)
                  w.now)
                w.subs;
        },
      )
  unfolding after_charge
  after_charge_ok paid =
      rw
        (period_row s w s.current_period_end
          (next_period_end s.current_period_end s.interval s.interval_count) st up)
        refl

  charged_payments :
      (paid : Payment × Bool) → (after_charge r (listed s) (ok paid) w).1.payments ≡ w.payments
  charged_payments paid = rw (after_charge_ok paid) refl

  advanced :
      (paid : Payment × Bool)
      → row_of s.id (after_charge r (listed s) (ok paid) w).1
        ≡ some (record { sub = renewed s w.now; key = st.key })
  advanced paid =
      let end = next_period_end s.current_period_end s.interval s.interval_count in
      ap (λ v. row_of s.id v.1) (after_charge_ok paid)
      ∙ find-change_row_self (with_period s.current_period_end end w.now)
          (λ x. unfold with_period in refl) s.id w.subs st.there
      ∙ ap (λ x. some (record { sub = x; key = st.key })) (with_period-renewed s w.now st.allowed)

module _ (r : LifecycleRunner) (s : Subscription) (w : World) (st : IsStored s w) where
  -- The charge of the renewal.
  abbrev pub charge_of : Config → Act (Payment × Bool)
  charge_of config =
      create_payment r.unicode r.adapter s.tenant_id (renewal_input r (listed s) config)

  -- The row after the renewal, by what the credentials and the charge came to.
  abbrev pub past_due_row : Time → Row
  past_due_row now = record { sub = overdue s now; key = st.key }

  abbrev pub advanced_row : Time → Row
  advanced_row now = record { sub = renewed s now; key = st.key }

  -- For a stored subscription without credentials, when the database answers: the subscription
  -- becomes past due; no charge is sent, and no payment stored.
  pub renewal_without_credentials :
      (e : Error)
      → w.faults ≡ []
      → r.validate_and_fetch s.tenant_id s.provider_name ≡ err e
      → (row_of s.id (renew_subscription r (listed s) w).1 ≡ some (past_due_row w.now))
        × ((renew_subscription r (listed s) w).1.charges ≡ w.charges)
        × ((renew_subscription r (listed s) w).1.payments ≡ w.payments)
  unfolding renew_subscription without_credentials
  renewal_without_credentials e up none' =
      rw (none', status_row s w past_due st up (past_due_ok s w.now st.allowed))
        (
          find-change_row_self (with_status past_due w.now) (λ x. refl) s.id w.subs st.there,
          refl,
          refl,
        )

  -- The charge leaves the row alone.
  abbrev charged_row : (config : Config) → IsStored s (charge_of config w).1
  charged_row config = record {
    key = st.key;
    there =
        ap (find (has_id s.id)) (
          (create_payment-subs r.unicode r.adapter s.tenant_id
              (renewal_input r (listed s) config)).at
            w)
        ∙ st.there;
    allowed = st.allowed;
  }

  -- For a stored subscription with credentials, when the charge returns an error and the
  -- database answers: the subscription becomes past due and keeps its period.
  pub renewal_charge_error :
      (config : Config) (e : Error)
      → r.validate_and_fetch s.tenant_id s.provider_name ≡ ok config
      → (charge_of config w).0 ≡ err e
      → (charge_of config w).1.faults ≡ []
      → row_of s.id (renew_subscription r (listed s) w).1
        ≡ some (past_due_row (charge_of config w).1.now)
  unfolding renew_subscription with_credentials
  renewal_charge_error config e found refused up =
      rw (found, refused) (after_charge_err r s _ (charged_row config) up e)

  -- For a stored subscription with credentials, when the charge returns a payment, whatever the
  -- status of that payment, and the database answers: the period is advanced. It starts where it
  -- ended, and ends one interval later.
  pub renewal_charged :
      (config : Config) (p : Payment) (created : Bool)
      → r.validate_and_fetch s.tenant_id s.provider_name ≡ ok config
      → (charge_of config w).0 ≡ ok (p, created)
      → (charge_of config w).1.faults ≡ []
      → row_of s.id (renew_subscription r (listed s) w).1
        ≡ some (advanced_row (charge_of config w).1.now)
  unfolding renew_subscription with_credentials
  renewal_charged config p created found paid up =
      rw (found, paid) (advanced r s _ (charged_row config) up (p, created))

  references_row : references s.id w.subs ≡ true
  references_row = ap (λ o. elim o [ none ↦ false | some r ↦ true ]) st.there

  -- For a stored subscription with credentials, under a renewal key that is new, when the charge
  -- passes the checks and the provider reports it as failed: the payment is stored with the
  -- status `failed`, and the period of the subscription is advanced like that of a paid one.
  pub renewal_charge_failed :
      (config : Config) (result : ChargeResult)
      → r.validate_and_fetch s.tenant_id s.provider_name ≡ ok config
      → IsAccepted r.unicode r.adapter s.tenant_id (renewal_input r (listed s) config) result w
      → find (is_keyed s.tenant_id (renewal_key r (listed s))) w.payments ≡ none
      → result.status ≡ charge_failed
      → (row_of s.id (renew_subscription r (listed s) w).1 ≡ some (advanced_row w.now))
        × ((renew_subscription r (listed s) w).1.payments
            ≡ w.payments
              ++ stored_payment s.tenant_id (renewal_input r (listed s) config) result w ∷ [])
        × ((stored_payment s.tenant_id (renewal_input r (listed s) config) result w).status
            ≡ failed)
  unfolding renew_subscription with_credentials renewal_input stored_payment payment_of
      convert_charge_status
  renewal_charge_failed config result found accepted new refused =
      let made =
        create_payment_new r.unicode r.adapter s.tenant_id (renewal_input r (listed s) config) w
          accepted new references_row in
      (
        rw (found, made)
            (advanced r s _ (record { key = st.key; there = st.there; allowed = st.allowed })
              accepted.up
              (stored_payment s.tenant_id (renewal_input r (listed s) config) result w, true)),
        rw (found, made)
            (charged_payments r s _
              (record { key = st.key; there = st.there; allowed = st.allowed }) accepted.up
              (stored_payment s.tenant_id (renewal_input r (listed s) config) result w, true)),
        rw refused refl,
      )
