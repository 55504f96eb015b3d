-- ===== src/Subscription/Lifecycle/Spares.antt =====
-- What the lifecycle job does for one subscription leaves the rows of all others alone.
use billax.Prelude.{ℕ, ◌≡◌, refl, ap, ◌∙◌, ◌≢◌, Bool, find, Text}
use billax.Payment.Service.Frame.{create_payment-subs}
use billax.Payment.Service.{create_payment}
use billax.Provider.{Config}
use billax.Errors.{Error}
use billax.Result.{Result, ok, err, wrap_err}
use billax.Payment.{Payment}
use billax.Subscription.{SubscriptionStatus, past_due, Subscription}
use billax.Subscription.Repository.{has_id, update_status}
use billax.Subscription.Repository.Statements.{
  row_of, UniqueIds, update_status-row_of_ne, advance_period-row_of_ne, update_status-UniqueIds,
  advance_period-UniqueIds,
}
use billax.Subscription.Lifecycle.{
  LifecycleRunner, renewal_input, without_credentials, after_charge, with_credentials,
  on_credentials, renew_subscription,
}
use billax.World.{World, Act, fail, resume, ◌>>◌, wrapped}

-- An action that is made for one subscription and leaves the rows of all others alone.
pub record Spares (body : Subscription → Act (Unit {0})) : Type 0 where
  pub others :
      (id : ℕ) (s : Subscription) (w : World) → id ≢ s.id → row_of id (body s w).1 ≡ row_of id w
  pub unique : (s : Subscription) (w : World) → UniqueIds w.subs → UniqueIds (body s w).1.subs

pub update_status-Spares : (status : SubscriptionStatus) → Spares (λ s. update_status s.id status)
update_status-Spares status = record {
  others = λ id s w h. update_status-row_of_ne id s.id w h status;
  unique = λ s w u. update_status-UniqueIds s.id w u status;
}

-- `if err := m; err != nil { return … }; return e` leaves the world of m.
then_fail-world :
    (prefix : Text) (m : Act (Unit {0})) (e : Error) (w : World)
    → ((wrapped prefix m >> fail {A = Unit {0}} e) w).1 ≡ (m w).1
then_fail-world prefix m e w = by_result (m w).0 (m w).1
  where
    by_result :
        (result : Result (Unit {0})) (w' : World)
        → (resume (wrap_err prefix result, w') (λ _. fail {A = Unit {0}} e)).1 ≡ w'
    by_result (ok a) w' = refl
    by_result (err x) w' = refl

then_fail-Spares :
    (body : Subscription → Act (Unit {0})) (prefix : Text) (e : Error)
    → Spares body
    → Spares (λ s. wrapped prefix (body s) >> fail e)
then_fail-Spares body prefix e h = record {
  others = λ id s w ne. rw (then_fail-world prefix (body s) e w) (h.others id s w ne);
  unique = λ s w u. rw (then_fail-world prefix (body s) e w) (h.unique s w u);
}

module _ (r : LifecycleRunner) where
  without_credentials-Spares : Spares (without_credentials r)
  unfolding without_credentials
  without_credentials-Spares = then_fail-Spares _ _ _ (update_status-Spares past_due)

  after_charge-Spares : (result : Result (Payment × Bool)) → Spares (λ s. after_charge r s result)
  unfolding after_charge
  after_charge-Spares (err e) = then_fail-Spares _ _ _ (update_status-Spares past_due)
  after_charge-Spares (ok paid) = record {
    others = λ id s w h. advance_period-row_of_ne id s.id w h _ _;
    unique = λ s w u. advance_period-UniqueIds s.id w u _ _;
  }

  with_credentials-Spares : (config : Config) → Spares (λ s. with_credentials r s config)
  unfolding with_credentials
  with_credentials-Spares config = record {
    others = λ id s w h.
        let same : (paid s w).1.subs ≡ w.subs = paid-subs s w in
        (after_charge-Spares (paid s w).0).others id s (paid s w).1 h
        ∙ ap (λ rows. find (has_id id) rows) same;
    unique =
        λ s w u. (after_charge-Spares (paid s w).0).unique s (paid s w).1 (rw (paid-subs s w) u);
  }
    where
      paid : Subscription → Act (Payment × Bool)
      paid s = create_payment r.unicode r.adapter s.tenant_id (renewal_input r s config)

      paid-subs : (s : Subscription) (w : World) → (paid s w).1.subs ≡ w.subs
      paid-subs s =
          (create_payment-subs r.unicode r.adapter s.tenant_id (renewal_input r s config)).at

  on_credentials-Spares : (found : Result Config) → Spares (on_credentials r found)
  unfolding on_credentials
  on_credentials-Spares (err e) = without_credentials-Spares
  on_credentials-Spares (ok config) = with_credentials-Spares config

  pub renew-Spares : Spares (renew_subscription r)
  unfolding renew_subscription
  renew-Spares = record {
    others = λ id s.
        (on_credentials-Spares (r.validate_and_fetch s.tenant_id s.provider_name)).others id s;
    unique =
        λ s. (on_credentials-Spares (r.validate_and_fetch s.tenant_id s.provider_name)).unique s;
  }
