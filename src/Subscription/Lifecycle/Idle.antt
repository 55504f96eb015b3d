-- ===== src/Subscription/Lifecycle/Idle.antt =====
-- Whom the lifecycle job leaves alone: a subscription that none of its three queries returns.
use billax.Prelude.{
  ℕ, ◌≡◌, refl, ap, ◌∙◌, ◌≢◌, ◌⊎◌, inl, inr, Bool, true, false, some, List, [], ◌∷◌, arith, find,
  All, Text, codes,
}
use billax.Subscription.Due.Listed.{list_where-unlisted, list_where-subs}
use billax.Subscription.Due.{
  selected, list_where, is_due, is_expired_trial, is_pending_expiry, list_due_for_renewal, or_now,
  list_expired_trials, list_past_due_pending_expiry,
}
use billax.Calendar.{Time}
use billax.Errors.{same}
use billax.Result.{Result, ok, err, wrap_err}
use billax.Subscription.{active, canceled, expired, Subscription}
use billax.Subscription.Repository.{has_id}
use billax.Subscription.Repository.Statements.{row_of, UniqueIds}
use billax.Subscription.Lifecycle.{
  LifecycleRunner, for_each, process, run_renewals, run_trial_expiry, run_past_due_expiry,
  grace_period_end, run_all_jobs, run,
}
use billax.World.{Row, World, Act, resume, ◌>>=◌, wrapped}
use billax.Subscription.Lifecycle.Spares.{Spares, update_status-Spares, renew-Spares}

-- What a job keeps of the row of id: the row, and the primary key.
record KeepsRow (id : ℕ) (w w' : World) : Type 0 where
  row : row_of id w' ≡ row_of id w
  unique : UniqueIds w.subs → UniqueIds w'.subs

for_each-KeepsRow :
    {body : Subscription → Act (Unit {0})} (id : ℕ) (subs : List Subscription) (w : World)
    → Spares body
    → All (λ s. id ≢ s.id) subs
    → KeepsRow id w (for_each body subs w)
unfolding for_each
for_each-KeepsRow id [] w h k = record { row = refl; unique = λ u. u }
for_each-KeepsRow {body} id (s ∷ ss) w h k =
    let later : KeepsRow id (body s w).1 (for_each body ss (body s w).1) =
      for_each-KeepsRow id ss (body s w).1 h k.1 in
    record { row = later.row ∙ h.others id s w k.0; unique = λ u. later.unique (h.unique s w u) }

-- One job: a query, and an action for each subscription that it returns.
module _ {body : Subscription → Act (Unit {0})} (spares : Spares body) (id : ℕ) where
  job_result :
      (prefix : Text) (w w' : World) (result : Result (List Subscription))
      → w'.subs ≡ w.subs
      → ((subs : List Subscription) → result ≡ ok subs → All (λ s. id ≢ s.id) subs)
      → KeepsRow id w (resume (wrap_err prefix result, w') (process body)).1
  unfolding process
  job_result prefix w w' (err e) same k = record {
    row = ap (find (has_id id)) same;
    unique = λ u. rw same u;
  }
  job_result prefix w w' (ok subs) same k =
      let later : KeepsRow id w' (for_each body subs w') =
        for_each-KeepsRow id subs w' spares (k subs refl) in
      record {
        row = later.row ∙ ap (find (has_id id)) same;
        unique = λ u. later.unique (rw same u);
      }

  job-KeepsRow :
      (p : Subscription → Bool) (prefix what : Text) (at : Subscription → Time) (start trial : Bool)
      (w : World) {x : Row}
      → UniqueIds w.subs
      → row_of id w ≡ some x
      → p x.sub ≡ false
      → KeepsRow id w
          ((wrapped prefix (list_where what p at (selected start trial)) >>= process body) w).1
  job-KeepsRow p prefix what at start trial w u f h =
      job_result prefix w (list_where what p at (selected start trial) w).1
        (list_where what p at (selected start trial) w).0
        ((list_where-subs what p at (selected start trial)).at w)
        (λ subs e. list_where-unlisted id p what at start trial w subs u f h e)

-- None of the three queries of the job returns the subscription.
pub record IsIdle (now grace_end : Time) (s : Subscription) : Type 0 where
  pub not_due : is_due now s ≡ false
  pub not_expired_trial : is_expired_trial now s ≡ false
  pub not_pending_expiry : is_pending_expiry grace_end s ≡ false

module _ (r : LifecycleRunner) (id : ℕ) where
  renewals-KeepsRow :
      (now : Time) (w : World) {x : Row}
      → UniqueIds w.subs
      → row_of id w ≡ some x
      → is_due now x.sub ≡ false
      → KeepsRow id w (run_renewals r now w).1
  unfolding run_renewals list_due_for_renewal
  renewals-KeepsRow now w u f h =
      job-KeepsRow (renew-Spares r) id (is_due now)
        (codes "running renewals: listing due subscriptions")
        (codes "list subscriptions due for renewal") (λ s. s.current_period_end) false true w u f h

  trial_expiry-KeepsRow :
      (now : Time) (w : World) {x : Row}
      → UniqueIds w.subs
      → row_of id w ≡ some x
      → is_expired_trial now x.sub ≡ false
      → KeepsRow id w (run_trial_expiry r now w).1
  unfolding run_trial_expiry list_expired_trials
  trial_expiry-KeepsRow now w u f h =
      job-KeepsRow (update_status-Spares active) id (is_expired_trial now)
        (codes "running trial expiry: listing expired trials")
        (codes "list subscriptions expired trials") (λ s. or_now now s.trial_ends_at) true true w u
        f h

  past_due_expiry-KeepsRow :
      (grace_end : Time) (w : World) {x : Row}
      → UniqueIds w.subs
      → row_of id w ≡ some x
      → is_pending_expiry grace_end x.sub ≡ false
      → KeepsRow id w (run_past_due_expiry r grace_end w).1
  unfolding run_past_due_expiry list_past_due_pending_expiry
  past_due_expiry-KeepsRow grace_end w u f h =
      job-KeepsRow (update_status-Spares expired) id (is_pending_expiry grace_end)
        (codes "running past due expiry: listing pending expiry")
        (codes "list subscriptions past due pending expiry") (λ s. s.current_period_end) false false
        w u f h

  run_all_jobs-KeepsRow :
      (w : World) {x : Row}
      → UniqueIds w.subs
      → row_of id w ≡ some x
      → IsIdle w.now (grace_period_end r w.now) x.sub
      → KeepsRow id w (run_all_jobs r w)
  unfolding run_all_jobs
  run_all_jobs-KeepsRow w u f idle =
      let renewed : World = (run_renewals r w.now w).1 in
      let k1 : KeepsRow id w renewed = renewals-KeepsRow w.now w u f idle.not_due in
      let begun : World = (run_trial_expiry r w.now renewed).1 in
      let k2 : KeepsRow id renewed begun =
        trial_expiry-KeepsRow w.now renewed (k1.unique u) (k1.row ∙ f) idle.not_expired_trial in
      let k3 : KeepsRow id begun (run_past_due_expiry r (grace_period_end r w.now) begun).1 =
        past_due_expiry-KeepsRow (grace_period_end r w.now) begun (k2.unique (k1.unique u))
          (k2.row ∙ k1.row ∙ f) idle.not_pending_expiry in
      record { row = k3.row ∙ k2.row ∙ k1.row; unique = λ v. k3.unique (k2.unique (k1.unique v)) }

  -- Where ids are unique, a subscription that none of the three queries returns, at any time,
  -- has the same row after a run, whatever the database, the credentials and the providers
  -- answer.
  pub run-idle :
      (ticks : List Time) (w : World) {x : Row}
      → UniqueIds w.subs
      → row_of id w ≡ some x
      → ((now : Time) → IsIdle now (grace_period_end r now) x.sub)
      → row_of id (run r ticks w) ≡ some x
  unfolding run
  run-idle [] w u f idle = f
  run-idle (now ∷ ticks) w u f idle =
      let k : KeepsRow id (record w { now = now }) (run_all_jobs r (record w { now = now })) =
        run_all_jobs-KeepsRow (record w { now = now }) u f (idle now) in
      run-idle ticks (run_all_jobs r (record w { now = now })) (k.unique u) (k.row ∙ f) idle

  ended-IsIdle :
      (now grace_end : Time) (s : Subscription)
      → (s.status ≡ canceled) ⊎ (s.status ≡ expired)
      → IsIdle now grace_end s
  unfolding is_due is_expired_trial is_pending_expiry
  ended-IsIdle now grace_end s (inl e) = record {
    not_due = rw e;
    not_expired_trial = rw e;
    not_pending_expiry = rw e;
  }
  ended-IsIdle now grace_end s (inr e) = record {
    not_due = rw e;
    not_expired_trial = rw e;
    not_pending_expiry = rw e;
  }

  -- Where ids are unique, a canceled or expired subscription is left as it is by every run of
  -- the job, over any ticks.
  pub run-ended :
      (ticks : List Time) (w : World) {x : Row}
      → UniqueIds w.subs
      → row_of id w ≡ some x
      → (x.sub.status ≡ canceled) ⊎ (x.sub.status ≡ expired)
      → row_of id (run r ticks w) ≡ some x
  run-ended ticks w {x} u f e =
      run-idle ticks w u f (λ now. ended-IsIdle now (grace_period_end r now) x.sub e)

  -- Where ids are unique, an active subscription that is to be canceled at the end of its period
  -- is left as it is by every run of the job, over any ticks: it stays active however long ago
  -- its period ended.
  pub run-cancel_at_period_end :
      (ticks : List Time) (w : World) {x : Row}
      → UniqueIds w.subs
      → row_of id w ≡ some x
      → x.sub.status ≡ active
      → x.sub.cancel_at_period_end ≡ true
      → row_of id (run r ticks w) ≡ some x
  unfolding is_due is_expired_trial is_pending_expiry
  run-cancel_at_period_end ticks w u f act flag = run-idle ticks w u f (λ now. record {
    not_due = ground arith;
    not_expired_trial = rw act;
    not_pending_expiry = rw act;
  })
