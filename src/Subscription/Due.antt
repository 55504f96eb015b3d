-- ===== src/Subscription/Due.antt =====
-- The queries of the lifecycle job, in internal/subscription/repository.go, with the functions of
-- migrations/009_lifecycle_indexes.up.sql that they call. Those queries name a column `interval` where
-- the functions return `interval_type`; the model reads the column that is meant.
pub mod Listed
use billax.Prelude.{
  Bool, true, false, not, ◌&&◌, Option, none, some, List, [], ◌∷◌, map, if◌then◌else◌, take, select,
  Text, codes, text_eq,
}
use billax.Calendar.{Time, zero_time, at_or_before}
use billax.Subscription.{SubscriptionStatus, trialing, active, past_due, status_text, Subscription}
use billax.World.{Act, pure, ◌>>=◌, ◌>>◌, wrapped, query}

-- `ORDER BY … ASC`
insert_by : (Subscription → Time) → Subscription → List Subscription → List Subscription
insert_by at s [] = s ∷ []
insert_by at s (t ∷ ts) =
    let later = insert_by at s ts in if at_or_before (at s) (at t) then s ∷ t ∷ ts else t ∷ later

unfoldable pub sort_by : (Subscription → Time) → List Subscription → List Subscription
unfolding insert_by
sort_by at [] = []
sort_by at (s ∷ ss) = insert_by at s (sort_by at ss)

-- The columns that a query reads; the other fields keep Go's zero value. The start of the period and
-- the end of the trial are read by some of the queries.
abbrev pub selected : Bool → Bool → Subscription → Subscription
selected start trial s = record s {
  plan_id = none;
  current_period_start = if start then s.current_period_start else zero_time;
  trial_ends_at = if trial then s.trial_ends_at else none;
  canceled_at = none;
  cancel_at_period_end = false;
  tags = none;
  metadata = none;
  payments = [];
  created_at = zero_time;
  updated_at = zero_time;
}

-- `SELECT … WHERE … ORDER BY … LIMIT 100` over all tenants.
unfoldable pub list_where :
    Text
    → (Subscription → Bool)
    → (Subscription → Time)
    → (Subscription → Subscription)
    → Act (List Subscription)
unfolding query sort_by
list_where what p at columns w =
    (do
      wrapped what query
      pure (map columns (take 100 (sort_by at (select p (map (λ r. r.sub) w.subs))))))
      w

abbrev pub same_status : SubscriptionStatus → SubscriptionStatus → Bool
same_status a b = text_eq (status_text a) (status_text b)

-- `list_subscriptions_due_for_renewal`; the column provider_name is never NULL, as `Create` writes a
-- string into it.
unfoldable pub is_due : Time → Subscription → Bool
unfolding text_eq
is_due now s =
    same_status s.status active
    && at_or_before s.current_period_end now
    && not s.cancel_at_period_end

abbrev trial_over : Time → Option Time → Bool
trial_over now none = false
trial_over now (some t) = at_or_before t now

-- `list_subscriptions_expired_trials`
unfoldable pub is_expired_trial : Time → Subscription → Bool
unfolding text_eq
is_expired_trial now s = same_status s.status trialing && trial_over now s.trial_ends_at

-- `list_subscriptions_past_due_pending_expiry`
unfoldable pub is_pending_expiry : Time → Subscription → Bool
unfolding text_eq
is_pending_expiry grace_period_end s =
    same_status s.status past_due && at_or_before s.current_period_end grace_period_end

-- `ListDueForRenewal`
unfoldable pub list_due_for_renewal : Time → Act (List Subscription)
unfolding list_where is_due
list_due_for_renewal now =
    list_where (codes "list subscriptions due for renewal") (is_due now) (λ s. s.current_period_end)
      (selected false true)

abbrev pub or_now : Time → Option Time → Time
or_now now none = now
or_now now (some t) = t

-- `ListExpiredTrials`
unfoldable pub list_expired_trials : Time → Act (List Subscription)
unfolding list_where is_expired_trial
list_expired_trials now =
    list_where (codes "list subscriptions expired trials") (is_expired_trial now)
      (λ s. or_now now s.trial_ends_at) (selected true true)

-- `ListPastDuePendingExpiry`
unfoldable pub list_past_due_pending_expiry : Time → Act (List Subscription)
unfolding list_where is_pending_expiry
list_past_due_pending_expiry grace_period_end =
    list_where (codes "list subscriptions past due pending expiry")
      (is_pending_expiry grace_period_end) (λ s. s.current_period_end) (selected false false)
