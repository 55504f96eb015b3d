-- ===== src/Subscription.antt =====
-- internal/subscription/model.go: subscriptions and the inputs of the subscription service. `Status` is
-- a string type of the source: the five constants, and `other_status` for any other string, which a
-- PATCH may name.
pub mod Due
pub mod Lifecycle
pub mod Periods
pub mod Repository
pub mod Service
pub mod Transitions
pub mod Tags
use billax.Prelude.{ℕ, Bool, Option, List, ℤ, Text, codes}
use billax.Calendar.{Time}
use billax.Plan.{Interval}
use billax.Payment.{Payment}

pub data SubscriptionStatus : Type 0 where
  trialing active past_due canceled expired : SubscriptionStatus
  other_status : Text → SubscriptionStatus

-- string(status)
abbrev pub status_text : SubscriptionStatus → Text
status_text trialing = codes "trialing"
status_text active = codes "active"
status_text past_due = codes "past_due"
status_text canceled = codes "canceled"
status_text expired = codes "expired"
status_text (other_status t) = t

-- `metadata` is the JSON text of the column, if it is not NULL; `tags` is `none` where the slice is nil.
pub record Subscription : Type 0 where
  pub id : ℕ
  pub tenant_id : ℕ
  pub plan_id : Option ℕ
  pub amount : ℤ
  pub currency : Text
  pub interval : Interval
  pub interval_count : ℤ
  pub subscription_key : ℕ
  pub external_customer_id : Text
  pub status : SubscriptionStatus
  pub provider_name : Text
  pub provider_subscription_id : Text
  pub current_period_start : Time
  pub current_period_end : Time
  pub trial_ends_at : Option Time
  pub canceled_at : Option Time
  pub cancel_at_period_end : Bool
  pub tags : Option (List Text)
  pub metadata : Option Text
  pub payments : List Payment
  pub created_at : Time
  pub updated_at : Time

pub record CreateSubscriptionInput : Type 0 where
  pub plan_slug : Text
  pub amount : ℤ
  pub currency : Text
  pub interval : Interval
  pub interval_count : ℤ
  pub external_customer_id : Text
  pub provider_name : Text
  pub provider_subscription_id : Text
  pub tags : List Text
  pub metadata : Option Text
  pub idempotency_key : Text

pub record UpdateSubscriptionInput : Type 0 where
  pub status : Option SubscriptionStatus
  pub cancel_at_period_end : Option Bool
  pub amount : Option ℤ
  pub tags : Option (List Text)
  pub tags_provided : Bool
  pub metadata : Option Text

pub record CreateResult : Type 0 where
  pub subscription : Subscription
  pub created : Bool
