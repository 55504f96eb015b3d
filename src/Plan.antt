-- ===== src/Plan.antt =====
-- internal/plan/model.go: plans, their billing intervals, and the inputs of the plan service. `Interval`
-- is a string type of the source: the four constants, and `other` for any other string.
pub mod List
pub mod Repository
pub mod Service
pub mod Slug
use billax.Prelude.{ℕ, Bool, Option, ℤ, Text, codes}
use billax.Calendar.{Time}

pub data Interval : Type 0 where
  day week month year : Interval
  other_interval : Text → Interval

-- string(interval)
abbrev pub interval_text : Interval → Text
interval_text day = codes "day"
interval_text week = codes "week"
interval_text month = codes "month"
interval_text year = codes "year"
interval_text (other_interval t) = t

-- Uuids are numbers here; `uuid.Nil` is 0.
pub record Plan : Type 0 where
  pub id : ℕ
  pub tenant_id : ℕ
  pub slug : Text
  pub name : Text
  pub description : Text
  pub amount : ℤ
  pub currency : Text
  pub interval : Interval
  pub interval_count : ℤ
  pub trial_days : ℤ
  pub is_active : Bool
  pub created_at : Time
  pub updated_at : Time

pub record CreatePlanInput : Type 0 where
  pub slug : Text
  pub name : Text
  pub description : Text
  pub amount : ℤ
  pub currency : Text
  pub interval : Interval
  pub interval_count : ℤ
  pub trial_days : ℤ

pub record UpdatePlanInput : Type 0 where
  pub name : Option Text
  pub description : Option Text
  pub is_active : Option Bool

pub record UpsertResult : Type 0 where
  pub plan : Plan
  pub created : Bool
