-- ===== src/Plan/Repository.antt =====
-- internal/plan/repository.go: the statements on the table `plans`. `List` is in Plan/List.
pub mod Unique
use billax.Prelude.{
  ℕ, ◌+◌, Bool, true, false, ◌&&◌, Option, none, some, List, [], ◌∷◌, ◌++◌, ◌==◌, find, modify,
  fits_int32, Text, codes, text_eq,
}
use billax.Errors.{err_not_found, sentinel, wrap}
use billax.Result.{Result, ok, err}
use billax.Calendar.{Time}
use billax.Plan.{Plan, CreatePlanInput, UpdatePlanInput, UpsertResult}
use billax.Subscription.Periods.{is_known}
use billax.World.{World, Act, lift, ◌>>=◌, ◌>>◌, check, wrapped, constraint_error, query}

-- `WHERE tenant_id = $1 AND slug = $2`
abbrev pub has_slug : ℕ → Text → Plan → Bool
has_slug tenant slug p = p.tenant_id == tenant && text_eq p.slug slug

abbrev pub has_plan_id : ℕ → Plan → Bool
has_plan_id id p = p.id == id

abbrev found : List Plan → (Plan → Bool) → Result Plan
found rows p = elim (find p rows) [ none ↦ err (sentinel err_not_found) | some r ↦ ok r ]

-- The row that the INSERT of `Upsert` makes.
unfoldable pub plan_of : ℕ → CreatePlanInput → World → Plan
plan_of tenant input w = record {
  id = w.fresh;
  tenant_id = tenant;
  slug = input.slug;
  name = input.name;
  description = input.description;
  amount = input.amount;
  currency = input.currency;
  interval = input.interval;
  interval_count = input.interval_count;
  trial_days = input.trial_days;
  is_active = true;
  created_at = w.now;
  updated_at = w.now;
}

-- The CHECK on the interval, and the ranges of the INT columns; they are looked at before the conflict.
unfoldable pub plan_ok : CreatePlanInput → Bool
plan_ok input =
    is_known input.interval && fits_int32 input.interval_count && fits_int32 input.trial_days

unfoldable pub touch : Time → Plan → Plan
touch now p = record p { updated_at = now }

-- `ON CONFLICT (tenant_id, slug) DO UPDATE SET updated_at = now()`
unfoldable pub insert_or_touch : Option Plan → ℕ → CreatePlanInput → Act UpsertResult
unfolding plan_of touch
insert_or_touch none tenant input w = (
  ok (record { plan = plan_of tenant input w; created = true }),
  record w { plans = w.plans ++ plan_of tenant input w ∷ []; fresh = w.fresh + 1 },
)
insert_or_touch (some p) tenant input w = (
  ok (record { plan = touch w.now p; created = false }),
  record w { plans = modify (has_slug tenant input.slug) (touch w.now) w.plans },
)

-- The unique constraint on (tenant_id, slug) decides.
unfoldable pub write_row : ℕ → CreatePlanInput → Act UpsertResult
unfolding insert_or_touch
write_row tenant input w =
    insert_or_touch (find (has_slug tenant input.slug) w.plans) tenant input w

-- `Upsert`
unfoldable pub upsert : ℕ → CreatePlanInput → Act UpsertResult
unfolding query write_row plan_ok
upsert tenant input = do
  wrapped (codes "upsert plan") query
  check (plan_ok input) (wrap (codes "upsert plan") constraint_error)
  write_row tenant input

-- `GetByID`
unfoldable pub get_by_id : ℕ → Act Plan
unfolding query
get_by_id id w =
    (do wrapped (codes "get plan by id") query; lift (found w.plans (has_plan_id id))) w

-- `GetBySlug`
unfoldable pub get_by_slug : ℕ → Text → Act Plan
unfolding query
get_by_slug tenant slug w =
    (do wrapped (codes "get plan by slug") query; lift (found w.plans (has_slug tenant slug))) w

abbrev or_old {ℓ} : {A : Type ℓ} → Option A → A → A
or_old none old = old
or_old (some new) old = new

-- The SET clause of `Update`.
unfoldable pub apply_update : UpdatePlanInput → Time → Plan → Plan
apply_update input now p = record p {
  name = or_old input.name p.name;
  description = or_old input.description p.description;
  is_active = or_old input.is_active p.is_active;
  updated_at = now;
}

-- `Update`
unfoldable pub update : ℕ → UpdatePlanInput → Act Plan
unfolding query apply_update
update id input w =
    (do
      wrapped (codes "update plan") query
      p ← lift (found w.plans (has_plan_id id))
      λ w'. (
        ok (apply_update input w.now p),
        record w' { plans = modify (has_plan_id id) (apply_update input w.now) w'.plans },
      ))
      w

unfoldable pub deactivate : Time → Plan → Plan
deactivate now p = record p { is_active = false; updated_at = now }

-- `Delete`: that no row has the id is not noticed.
unfoldable pub delete : ℕ → Act (Unit {0})
unfolding query deactivate
delete id w =
    (do
      wrapped (codes "delete plan") query
      λ w'. (ok tt, record w' { plans = modify (has_plan_id id) (deactivate w.now) w'.plans }))
      w
