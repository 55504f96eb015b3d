-- ===== src/Plan/Service.antt =====
-- internal/plan/service.go. The tenant is that of the context; 0 is `uuid.Nil`. `List` is in Plan/List.
pub mod Outcomes
use billax.Prelude.{
  ℕ, zero, Bool, not, [], ◌==◌, if◌then◌else◌, ℤ, pos, Text, codes, text_eq, Unicode, fold_case,
}
use billax.Errors.{err_missing_tenant_id, sentinel}
use billax.Plan.{Plan, CreatePlanInput, UpdatePlanInput}
use billax.Plan.Slug.{validate_create_input, validate_update_input}
use billax.World.{Act, pure, lift, ◌>>=◌, ◌>>◌, check, wrapped}
use billax.Plan.Repository

abbrev default_count : ℤ → ℤ
default_count (pos zero) = pos 1
default_count n = n

-- The defaults of `CreateOrGet`, and the slug in its normal form.
unfoldable pub normalized : Unicode → CreatePlanInput → CreatePlanInput
unfolding fold_case text_eq
normalized u input = record input {
  currency = if text_eq input.currency [] then codes "ARS" else input.currency;
  interval_count = default_count input.interval_count;
  slug = fold_case u input.slug;
}

-- `CreateOrGet`
unfoldable pub create_or_get : Unicode → ℕ → CreatePlanInput → Act (Plan × Bool)
unfolding normalized
create_or_get u tenant input = do
  check (not (tenant == 0)) (sentinel err_missing_tenant_id)
  lift (validate_create_input u input)
  result ← wrapped (codes "creating plan") (Repository.upsert tenant (normalized u input))
  pure (result.plan, result.created)

-- `GetByID`
abbrev pub get_by_id : ℕ → Act Plan
get_by_id id = Repository.get_by_id id

-- `GetBySlug`
unfoldable pub get_by_slug : Unicode → ℕ → Text → Act Plan
unfolding fold_case
get_by_slug u tenant slug = do
  check (not (tenant == 0)) (sentinel err_missing_tenant_id)
  Repository.get_by_slug tenant (fold_case u slug)

-- `Update`
unfoldable pub update : ℕ → UpdatePlanInput → Act Plan
update id input = do lift (validate_update_input input); Repository.update id input

-- `Delete`
unfoldable pub delete : ℕ → Act (Unit {0})
delete id = wrapped (codes "deleting plan") (Repository.delete id)
