-- ===== src/Plan/Service/Outcomes.antt =====
-- What `CreateOrGet` returns and stores when the database answers.
use billax.Prelude.{
  ℕ, ◌+◌, ◌≡◌, refl, true, false, not, none, some, [], ◌∷◌, ◌++◌, ◌==◌, find, modify, Unicode,
}
use billax.Result.{ok}
use billax.World.{World, query}
use billax.World.Preserves.{Preserves, preserves_rules}
use billax.Plan.{Plan, CreatePlanInput}
use billax.Plan.Slug.{validate_create_input}
use billax.Plan.Repository.{has_slug, plan_of, plan_ok, touch, insert_or_touch, write_row, upsert}
use billax.Plan.Repository.Unique.{UniqueSlugs, upsert-UniqueSlugs}
use billax.Plan.Service.{normalized, create_or_get}

-- A request that passes the checks of the service and of the table.
pub record IsAccepted (u : Unicode) (tenant : ℕ) (input : CreatePlanInput) : Type 0 where
  pub has_tenant : not (tenant == 0) ≡ true
  pub valid : validate_create_input u input ≡ ok tt
  pub allowed : plan_ok (normalized u input) ≡ true

module _ (u : Unicode) (tenant : ℕ) (input : CreatePlanInput) (w : World)
    (h : IsAccepted u tenant input) (up : w.faults ≡ []) where
  -- For a request that passes the checks, under a slug that is new, with a database that
  -- answers: the plan is stored with the defaults filled in, and returned as created.
  pub create_or_get_new :
      find (has_slug tenant (normalized u input).slug) w.plans ≡ none
      → create_or_get u tenant input w ≡ (
        ok (plan_of tenant (normalized u input) w, true),
        record w {
          plans = w.plans ++ plan_of tenant (normalized u input) w ∷ [];
          fresh = w.fresh + 1;
        },
      )
  unfolding create_or_get upsert query write_row insert_or_touch
  create_or_get_new new = rw (h.has_tenant, h.valid, up, h.allowed, new) refl

  -- For a request that passes the checks, under a slug that is taken, with a database that
  -- answers: the plan that is stored under it comes back as not created, with nothing of the
  -- request in it but the time of the update.
  pub create_or_get_again :
      {old : Plan}
      → find (has_slug tenant (normalized u input).slug) w.plans ≡ some old
      → create_or_get u tenant input w ≡ (
        ok (touch w.now old, false),
        record w {
          plans = modify (has_slug tenant (normalized u input).slug) (touch w.now) w.plans;
        },
      )
  unfolding create_or_get upsert query write_row insert_or_touch
  create_or_get_again {old} taken = rw (h.has_tenant, h.valid, up, h.allowed, taken) refl

create_or_get-Unique :
    (u : Unicode) (tenant : ℕ) (input : CreatePlanInput)
    → Preserves (λ w. UniqueSlugs w.plans) (create_or_get u tenant input)
unfolding create_or_get
create_or_get-Unique u tenant input = search (preserves_rules, upsert-UniqueSlugs) depth 9

-- `CreateOrGet` keeps at most one plan for each tenant and slug, whether it succeeds or fails.
pub create_or_get-UniqueSlugs :
    (u : Unicode) (tenant : ℕ) (input : CreatePlanInput) (w : World)
    → UniqueSlugs w.plans
    → UniqueSlugs (create_or_get u tenant input w).1.plans
create_or_get-UniqueSlugs u tenant input w h = (create_or_get-Unique u tenant input).at w h
