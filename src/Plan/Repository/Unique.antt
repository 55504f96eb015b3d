-- ===== src/Plan/Repository/Unique.antt =====
-- One plan for each tenant and slug, and what an upsert of a slug that is taken gives.
use mathlib.Core.Path.{subst}
use billax.Prelude.{
  ℕ, ◌≡◌, refl, ◌∙◌, inl, inr, Bool, false, Option, none, some, List, [], ◌∷◌, ◌++◌, arith,
  Bool-cases, find, modify, All, All-append_one, Text, text_eq_symm,
}
use billax.Result.{ok}
use billax.Calendar.{Time}
use billax.World.{World, query}
use billax.World.Preserves.{Preserves, preserves_rules}
use billax.Plan.{Plan, CreatePlanInput}
use billax.Plan.Repository.{
  has_slug, plan_of, touch, insert_or_touch, write_row, upsert, get_by_slug,
}

-- No two plans have the same tenant and slug.
abbrev pub UniqueSlugs : List Plan → Type 0
UniqueSlugs [] = Unit
UniqueSlugs (p ∷ ps) = All (λ q. has_slug p.tenant_id p.slug q ≡ false) ps × UniqueSlugs ps

has_slug_symm : (p q : Plan) → has_slug p.tenant_id p.slug q ≡ has_slug q.tenant_id q.slug p
has_slug_symm p q = ground (arith, text_eq_symm q.slug p.slug)

UniqueSlugs-append :
    (ps : List Plan) (q : Plan)
    → find (has_slug q.tenant_id q.slug) ps ≡ none
    → UniqueSlugs ps
    → UniqueSlugs (ps ++ q ∷ [])
UniqueSlugs-append [] q f u = (tt, tt)
UniqueSlugs-append (p ∷ ps) q f u = (
  All-append_one _ ps q u.0 (has_slug_symm p q ∙ ground arith),
  UniqueSlugs-append ps q (ground arith) u.1,
)

All-touch :
    (p : Plan) (test : Plan → Bool) (now : Time) (ps : List Plan)
    → All (λ q. has_slug p.tenant_id p.slug q ≡ false) ps
    → All (λ q. has_slug p.tenant_id p.slug q ≡ false) (modify test (touch now) ps)
unfolding touch
All-touch p test now [] h = tt
All-touch p test now (q ∷ ps) h = (ground (arith, h.0), All-touch p test now ps h.1)

-- Rows that are touched keep their tenants and slugs.
UniqueSlugs-touch :
    (test : Plan → Bool) (now : Time) (ps : List Plan)
    → UniqueSlugs ps
    → UniqueSlugs (modify test (touch now) ps)
unfolding touch
UniqueSlugs-touch test now [] h = tt
UniqueSlugs-touch test now (p ∷ ps) h = elim (Bool-cases (test p)) [
  | inl hit ↦ rw hit (All-touch p test now ps h.0, UniqueSlugs-touch test now ps h.1)
  | inr miss ↦ rw miss (All-touch p test now ps h.0, UniqueSlugs-touch test now ps h.1)
]

abbrev Unique : World → Type 0
Unique w = UniqueSlugs w.plans

query-Unique : Preserves Unique query
unfolding query
query-Unique = record { at = λ w u. subst UniqueSlugs (query-plans w) u }
  where
    query-plans : (w : World) → w.plans ≡ (query w).1.plans
    query-plans w = ground arith

insert_or_touch-Unique :
    (o : Option Plan) (tenant : ℕ) (input : CreatePlanInput) (w : World)
    → find (has_slug tenant input.slug) w.plans ≡ o
    → Unique w
    → Unique (insert_or_touch o tenant input w).1
unfolding insert_or_touch plan_of
insert_or_touch-Unique none tenant input w e u =
    UniqueSlugs-append w.plans (plan_of tenant input w) e u
insert_or_touch-Unique (some p) tenant input w e u = UniqueSlugs-touch _ w.now w.plans u

write_row-Unique :
    (tenant : ℕ) (input : CreatePlanInput) → Preserves Unique (write_row tenant input)
unfolding write_row
write_row-Unique tenant input = record {
  at = λ w u. insert_or_touch-Unique _ tenant input w refl u;
}

-- The upsert keeps at most one plan for each tenant and slug, whatever the database answers.
pub upsert-UniqueSlugs :
    (tenant : ℕ) (input : CreatePlanInput)
    → Preserves (λ w. UniqueSlugs w.plans) (upsert tenant input)
unfolding upsert
upsert-UniqueSlugs tenant input = search (preserves_rules, query-Unique, write_row-Unique)

-- A plan that is there is found.
pub get_by_slug_ok :
    (tenant : ℕ) (slug : Text) (w : World) {p : Plan}
    → w.faults ≡ []
    → find (has_slug tenant slug) w.plans ≡ some p
    → get_by_slug tenant slug w ≡ (ok p, w)
unfolding get_by_slug query
get_by_slug_ok tenant slug w up there = ground arith
