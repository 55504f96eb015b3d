-- ===== src/Tenant/Service/Signups.antt =====
-- internal/tenant/service.go, repository.go: no slug and no email stands for two tenants.
use mathlib.Core.Path.{subst}
use billax.Prelude.{
  ℕ, ◌≡◌, ◌∙◌, inl, inr, false, not, none, List, [], ◌∷◌, ◌++◌, arith, Option-cases, find, All,
  All-append_one, Text, Unicode, text_eq_symm,
}
use billax.Errors.{Error}
use billax.Tenant.{Tenant, SignupInput, CreateKeyInput}
use billax.Tenant.Keygen.{KeySource}
use billax.Tenant.Repository
use billax.Tenant.Repository.{has_slug, has_email, clash, new_tenant, insert_tenant, recast, create}
use billax.Tenant.Keys.{key_clash, insert_key, create_api_key}
use billax.Tenant.Service.{past_expiry, is_past, issue, create_key, signup}
use billax.World.{World, Act, check, query, new_uuid}
use billax.World.Preserves.{Preserves, Preserves-check, Preserves-bind, preserves_rules}

-- No two tenants have the same slug, and no two the same email.
abbrev pub UniqueTenants : List Tenant → Type 0
UniqueTenants [] = Unit
UniqueTenants (t ∷ ts) =
    All (λ q. (has_slug t.slug q ≡ false) × (has_email t.email q ≡ false)) ts × UniqueTenants ts

UniqueTenants-append :
    (ts : List Tenant) (q : Tenant)
    → find (has_slug q.slug) ts ≡ none
    → find (has_email q.email) ts ≡ none
    → UniqueTenants ts
    → UniqueTenants (ts ++ q ∷ [])
UniqueTenants-append [] q s e u = (tt, tt)
UniqueTenants-append (t ∷ ts) q s e u = (
  All-append_one _ ts q u.0
      (text_eq_symm q.slug t.slug ∙ ground arith, text_eq_symm q.email t.email ∙ ground arith),
  UniqueTenants-append ts q (ground arith) (ground arith) u.1,
)

abbrev Unique : World → Type 0
Unique w = UniqueTenants w.tenants

query-Unique : Preserves Unique query
unfolding query
query-Unique = record { at = λ w u. subst UniqueTenants (query-tenants w) u }
  where
    query-tenants : (w : World) → w.tenants ≡ (query w).1.tenants
    query-tenants w = ground arith

new_uuid-Unique : Preserves Unique new_uuid
unfolding new_uuid
new_uuid-Unique = record { at = λ w u. u }

insert_tenant-Unique : (t : Tenant) → Preserves Unique (insert_tenant t)
unfolding insert_tenant clash
insert_tenant-Unique t = record { at = λ w u. inserted w u }
  where
    inserted : (w : World) → Unique w → Unique (insert_tenant t w).1
    inserted w u = elim (Option-cases (find (has_slug t.slug) w.tenants)) [
      | inl free ↦ elim (Option-cases (find (has_email t.email) w.tenants)) [
        | inl unused ↦
            rw (insert_tenant, clash, free, unused)
              (UniqueTenants-append w.tenants (new_tenant w t) free unused u)
        | inr (q, taken) ↦ rw (insert_tenant, clash, free, taken) u
      ]
      | inr (q, taken) ↦ rw (insert_tenant, clash, taken) u
    ]

Preserves-recast :
    {A : Type 0} (f : Error → Error) (m : Act A)
    → Preserves Unique m
    → Preserves Unique (recast f m)
Preserves-recast f m k = record { at = λ w u. k.at w u }

create-Unique : (t : Tenant) → Preserves Unique (Repository.create t)
unfolding Repository.create
create-Unique t = search (preserves_rules, query-Unique, insert_tenant-Unique, Preserves-recast)

insert_key-Unique :
    (tenant : ℕ) (prefix hashed : Text) (input : CreateKeyInput)
    → Preserves Unique (insert_key tenant prefix hashed input)
unfolding insert_key
insert_key-Unique tenant prefix hashed input = record { at = λ w u. inserted w u }
  where
    inserted : (w : World) → Unique w → Unique (insert_key tenant prefix hashed input w).1
    inserted w u = elim (Option-cases (key_clash w tenant prefix)) [
      | inl free ↦ rw (insert_key, free) u
      | inr (e, taken) ↦ rw (insert_key, taken) u
    ]

create_api_key-Unique :
    (tenant : ℕ) (prefix hashed : Text) (input : CreateKeyInput)
    → Preserves Unique (create_api_key tenant prefix hashed input)
unfolding create_api_key
create_api_key-Unique tenant prefix hashed input =
    search (preserves_rules, query-Unique, insert_key-Unique)

module _ (u : Unicode) (s : KeySource) (env : Text) where
  issue-Unique :
      (tenant : ℕ) (input : CreateKeyInput) → Preserves Unique (issue u s env tenant input)
  unfolding issue
  issue-Unique tenant input = search (preserves_rules, new_uuid-Unique, create_api_key-Unique)

  create_key-Unique :
      (tenant : ℕ) (input : CreateKeyInput) → Preserves Unique (create_key u s env tenant input)
  unfolding create_key
  create_key-Unique tenant input = record {
    at = λ w k.
        (Preserves-bind (check (not (is_past input.expires_at w.now)) past_expiry)
            (λ _. issue u s env tenant input) (Preserves-check _ past_expiry)
            (λ _. issue-Unique tenant input)).at
          w k;
  }

  signup-Unique : (input : SignupInput) → Preserves Unique (signup u s env input)
  unfolding signup
  signup-Unique input =
      search (preserves_rules, new_uuid-Unique, create-Unique, create_key-Unique) depth 8

  -- A sign-up keeps slugs and emails unique among the tenants, whatever the database answers.
  pub signup-UniqueTenants :
      (input : SignupInput) (w : World)
      → UniqueTenants w.tenants
      → UniqueTenants (signup u s env input w).1.tenants
  signup-UniqueTenants input w h = (signup-Unique input).at w h
