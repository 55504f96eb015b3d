-- ===== src/Tenant/Repository.antt =====
-- internal/tenant/repository.go: the statements on `tenants` and `tenant_api_keys`, with the
-- constraints of migrations 001, 006 and 007. Each operation takes a connection from the pool first.
use billax.Prelude.{
  ℕ, ◌+◌, Bool, true, ◌&&◌, ◌||◌, Option, none, some, List, [], ◌∷◌, ◌++◌, ◌==◌, if◌then◌else◌,
  find, modify, Text, codes, text_eq,
}
use billax.Errors.{err_not_found, err_conflict, Error, sentinel, domain, wrap, opaque}
use billax.Result.{Result, ok, err}
use billax.Validation.{contains}
use billax.Tenant.{Tenant}
use billax.Tenant.Keygen.{has_prefix}
use billax.Errors.Respond.{error_text}
use billax.World.{World, Act, lift, ◌>>◌, wrapped, query}

-- `contains`: the loop over the places where `substr` may stand
unfoldable pub contains_text : Text → Text → Bool
unfolding has_prefix
contains_text [] substr = has_prefix substr []
contains_text (c ∷ s) substr = has_prefix substr (c ∷ s) || contains_text s substr

-- `containsStr`
unfoldable pub contains_str : Text → List Text → Bool
unfolding contains_text
contains_str s [] = true
contains_str s (substr ∷ rest) = contains_text s substr && contains_str s rest

abbrev pub acquire : Act (Unit {0})
acquire = wrapped (codes "acquiring connection") query

abbrev pub has_slug : Text → Tenant → Bool
has_slug slug t = text_eq t.slug slug

abbrev pub has_email : Text → Tenant → Bool
has_email email t = text_eq t.email email

abbrev pub has_id : ℕ → Tenant → Bool
has_id id t = t.id == id

abbrev duplicate : Text → Text
duplicate index =
    codes "ERROR: duplicate key value violates unique constraint \""
    ++ (index ++ codes "\" (SQLSTATE 23505)")

-- The unique index that a new row would violate, as the message of the driver.
unfoldable pub clash : Tenant → List Tenant → Option Text
unfolding text_eq
clash t rows = elim (find (has_slug t.slug) rows) [
  | some taken ↦ some (duplicate (codes "tenants_slug_key"))
  | none ↦ elim (find (has_email t.email) rows) [
    | some taken ↦ some (duplicate (codes "idx_tenants_email"))
    | none ↦ none
  ]
]

-- What `Create` makes of an error of the INSERT, by its text.
unfoldable pub create_error : Error → Error
unfolding contains_str error_text
create_error e =
    let message = error_text e in
    if contains_str message (codes "unique constraint" ∷ codes "slug" ∷ [])
      || contains_str message (codes "duplicate key" ∷ codes "slug" ∷ [])
    then domain (codes "duplicate_slug") (codes "a tenant with this slug already exists") 409
        (sentinel err_conflict)
    else if contains_str message (codes "unique constraint" ∷ codes "email" ∷ [])
        || contains_str message (codes "duplicate key" ∷ codes "email" ∷ [])
    then domain (codes "duplicate_email") (codes "this email is already registered") 409
        (sentinel err_conflict)
    else wrap (codes "creating tenant") e

abbrev pub new_tenant : World → Tenant → Tenant
new_tenant w t = record {
  id = w.fresh;
  name = t.name;
  slug = t.slug;
  email = t.email;
  is_active = true;
  default_provider_name = codes "mercadopago";
  created_at = w.now;
  updated_at = w.now;
}

unfoldable pub insert_tenant : Tenant → Act Tenant
unfolding clash
insert_tenant t w = elim (clash t w.tenants) [
  | some message ↦ (err (opaque message), w)
  | none ↦ (
    ok (new_tenant w t),
    record w { tenants = w.tenants ++ new_tenant w t ∷ []; fresh = w.fresh + 1 },
  )
]

abbrev pub recast {ℓ} : {A : Type ℓ} → (Error → Error) → Act A → Act A
recast f m w = let (r, w') = m w in (elim r [ ok a ↦ ok a | err e ↦ err (f e) ], w')

-- `Create`
unfoldable pub create : Tenant → Act Tenant
unfolding query insert_tenant create_error
create t = do acquire; recast create_error (do query; insert_tenant t)

abbrev first_tenant : List Tenant → (Tenant → Bool) → Result Tenant
first_tenant rows p = elim (find p rows) [ none ↦ err (sentinel err_not_found) | some t ↦ ok t ]

-- `GetBySlug`, `GetByID`, `GetByEmail`
unfoldable pub get_by_slug : Text → Act Tenant
unfolding query text_eq
get_by_slug slug w =
    (do
      acquire
      wrapped (codes "getting tenant by slug") query
      lift (first_tenant w.tenants (has_slug slug)))
      w

unfoldable pub get_by_id : ℕ → Act Tenant
unfolding query
get_by_id id w =
    (do
      acquire
      wrapped (codes "getting tenant by id") query
      lift (first_tenant w.tenants (has_id id)))
      w

unfoldable pub get_by_email : Text → Act Tenant
unfolding query text_eq
get_by_email email w =
    (do
      acquire
      wrapped (codes "getting tenant by email") query
      lift (first_tenant w.tenants (has_email email)))
      w

abbrev providers : List Text
providers = codes "mercadopago" ∷ codes "stripe" ∷ codes "helipagos" ∷ []

abbrev check_failed : Error
check_failed = opaque (
    codes
      "ERROR: new row for relation \"tenants\" violates check constraint \"valid_default_provider\" (SQLSTATE 23514)")

abbrev pub with_provider : World → Text → Tenant → Tenant
with_provider w name t = record t { default_provider_name = name; updated_at = w.now }

unfoldable pub set_default : ℕ → Text → Act Tenant
unfolding contains
set_default id name w = elim (find (has_id id) w.tenants) [
  | none ↦ (err (sentinel err_not_found), w)
  | some t ↦
      if contains providers name
      then (
        ok (with_provider w name t),
        record w { tenants = modify (has_id id) (with_provider w name) w.tenants },
      )
      else (err (wrap (codes "updating default provider") check_failed), w)
]

-- `UpdateDefaultProvider`
unfoldable pub update_default_provider : ℕ → Text → Act Tenant
unfolding query set_default
update_default_provider id name = do
  acquire
  wrapped (codes "updating default provider") query
  set_default id name
