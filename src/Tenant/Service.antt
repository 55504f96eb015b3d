-- ===== src/Tenant/Service.antt =====
-- internal/tenant/service.go: the tenant service, over the two tables of its repository.
pub mod Signups
pub mod Issued
use billax.Prelude.{
  ℕ, Bool, true, false, not, Option, none, some, List, [], ◌∷◌, if◌then◌else◌, Text, codes, text_eq,
  Unicode,
}
use billax.Errors.{FieldError, Error, validation}
use billax.Result.{Result, ok, err, wrap_err}
use billax.Validation.{add_all, err_of, field_error, non_empty, max_length, contains}
use billax.Calendar.{Time, before}
use billax.Tenant.{Tenant, ApiKey, PlaintextKey, SignupInput, CreateKeyInput}
use billax.Tenant.Keygen.{KeySource, generate_api_key}
use billax.Tenant.Slug.{generate_slug_from_name, validate_slug}
use billax.Tenant.Keys.{create_api_key, list_api_keys, revoke_api_key}
use billax.Tenant.Repository
use billax.World.{Act, pure, lift, ◌>>=◌, ◌>>◌, check, wrapped, new_uuid}

-- `validateProviderName`
unfoldable pub validate_provider_name : Text → Result (Unit {0})
unfolding contains
validate_provider_name name =
    if contains (codes "mercadopago" ∷ codes "stripe" ∷ codes "helipagos" ∷ []) name
    then ok tt
    else err (
        validation (
          field_error (codes "provider_name")
            (codes "must be one of: mercadopago, stripe, helipagos")
          ∷ []))

abbrev past_expiry : Error
past_expiry = validation (field_error (codes "expires_at") (codes "must be in the future") ∷ [])

-- `input.ExpiresAt.Before(time.Now())`
abbrev pub is_past : Option Time → Time → Bool
is_past none now = false
is_past (some t) now = before t now

-- The slug is checked only if it is given.
abbrev given_slug : Text → Option FieldError
given_slug [] = none
given_slug (c ∷ s) = validate_slug (c ∷ s)

abbrev signup_checks : SignupInput → List (Option FieldError)
signup_checks input =
    non_empty (codes "name") input.name
    ∷ max_length (codes "name") input.name 255
    ∷ non_empty (codes "email") input.email
    ∷ given_slug input.slug
    ∷ []

abbrev pub slug_of : Unicode → SignupInput → Text
slug_of u input = if text_eq input.slug [] then generate_slug_from_name u input.name else input.slug

abbrev pub tenant_of : Unicode → ℕ → SignupInput → Tenant
tenant_of u id input = record {
  id = id;
  name = input.name;
  slug = slug_of u input;
  email = input.email;
  is_active = true;
  default_provider_name = [];
  created_at = record { day = 0; nanos = 0 };
  updated_at = record { day = 0; nanos = 0 };
}

module _ (u : Unicode) (s : KeySource) (env : Text) where
  -- `CreateKey` once the expiry is checked
  unfoldable pub issue : ℕ → CreateKeyInput → Act PlaintextKey
  unfolding generate_api_key new_uuid create_api_key
  issue tenant input = do
    n ← new_uuid
    g ← lift (wrap_err (codes "generating api key") (generate_api_key s n env))
    k ← create_api_key tenant g.prefix g.hashed input
    pure (record { key = g.plaintext; api_key = k })

  -- `CreateKey`
  unfoldable pub create_key : ℕ → CreateKeyInput → Act PlaintextKey
  unfolding issue
  create_key tenant input w =
      (do check (not (is_past input.expires_at w.now)) past_expiry; issue tenant input) w

  -- `Signup`: the uuid that it makes is not used, the database makes its own.
  unfoldable pub signup : SignupInput → Act (Tenant × PlaintextKey)
  unfolding err_of add_all non_empty max_length validate_slug new_uuid Repository.create create_key
      text_eq generate_slug_from_name
  signup input = do
    lift (err_of (add_all [] (signup_checks input)))
    id ← new_uuid
    created ← Repository.create (tenant_of u id input)
    k ←
        wrapped (codes "creating initial key")
          (create_key created.id (record { description = codes "Initial key"; expires_at = none }))
    pure (created, k)

-- `ListKeys`
abbrev pub list_keys : ℕ → Act (List ApiKey)
list_keys = list_api_keys

-- `RevokeKey`
abbrev pub revoke_key : ℕ → ℕ → Act (Unit {0})
revoke_key = revoke_api_key

-- `SetDefaultProvider`
unfoldable pub set_default_provider : ℕ → Text → Act Tenant
unfolding validate_provider_name Repository.update_default_provider
set_default_provider tenant name = do
  lift (validate_provider_name name)
  Repository.update_default_provider tenant name
