-- ===== src/Credentials/Repository.antt =====
-- internal/providercredentials/repository.go: the statements on `provider_credentials`, with the
-- constraints of migrations 004 and 008. The webhook secret is stored as the empty text, not as NULL,
-- where a config has none, so the unique index covers it.
use billax.Prelude.{
  ℕ, zero, suc, Bool, true, false, not, ◌&&◌, ◌||◌, Option, none, some, List, [], ◌∷◌, ◌++◌, ltb,
  ◌==◌, if◌then◌else◌, select, find, modify, Text, codes, text_eq, quote, ascii,
}
use billax.Errors.{
  err_not_found, err_invalid_input, err_missing_tenant_id, Error, sentinel, wrap, opaque,
}
use billax.Result.{Result, ok, err, wrap_err}
use billax.Validation.{contains}
use billax.Provider.{Config, config_value}
use billax.Tenant.{Tenant}
use billax.Credentials.{CredentialRow, ProviderConfig, Vault}
use billax.Credentials.Codec.{read_config, sealed}
use billax.World.{World, Act, pure, lift, ◌>>=◌, ◌>>◌, check, wrapped, query, new_uuid}

-- `WHERE tenant_id = $1 AND provider_name = $2`
abbrev pub is_credential : ℕ → Text → CredentialRow → Bool
is_credential tenant name r = r.tenant_id == tenant && text_eq r.provider_name name

abbrev known_providers : List Text
known_providers = codes "mercadopago" ∷ codes "stripe" ∷ codes "helipagos" ∷ []

-- A row of another key with the same webhook secret.
abbrev pub is_other_secret : ℕ → Text → Text → CredentialRow → Bool
is_other_secret tenant name secret r =
    not (is_credential tenant name r) && text_eq r.webhook_secret secret

abbrev check_violation : Text
check_violation =
    codes
      "ERROR: new row for relation \"provider_credentials\" violates check constraint \"valid_provider_name\" (SQLSTATE 23514)"

abbrev unique_violation : Text
unique_violation =
    codes
      "ERROR: duplicate key value violates unique constraint \"idx_provider_credentials_webhook_secret\" (SQLSTATE 23505)"

abbrev foreign_violation : Text
foreign_violation =
    codes
      "ERROR: insert or update on table \"provider_credentials\" violates foreign key constraint \"provider_credentials_tenant_id_fkey\" (SQLSTATE 23503)"

abbrev has_tenant : ℕ → Tenant → Bool
has_tenant id t = t.id == id

abbrev is_some {ℓ} : {A : Type ℓ} → Option A → Bool
is_some none = false
is_some (some a) = true

-- The constraint that the row of a `Set` would violate, as the message of the driver.
unfoldable pub violation : World → ℕ → Text → Text → Option Text
unfolding contains text_eq
violation w tenant name secret =
    if not (contains known_providers name)
    then some check_violation
    else if is_some (find (is_other_secret tenant name secret) w.credentials)
    then some unique_violation
    else if not (is_some (find (has_tenant tenant) w.tenants))
    then some foreign_violation
    else none

abbrev pub replaced : World → Text → Text → CredentialRow → CredentialRow
replaced w config secret r = record r {
  config = config;
  webhook_secret = secret;
  updated_at = w.now;
}

abbrev pub new_row : World → ℕ → Text → Text → Text → CredentialRow
new_row w tenant name config secret = record {
  tenant_id = tenant;
  provider_name = name;
  config = config;
  webhook_secret = secret;
  created_at = w.now;
  updated_at = w.now;
}

-- The row is added, or takes the place of the one that is there.
unfoldable pub put_row : World → ℕ → Text → Text → Text → List CredentialRow → List CredentialRow
unfolding text_eq
put_row w tenant name config secret rows = elim (find (is_credential tenant name) rows) [
  | some r ↦ modify (is_credential tenant name) (replaced w config secret) rows
  | none ↦ rows ++ new_row w tenant name config secret ∷ []
]

-- The comparison of `execErr.Error()` with the text of a violated constraint.
unfoldable pub set_error : Text → Text → Error
unfolding text_eq quote
set_error name message =
    if text_eq message (
      codes
        "new row for relation \"provider_credentials\" violates check constraint \"valid_provider_name\"")
    then wrap (codes "set credentials: invalid provider " ++ quote ascii name)
        (sentinel err_invalid_input)
    else wrap (codes "set credentials") (opaque message)

unfoldable pub upsert_row : ℕ → Text → Text → Text → Act (Unit {0})
unfolding violation put_row set_error
upsert_row tenant name config secret w = elim (violation w tenant name secret) [
  | some message ↦ (err (set_error name message), w)
  | none ↦ (ok tt, record w { credentials = put_row w tenant name config secret w.credentials })
]

abbrev pub missing_tenant : Text → Error
missing_tenant what = wrap what (sentinel err_missing_tenant_id)

abbrev pub invalid : Text → Error
invalid what = wrap what (sentinel err_invalid_input)

-- `tenantID == uuid.Nil`
abbrev pub is_nil : ℕ → Bool
is_nil zero = true
is_nil (suc n) = false

abbrev pub is_given : Text → Bool
is_given [] = false
is_given (c ∷ s) = true

abbrev pub is_filled : Config → Bool
is_filled [] = false
is_filled (c ∷ s) = true

module _ (v : Vault) where
  -- `Set`
  unfoldable pub set : ℕ → Text → Config → Act (Unit {0})
  unfolding config_value new_uuid sealed query upsert_row
  set tenant name config = do
    check (not (is_nil tenant)) (missing_tenant (codes "set credentials"))
    check (is_given name) (invalid (codes "set credentials: provider_name cannot be empty"))
    check (is_filled config) (invalid (codes "set credentials: config cannot be empty"))
    plain ← lift (wrap_err (codes "set credentials: marshaling config") (v.marshal config))
    n ← new_uuid
    stored ← lift (sealed v n plain)
    wrapped (codes "set credentials") query
    upsert_row tenant name stored (config_value config (codes "webhook_secret"))

  abbrev found : Text → Option CredentialRow → Result CredentialRow
  found what none = err (wrap what (sentinel err_not_found))
  found what (some r) = ok r

  -- `Get`
  unfoldable pub get : ℕ → Text → Act Config
  unfolding query read_config
  get tenant name w =
      (do
        check (not (is_nil tenant)) (missing_tenant (codes "get credentials"))
        check (is_given name) (invalid (codes "get credentials: provider_name cannot be empty"))
        wrapped (codes "get credentials") query
        r ← lift (found (codes "get credentials") (find (is_credential tenant name) w.credentials))
        lift (read_config v (codes "get credentials") (codes ": unmarsaling config") r.config))
        w

  -- A row of `List` in its order.
  text_before : Text → Text → Bool
  text_before s [] = false
  text_before [] (d ∷ t) = true
  text_before (c ∷ s) (d ∷ t) = ltb c d || c == d && text_before s t

  insert_named : CredentialRow → List CredentialRow → List CredentialRow
  unfolding text_before
  insert_named r [] = r ∷ []
  insert_named r (q ∷ qs) =
      let later = insert_named r qs in
      if text_before q.provider_name r.provider_name then q ∷ later else r ∷ q ∷ qs

  -- `ORDER BY provider_name`
  unfoldable pub by_name : List CredentialRow → List CredentialRow
  unfolding insert_named
  by_name [] = []
  by_name (r ∷ rs) = insert_named r (by_name rs)

  abbrev provider_config : CredentialRow → Config → ProviderConfig
  provider_config r config = record {
    provider_name = r.provider_name;
    config = config;
    created_at = r.created_at;
    updated_at = r.updated_at;
  }

  -- The loop over the rows: the first config that is not read ends it.
  unfoldable pub read_all : List CredentialRow → Act (List ProviderConfig)
  unfolding read_config
  read_all [] = pure []
  read_all (r ∷ rs) = do
    config ←
        lift (read_config v (codes "list credentials") (codes ": unmarshaling config") r.config)
    later ← read_all rs
    pure (provider_config r config ∷ later)

  -- `List`
  unfoldable pub list : ℕ → Act (List ProviderConfig)
  unfolding query by_name read_all
  list tenant w =
      (do
        check (not (is_nil tenant)) (missing_tenant (codes "list credentials"))
        wrapped (codes "list credentials") query
        read_all (by_name (select (λ r. r.tenant_id == tenant) w.credentials)))
        w

  -- `RowsAffected() == 0`
  unfoldable pub delete_rows : ℕ → Text → Act (Unit {0})
  delete_rows tenant name w = elim (find (is_credential tenant name) w.credentials) [
    | none ↦ (err (wrap (codes "delete credentials") (sentinel err_not_found)), w)
    | some r ↦ (
      ok tt,
      record w { credentials = select (λ q. not (is_credential tenant name q)) w.credentials },
    )
  ]

  -- `Delete`
  unfoldable pub delete : ℕ → Text → Act (Unit {0})
  unfolding query delete_rows
  delete tenant name = do
    check (not (is_nil tenant)) (missing_tenant (codes "delete credentials"))
    check (is_given name) (invalid (codes "delete credentials: provider_name cannot be empty"))
    wrapped (codes "delete credentials") query
    delete_rows tenant name

  -- `lookup_tenant_by_webhook_secret`
  abbrev pub has_secret : Text → CredentialRow → Bool
  has_secret secret r = text_eq r.webhook_secret secret

  -- `GetTenantByWebhookSecret`
  unfoldable pub get_tenant_by_webhook_secret : Text → Act (ℕ × Text × Config)
  unfolding query read_config text_eq
  get_tenant_by_webhook_secret secret w =
      (do
        check (is_given secret)
            (invalid (codes "get tenant by webhook secret: secret cannot be empty"))
        wrapped (codes "get tenant by webhook secret") query
        r ←
            lift (
              found (codes "get tenant by webhook secret") (find (has_secret secret) w.credentials))
        config ← lift (
            read_config v (codes "get tenant by webhook secret") (codes ": unmarshaling config")
              r.config)
        pure (r.tenant_id, r.provider_name, config))
        w
