-- ===== src/Credentials/Service.antt =====
-- internal/providercredentials/service.go, over the repository. Log lines are left out.
use billax.Prelude.{
  ℕ, Bool, true, not, ◌&&◌, ◌||◌, List, [], ◌∷◌, ◌++◌, Text, codes, text_eq, is_space, trim_left,
  trim_space, quote, ascii,
}
use billax.Errors.{err_not_found, sentinel, wrap}
use billax.Result.{Result, ok, err}
use billax.Provider.{Config, lookup_provider, ProviderAdapter}
use billax.Credentials.{ProviderConfig, Vault}
use billax.Credentials.Repository
use billax.Credentials.Repository.{
  missing_tenant, invalid, is_nil, is_given, is_filled, set, get, list, delete,
  get_tenant_by_webhook_secret,
}
use billax.World.{Act, pure, lift, ◌>>=◌, ◌>>◌, check, wrapped}

-- The loop over a config: no key and no value is blank.
unfoldable pub is_complete : Config → Bool
unfolding trim_space trim_left is_space text_eq
is_complete [] = true
is_complete ((k, value) ∷ rest) =
    not (text_eq (trim_space k) [] || text_eq (trim_space value) []) && is_complete rest

-- An error of another part is replaced by one that says `ErrInvalidInput`.
abbrev pub hidden {ℓ} : {A : Type ℓ} → Text → Result A → Result A
hidden what (ok a) = ok a
hidden what (err e) = err (invalid what)

abbrev pub hiding {ℓ} : {A : Type ℓ} → Text → Act A → Act A
hiding what m w = let (r, w') = m w in (hidden what r, w')

abbrev names_of : List ProviderConfig → List Text
names_of [] = []
names_of (c ∷ cs) = c.provider_name ∷ names_of cs

module _ (v : Vault) (a : ProviderAdapter) where
  -- `SetProviderConfig`
  unfoldable pub set_provider_config : ℕ → Text → Config → Act (Unit {0})
  unfolding is_complete lookup_provider quote Repository.set
  set_provider_config tenant name config = do
    check (not (is_nil tenant)) (missing_tenant (codes "set provider config"))
    check (is_given name) (invalid (codes "set provider config: provider_name cannot be empty"))
    check (is_filled config) (invalid (codes "set provider config: config cannot be empty"))
    check (is_complete config)
        (invalid (codes "set provider config: config keys and values must be non-empty strings"))
    p ← lift (
        hidden
          (codes "set provider config: provider " ++ (quote ascii name ++ codes " not registered"))
          (lookup_provider a.registry name))
    lift (
        hidden (codes "set provider config: invalid config for " ++ name)
          (p.validate_config config))
    wrapped (codes "set provider config: storing credentials") (Repository.set v tenant name config)

  -- `GetProviderConfig`
  unfoldable pub get_provider_config : ℕ → Text → Act Config
  unfolding Repository.get
  get_provider_config tenant name = do
    check (not (is_nil tenant)) (missing_tenant (codes "get provider config"))
    check (is_given name) (invalid (codes "get provider config: provider_name cannot be empty"))
    hiding (codes "get provider config: provider not configured for this tenant")
        (Repository.get v tenant name)

  -- `ValidateAndFetch`
  unfoldable pub validate_and_fetch : ℕ → Text → Act Config
  unfolding lookup_provider quote Repository.get
  validate_and_fetch tenant name = do
    check (not (is_nil tenant)) (missing_tenant (codes "validate and fetch"))
    check (is_given name) (invalid (codes "validate and fetch: provider_name cannot be empty"))
    p ← lift (
        hidden
          (codes "validate and fetch: provider " ++ (quote ascii name ++ codes " not registered"))
          (lookup_provider a.registry name))
    hiding (codes "validate and fetch: provider not configured") (Repository.get v tenant name)

  -- `ListProviders`
  unfoldable pub list_providers : ℕ → Act (List Text)
  unfolding Repository.list
  list_providers tenant = do
    check (not (is_nil tenant)) (missing_tenant (codes "list providers"))
    configs ← wrapped (codes "list providers") (Repository.list v tenant)
    pure (names_of configs)

  -- `DeleteProviderConfig`
  unfoldable pub delete_provider_config : ℕ → Text → Act (Unit {0})
  unfolding Repository.delete
  delete_provider_config tenant name = do
    check (not (is_nil tenant)) (missing_tenant (codes "delete provider config"))
    check (is_given name) (invalid (codes "delete provider config: provider_name cannot be empty"))
    wrapped (codes "delete provider config") (Repository.delete v tenant name)

  abbrev not_found_if {ℓ} : {A : Type ℓ} → Text → Act A → Act A
  not_found_if what m w =
      let (r, w') = m w in
      (elim r [ ok found ↦ ok found | err e ↦ err (wrap what (sentinel err_not_found)) ], w')

  -- `LookupByWebhookSecret`
  unfoldable pub lookup_by_webhook_secret : Text → Act (ℕ × Text × Config)
  unfolding Repository.get_tenant_by_webhook_secret
  lookup_by_webhook_secret secret = do
    check (is_given secret) (invalid (codes "lookup by webhook secret: secret cannot be empty"))
    not_found_if (codes "lookup by webhook secret")
        (Repository.get_tenant_by_webhook_secret v secret)
