-- ===== src/Tenant/Keys.antt =====
-- internal/tenant/repository.go: the statements on `tenant_api_keys`.
use billax.Prelude.{
  ℕ, ◌+◌, Bool, true, false, ◌&&◌, Option, none, some, List, [], ◌∷◌, ◌++◌, ◌==◌, if◌then◌else◌,
  select, find, modify, Text, codes, text_eq,
}
use billax.Errors.{err_not_found, Error, sentinel, domain, opaque}
use billax.Result.{Result, ok, err}
use billax.Calendar.{at_or_before}
use billax.Tenant.{ApiKey, KeyRow, CreateKeyInput}
use billax.Tenant.Repository.{has_id}
use billax.World.{World, Act, pure, lift, ◌>>◌, wrapped, query}

abbrev pub acquire : Act (Unit {0})
acquire = wrapped (codes "acquiring connection") query

-- UNIQUE(tenant_id, key_prefix)
abbrev pub has_prefix_of : ℕ → Text → KeyRow → Bool
has_prefix_of tenant prefix r = r.api_key.tenant_id == tenant && text_eq r.api_key.key_prefix prefix

-- `WHERE id = $1 AND tenant_id = $2`
abbrev pub is_key_of : ℕ → ℕ → KeyRow → Bool
is_key_of tenant id r = r.api_key.id == id && r.api_key.tenant_id == tenant

abbrev prefix_taken : Error
prefix_taken = opaque (
    codes
      "ERROR: duplicate key value violates unique constraint \"tenant_api_keys_tenant_id_key_prefix_key\" (SQLSTATE 23505)")

abbrev no_tenant : Error
no_tenant = opaque (
    codes
      "ERROR: insert or update on table \"tenant_api_keys\" violates foreign key constraint \"tenant_api_keys_tenant_id_fkey\" (SQLSTATE 23503)")

abbrev pub new_key : World → ℕ → Text → Text → CreateKeyInput → KeyRow
new_key w tenant prefix hashed input = record {
  api_key = record {
    id = w.fresh;
    tenant_id = tenant;
    key_prefix = prefix;
    scopes = codes "read" ∷ codes "write" ∷ [];
    description = input.description;
    last_used_at = none;
    expires_at = input.expires_at;
    is_active = true;
    created_at = w.now;
  };
  key_hash = hashed;
}

-- The constraint that the INSERT violates.
unfoldable pub key_clash : World → ℕ → Text → Option Error
unfolding text_eq
key_clash w tenant prefix = elim (find (has_prefix_of tenant prefix) w.api_keys) [
  | some taken ↦ some prefix_taken
  | none ↦ elim (find (has_id tenant) w.tenants) [ none ↦ some no_tenant | some t ↦ none ]
]

unfoldable pub insert_key : ℕ → Text → Text → CreateKeyInput → Act ApiKey
unfolding key_clash
insert_key tenant prefix hashed input w = elim (key_clash w tenant prefix) [
  | some e ↦ (err e, w)
  | none ↦
      let r = new_key w tenant prefix hashed input in
      (ok r.api_key, record w { api_keys = w.api_keys ++ r ∷ []; fresh = w.fresh + 1 })
]

-- `CreateAPIKey`
unfoldable pub create_api_key : ℕ → Text → Text → CreateKeyInput → Act ApiKey
unfolding query insert_key
create_api_key tenant prefix hashed input = do
  acquire
  wrapped (codes "creating api key") (do query; insert_key tenant prefix hashed input)

-- `ORDER BY created_at DESC`
insert_latest : ApiKey → List ApiKey → List ApiKey
insert_latest k [] = k ∷ []
insert_latest k (q ∷ qs) =
    let later = insert_latest k qs in
    if at_or_before q.created_at k.created_at then k ∷ q ∷ qs else q ∷ later

unfoldable pub latest_keys : List KeyRow → List ApiKey
unfolding insert_latest
latest_keys [] = []
latest_keys (r ∷ rs) = insert_latest r.api_key (latest_keys rs)

-- `ListAPIKeys`
unfoldable pub list_api_keys : ℕ → Act (List ApiKey)
unfolding query latest_keys
list_api_keys tenant w =
    (do
      acquire
      wrapped (codes "listing api keys") query
      pure (
          latest_keys
            (select (λ r. r.api_key.tenant_id == tenant && r.api_key.is_active) w.api_keys)))
      w

abbrev pub key_not_found : Error
key_not_found =
    domain (codes "key_not_found") (codes "API key not found") 404 (sentinel err_not_found)

abbrev first_key : List KeyRow → (KeyRow → Bool) → Result ApiKey
first_key rows p = elim (find p rows) [ none ↦ err key_not_found | some r ↦ ok r.api_key ]

-- `GetAPIKeyByID`
unfoldable pub get_api_key_by_id : ℕ → ℕ → Act ApiKey
unfolding query
get_api_key_by_id tenant id w =
    (do
      acquire
      wrapped (codes "getting api key") query
      lift (first_key w.api_keys (is_key_of tenant id)))
      w

abbrev pub deactivated : KeyRow → KeyRow
deactivated r = let k = r.api_key in record r { api_key = record k { is_active = false } }

unfoldable pub deactivate : ℕ → ℕ → Act (Unit {0})
deactivate tenant id w = elim (find (is_key_of tenant id) w.api_keys) [
  | none ↦ (err key_not_found, w)
  | some r ↦ (ok tt, record w { api_keys = modify (is_key_of tenant id) deactivated w.api_keys })
]

-- `RevokeAPIKey`
unfoldable pub revoke_api_key : ℕ → ℕ → Act (Unit {0})
unfolding query deactivate
revoke_api_key tenant id = do
  acquire
  wrapped (codes "revoking api key") query
  deactivate tenant id
