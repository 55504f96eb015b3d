-- ===== src/Tenant/Service/Issued.antt =====
-- internal/tenant/service.go and internal/middleware/auth.go together: a key that is made is accepted,
-- and a key that is revoked stays inactive.
use billax.Prelude.{
  ℕ, ◌+◌, ◌≡◌, refl, inl, inr, Bool, ◌&&◌, ◌⊎◌, modify, true, false, none, some, List, [], ◌∷◌,
  ◌++◌, arith, Bool-cases, Option-cases, eq→text_eq, text_eq_refl, ltb, ◌∙◌, ap, length, take, find,
  Text, codes, text_eq, Unicode,
}
use billax.Result.{ok, err}
use billax.Tenant.{Tenant, KeyRow, PlaintextKey, CreateKeyInput}
use billax.Tenant.Keygen.{KeySource, prefix_of, generate_api_key}
use billax.Tenant.Repository.{has_id}
use billax.Tenant.Keys.{
  has_prefix_of, new_key, key_clash, insert_key, create_api_key, is_key_of, deactivated, deactivate,
  key_not_found, revoke_api_key,
}
use billax.Tenant.Service.{is_past, issue, create_key, revoke_key}
use billax.Calendar.{Time}
use billax.Middleware.Auth
use billax.Middleware.Auth.{
  KeyStore, authenticated, split_space, prefix_len, is_match, is_expired, check_key, check_token,
  check_parts, authenticate,
}
use billax.World.{World, query, new_uuid}

-- A row of the table as the middleware reads it.
abbrev pub auth_row : KeyRow → Auth.ApiKey
auth_row r = record {
  tenant_id = r.api_key.tenant_id;
  key_prefix = r.api_key.key_prefix;
  key_hash = r.key_hash;
  expires_at = r.api_key.expires_at;
  is_active = r.api_key.is_active;
}

abbrev pub auth_rows : List KeyRow → List Auth.ApiKey
auth_rows [] = []
auth_rows (r ∷ rs) = auth_row r ∷ auth_rows rs

-- The middleware over the table, where its statements do not fail.
abbrev pub store_of : World → KeyStore
store_of w = record { keys = auth_rows w.api_keys; select_fails = false; set_config_fails = false }

-- A row of any tenant with the prefix.
abbrev pub bears : Text → KeyRow → Bool
bears prefix r = text_eq r.api_key.key_prefix prefix

no_clash :
    (rows : List KeyRow) (tenant : ℕ) (prefix : Text)
    → find (bears prefix) rows ≡ none
    → find (has_prefix_of tenant prefix) rows ≡ none
no_clash [] tenant prefix h = refl
no_clash (r ∷ rows) tenant prefix h = ground (arith, h, no_clash rows tenant prefix)

find_last :
    (rows : List KeyRow) (r : KeyRow) (prefix : Text)
    → find (bears prefix) rows ≡ none
    → is_match prefix (auth_row r) ≡ true
    → find (is_match prefix) (auth_rows (rows ++ r ∷ [])) ≡ some (auth_row r)
unfolding is_match
find_last [] r prefix h hit = rw hit refl
find_last (q ∷ rows) r prefix h hit = elim (Bool-cases (bears prefix q)) [
  | inl taken ↦ absurd (ground (arith, taken, h))
  | inr free ↦ rw (is_match, free) (find_last rows r prefix (ground (arith, free, h)) hit)
]

split_space-bearer :
    (token : Text) → split_space (codes "Bearer " ++ token) ≡ some (codes "Bearer", token)
unfolding split_space
split_space-bearer token = refl

bears_fits :
    (r : KeyRow) (prefix : Text)
    → r.api_key.key_prefix ≡ prefix
    → r.api_key.is_active ≡ true
    → is_match prefix (auth_row r) ≡ true
unfolding is_match
bears_fits r prefix e active = rw (e, active, text_eq_refl prefix) refl

-- A key that is active, has not expired and has the hash of the token lets it in.
check_key_fits :
    (hash : Text → Text → Text) (store : KeyStore) (now : Time) (token : Text) (k : Auth.ApiKey)
    → k.is_active ≡ true
    → is_expired k now ≡ false
    → hash token (take prefix_len token) ≡ k.key_hash
    → store.set_config_fails ≡ false
    → check_key hash store now token k ≡ authenticated k.tenant_id
unfolding check_key
check_key_fits hash store now token k active ahead verified works =
    rw (active, ahead, eq→text_eq _ _ verified, works) refl

check_token_fits :
    (hash : Text → Text → Text) (store : KeyStore) (now : Time) (token : Text) (k : Auth.ApiKey)
    → ltb (length token) prefix_len ≡ false
    → store.select_fails ≡ false
    → find (is_match (take prefix_len token)) store.keys ≡ some k
    → check_token hash store now token ≡ check_key hash store now token k
unfolding check_token
check_token_fits hash store now token k long works there = rw (long, works, there) refl

bearer_lem :
    (hash : Text → Text → Text) (store : KeyStore) (now : Time) (token : Text)
    → authenticate hash store now (codes "Bearer " ++ token) ≡ check_token hash store now token
unfolding authenticate check_parts text_eq
bearer_lem hash store now token = ap (check_parts hash store now) (split_space-bearer token)

is_expired-auth_row :
    (r : KeyRow) (now : Time) → is_expired (auth_row r) now ≡ is_past r.api_key.expires_at now
unfolding is_expired
is_expired-auth_row r now = elim (Option-cases r.api_key.expires_at) [
  | inl none' ↦ rw none' refl
  | inr (d, e) ↦ rw e refl
]

module _ (u : Unicode) (s : KeySource) (env : Text) (tenant : ℕ) (input : CreateKeyInput)
    (w : World) (random_bytes : Text) (t : Tenant) where
  abbrev plaintext : Text
  plaintext = prefix_of env ++ s.encode_url random_bytes

  abbrev issued : World → KeyRow
  issued v = new_key v tenant (take 12 plaintext) (s.hash plaintext (take 12 plaintext)) input

  -- The world of the INSERT.
  abbrev w1 : World
  w1 = record w { fresh = w.fresh + 1 }

  create_key_new :
      w.faults ≡ []
      → is_past input.expires_at w.now ≡ false
      → s.read_random w.fresh 32 ≡ ok random_bytes
      → find (has_id tenant) w.tenants ≡ some t
      → find (bears (take 12 plaintext)) w.api_keys ≡ none
      → create_key u s env tenant input w ≡ (
        ok (record { key = plaintext; api_key = (issued w1).api_key }),
        record w { api_keys = w.api_keys ++ issued w1 ∷ []; fresh = w.fresh + 1 + 1 },
      )
  unfolding create_key issue generate_api_key new_uuid create_api_key insert_key key_clash query
      text_eq
  create_key_new calm ahead drawn known free =
      rw (ahead, drawn, calm, no_clash w.api_keys tenant (take 12 plaintext) free, known) refl

  -- A key that is made for a tenant is accepted for that tenant, at once: if the database does not
  -- fail, the expiry is not past, the random bytes are drawn and encode as two characters or more,
  -- the tenant is there and no key has the same first 12 characters, then `CreateKey` succeeds, and
  -- a request with the key in its header is handed on for the tenant.
  pub create_key_authenticated :
      w.faults ≡ []
      → is_past input.expires_at w.now ≡ false
      → s.read_random w.fresh 32 ≡ ok random_bytes
      → ltb (length plaintext) 12 ≡ false
      → find (has_id tenant) w.tenants ≡ some t
      → find (bears (take 12 plaintext)) w.api_keys ≡ none
      → (k : PlaintextKey) × (w' : World) × (create_key u s env tenant input w ≡ (ok k, w'))
        × (authenticate s.hash (store_of w') w'.now (codes "Bearer " ++ k.key)
            ≡ authenticated tenant)
  create_key_authenticated calm ahead drawn long known free =
      let there =
        find_last w.api_keys (issued w1) (take 12 plaintext) free
          (bears_fits (issued w1) (take 12 plaintext) refl refl) in
      (
        _,
        _,
        create_key_new calm ahead drawn known free,
        bearer_lem s.hash _ _ plaintext
            ∙ check_token_fits s.hash _ _ plaintext (auth_row (issued w1)) long refl there
            ∙ check_key_fits s.hash _ _ plaintext (auth_row (issued w1)) refl
                (is_expired-auth_row (issued w1) w.now ∙ ahead) refl refl,
      )

-- The rows of a key, once they are deactivated.
find-deactivated :
    (tenant id : ℕ) (rows : List KeyRow)
    → find
        (λ r. is_key_of tenant id r && r.api_key.is_active)
        (modify (is_key_of tenant id) deactivated rows)
      ≡ none
find-deactivated tenant id [] = refl
find-deactivated tenant id (r ∷ rows) = elim (Bool-cases (is_key_of tenant id r)) [
  | inl hit ↦ rw (hit, hit) (find-deactivated tenant id rows)
  | inr miss ↦ rw (miss, miss) (find-deactivated tenant id rows)
]

-- If the database does not fail, then either the key is unknown to its tenant, and revoking it answers
-- so and changes nothing, or it is known, and after revoking it no row of the key is active.
pub revoke_key_lem :
    (tenant id : ℕ) (w : World)
    → w.faults ≡ []
    → ((find (is_key_of tenant id) w.api_keys ≡ none)
        × (revoke_key tenant id w ≡ (err key_not_found, w)))
      ⊎ ((w' : World) × (revoke_key tenant id w ≡ (ok tt, w'))
          × (find (λ r. is_key_of tenant id r && r.api_key.is_active) w'.api_keys ≡ none))
unfolding revoke_api_key deactivate query
revoke_key_lem tenant id w calm = elim (Option-cases (find (is_key_of tenant id) w.api_keys)) [
  | inl unknown ↦ inl (unknown, rw (calm, unknown) refl)
  | inr (r, known) ↦ inr (
    record w { api_keys = modify (is_key_of tenant id) deactivated w.api_keys },
    rw (calm, known) refl,
    find-deactivated tenant id w.api_keys,
  )
]
