-- ===== src/Middleware/Auth.antt =====
-- internal/middleware/auth.go: the check of an API key. A header is the list of its bytes. The rows
-- are those of `tenant_api_keys`; the two flags say whether the SELECT and the `set_config` fail. The
-- hash, base64 of argon2id with the fixed parameters, is a parameter: of a token and its salt.
pub mod Sound
use billax.Prelude.{
  ℕ, Bool, false, not, ◌&&◌, Option, none, some, List, [], ◌∷◌, ltb, ◌==◌, if◌then◌else◌, length,
  take, find, Text, codes, text_eq,
}
use billax.Calendar.{Time, before}

pub record ApiKey : Type 0 where
  pub tenant_id : ℕ
  pub key_prefix : Text
  pub key_hash : Text
  pub expires_at : Option Time
  pub is_active : Bool

pub record KeyStore : Type 0 where
  pub keys : List ApiKey
  pub select_fails : Bool
  pub set_config_fails : Bool

-- What `AuthMiddleware` does with a request: it answers with an error of a status, a code and a
-- message, or hands it on with a tenant in its context.
pub data AuthOutcome : Type 0 where
  refused : ℕ → Text → Text → AuthOutcome
  authenticated : ℕ → AuthOutcome

-- `strings.SplitN(s, " ", 2)` with two parts.
unfoldable pub split_space : Text → Option (Text × Text)
split_space [] = none
split_space (c ∷ s) =
    let later = split_space s in
    if c == b' ' then some ([], s) else elim later [ none ↦ none | some p ↦ some (c ∷ p.0, p.1) ]

abbrev pub prefix_len : ℕ
prefix_len = 12

-- `WHERE key_prefix = $1 AND is_active = true`
unfoldable pub is_match : Text → ApiKey → Bool
unfolding text_eq
is_match prefix k = text_eq k.key_prefix prefix && k.is_active

unfoldable pub is_expired : ApiKey → Time → Bool
is_expired k now = elim k.expires_at [ none ↦ false | some t ↦ before t now ]

module _ (hash : Text → Text → Text) (store : KeyStore) (now : Time) where
  -- The checks of the row that was found.
  unfoldable pub check_key : Text → ApiKey → AuthOutcome
  unfolding is_expired text_eq
  check_key token k =
      if not k.is_active
      then refused 401 (codes "api_key_inactive") (codes "API key is inactive")
      else if is_expired k now
      then refused 401 (codes "api_key_expired") (codes "API key has expired")
      else if not (text_eq (hash token (take prefix_len token)) k.key_hash)
      then refused 401 (codes "invalid_api_key") (codes "Invalid API key")
      else if store.set_config_fails
      then refused 500 (codes "internal_error") (codes "Internal server error")
      else authenticated k.tenant_id

  unfoldable pub check_token : Text → AuthOutcome
  unfolding check_key is_match
  check_token token =
      if ltb (length token) prefix_len
      then refused 401 (codes "invalid_api_key") (codes "Invalid API key format")
      else if store.select_fails
      then refused 500 (codes "internal_error") (codes "Internal server error")
      else elim (find (is_match (take prefix_len token)) store.keys) [
        | none ↦ refused 401 (codes "invalid_api_key") (codes "Invalid API key")
        | some k ↦ check_key token k
      ]

  unfoldable pub check_parts : Option (Text × Text) → AuthOutcome
  unfolding check_token text_eq
  check_parts none =
      refused 401 (codes "invalid_auth_header") (codes "Invalid Authorization header format")
  check_parts (some (scheme, token)) =
      if text_eq scheme (codes "Bearer")
      then check_token token
      else refused 401 (codes "invalid_auth_header") (codes "Invalid Authorization header format")

  -- `AuthMiddleware`, up to `next.ServeHTTP`.
  unfoldable pub authenticate : Text → AuthOutcome
  unfolding check_parts split_space
  authenticate [] = refused 401 (codes "missing_auth_header") (codes "Missing Authorization header")
  authenticate (c ∷ header) = check_parts (split_space (c ∷ header))
