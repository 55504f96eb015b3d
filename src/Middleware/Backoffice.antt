-- ===== src/Middleware/Backoffice.antt =====
-- internal/middleware/backoffice.go: the check of the token of a user of the backoffice. A header is
-- the list of its bytes. The flag says whether the `set_config` fails.
pub mod Accepts
use billax.Prelude.{
  ℕ, Bool, not, Option, none, some, [], ◌∷◌, ◌++◌, if◌then◌else◌, Text, codes, text_eq,
}
use billax.Errors.{opaque}
use billax.Result.{Result, ok, err}
use billax.Calendar.{Time}
use billax.Backoffice.Token.{MapClaims, TokenHeader, Jwt, unix}
use billax.Middleware.Auth.{split_space}

-- What is put into the context of the request; the tenant also as that of the request.
pub record BackofficeContext : Type 0 where
  pub backoffice_user_id : ℕ
  pub backoffice_tenant_id : ℕ
  pub backoffice_role : Text
  pub tenant_id : ℕ

-- An error of a status, a code and a message, or the request with its context.
pub data BackofficeOutcome : Type 0 where
  refused : ℕ → Text → Text → BackofficeOutcome
  admitted : BackofficeContext → BackofficeOutcome

abbrev invalid_token : Text → BackofficeOutcome
invalid_token message = refused 401 (codes "invalid_token") message

abbrev bad_claims : BackofficeOutcome
bad_claims = invalid_token (codes "Invalid token claims")

abbrev bad_header : BackofficeOutcome
bad_header = refused 401 (codes "invalid_auth_header") (codes "Invalid Authorization header format")

-- The function for the key.
abbrev pub hmac_key : Text → TokenHeader → Result Text
hmac_key secret header =
    if not header.is_hmac
    then err (opaque (codes "unexpected signing method: " ++ header.alg))
    else ok secret

module _ (j : Jwt) (secret : Text) (set_config_fails : Bool) where
  abbrev check_role : ℕ → ℕ → Option Text → BackofficeOutcome
  check_role user_id tenant_id none = bad_claims
  check_role user_id tenant_id (some role) =
      if set_config_fails
      then refused 500 (codes "internal_error") (codes "Internal server error")
      else admitted (record {
        backoffice_user_id = user_id;
        backoffice_tenant_id = tenant_id;
        backoffice_role = role;
        tenant_id = tenant_id;
      })

  abbrev check_tenant : ℕ → Option Text → Option Text → BackofficeOutcome
  check_tenant user_id none role = bad_claims
  check_tenant user_id (some text) role = elim (j.parse_uuid text) [
    | err e ↦ invalid_token (codes "Invalid tenant ID in token")
    | ok tenant_id ↦ check_role user_id tenant_id role
  ]

  abbrev check_user : Option Text → MapClaims → BackofficeOutcome
  check_user none claims = bad_claims
  check_user (some text) claims = elim (j.parse_uuid text) [
    | err e ↦ invalid_token (codes "Invalid user ID in token")
    | ok user_id ↦ check_tenant user_id claims.tenant_id claims.role
  ]

  unfoldable pub check_jwt : Text → Time → BackofficeOutcome
  check_jwt token now = elim (j.parse token (hmac_key secret) (unix now)) [
    | err e ↦ invalid_token (codes "Invalid or expired token")
    | ok claims ↦ check_user claims.user_id claims
  ]

  unfoldable pub check_scheme : Option (Text × Text) → Time → BackofficeOutcome
  unfolding check_jwt text_eq
  check_scheme none now = bad_header
  check_scheme (some (scheme, token)) now =
      if text_eq scheme (codes "Bearer") then check_jwt token now else bad_header

  -- `BackofficeAuth`, up to `next.ServeHTTP`.
  unfoldable pub backoffice_auth : Text → Time → BackofficeOutcome
  unfolding check_scheme split_space
  backoffice_auth [] now =
      refused 401 (codes "missing_auth_header") (codes "Missing Authorization header")
  backoffice_auth (c ∷ header) now = check_scheme (split_space (c ∷ header)) now
