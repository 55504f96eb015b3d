-- ===== src/Middleware/Backoffice/Accepts.antt =====
-- internal/middleware/backoffice.go with internal/backoffice/jwt.go and service.go: the tokens that a
-- login gives are those that the middleware accepts.
use billax.Prelude.{ℕ, ◌+◌, ◌<◌, ◌≡◌, refl, ◌∙◌, false, [], ◌++◌, Text, codes, text_eq}
use billax.Result.{ok}
use billax.Calendar.{Time}
use billax.Backoffice.{User, role_text}
use billax.Backoffice.Token.{Jwt, IsJwt, unix, claims_of, generate_token, generate_token_lem}
use billax.Backoffice.Service.{BackofficeService, login}
use billax.Backoffice.Service.Sessions.{login_issued}
use billax.Middleware.Auth.{split_space}
use billax.Middleware.Backoffice.{
  BackofficeContext, admitted, hmac_key, check_jwt, check_scheme, backoffice_auth,
}
use billax.World.{World}

abbrev pub context_of : User → BackofficeContext
context_of user = record {
  backoffice_user_id = user.id;
  backoffice_tenant_id = user.tenant_id;
  backoffice_role = role_text user.role;
  tenant_id = user.tenant_id;
}

abbrev bearer : Text → Text
bearer token = codes "Bearer " ++ token

backoffice_auth-bearer :
    (j : Jwt) (secret token : Text) (fails : _) (now : Time)
    → backoffice_auth j secret fails (bearer token) now ≡ check_jwt j secret fails token now
unfolding backoffice_auth split_space check_scheme text_eq
backoffice_auth-bearer j secret token fails now = refl

check_jwt-generate_token :
    (j : Jwt) (laws : IsJwt j) (user : User) (secret token : Text) (ttl : ℕ) (made now : Time)
    → generate_token j user secret ttl made ≡ ok token
    → unix now < unix made + ttl
    → check_jwt j secret false token now ≡ admitted (context_of user)
unfolding check_jwt
check_jwt-generate_token j laws user secret token ttl made now h ahead =
    let claims = claims_of j user ttl (unix made) in
    let (has_secret, signed) = generate_token_lem j user secret token ttl made h in
    let parsed = laws.parses claims secret token (hmac_key secret) (unix now) signed refl ahead in
    rw (check_jwt, parsed, laws.reads user.id, laws.reads user.tenant_id) refl

-- Where the database does not fail, the token of a login that succeeds is accepted by the middleware
-- under the same secret until it expires: the request goes on as one of the user, of the user's tenant
-- and with the user's role.
pub backoffice_auth-login :
    (s : BackofficeService) (laws : IsJwt s.jwt) (tenant : ℕ) (email password token : Text)
    (user : User) (w : World) (now : Time)
    → w.faults ≡ []
    → (login s tenant email password w).0 ≡ ok (token, user)
    → unix now < unix w.now + s.jwt_ttl
    → (backoffice_auth s.jwt s.jwt_secret false (codes "Bearer " ++ token) now
        ≡ admitted (context_of user))
      × (user.tenant_id ≡ tenant)
backoffice_auth-login s laws tenant email password token user w now calm h ahead =
    let (issued, of_tenant) = login_issued s tenant email password token user w calm h in
    (
      backoffice_auth-bearer s.jwt s.jwt_secret token false now
          ∙ check_jwt-generate_token s.jwt laws user s.jwt_secret token s.jwt_ttl w.now now issued
              ahead,
      of_tenant,
    )
