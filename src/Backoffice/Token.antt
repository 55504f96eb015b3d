-- ===== src/Backoffice/Token.antt =====
-- internal/backoffice/jwt.go. The JWT library is a parameter: it signs claims, and it parses a token
-- with a function for its key, checking the signature and the expiry.
use billax.Prelude.{
  ℕ, zero, suc, ◌+◌, ◌*◌, ◌/◌, ◌<◌, ◌≡◌, refl, inl, inr, Bool, true, false, not, if◌then◌else◌,
  Option, none, some, [], ◌∷◌, ◌++◌, arith, Text, codes,
}
use billax.Errors.{opaque}
use billax.Result.{Result, ok, err, wrap_err, Result-cases, guard, ◌>>=◌, ◌>>◌}
use billax.Calendar.{Time}
use billax.Backoffice.{User, JwtClaims, role_text, role_of}

-- The claims of a token; a claim is missing if it is not there or no string.
pub record MapClaims : Type 0 where
  pub user_id : Option Text
  pub tenant_id : Option Text
  pub email : Option Text
  pub role : Option Text
  -- seconds since 1970
  pub exp : ℕ
  pub iat : ℕ

-- What the function for the key looks at: whether the method is an HMAC, and `alg`.
pub record TokenHeader : Type 0 where
  pub is_hmac : Bool
  pub alg : Text

pub record Jwt : Type 0 where
  pub sign : MapClaims → Text → Result Text
  -- `ParseWithClaims`: the token, the function for the key, and the time in seconds
  pub parse : Text → (TokenHeader → Result Text) → ℕ → Result MapClaims
  pub uuid_text : ℕ → Text
  pub parse_uuid : Text → Result ℕ

-- `t.Unix()`
abbrev pub unix : Time → ℕ
unix t = t.day * 86400 + t.nanos / 1000000000

abbrev pub claims_of : Jwt → User → ℕ → ℕ → MapClaims
claims_of j user ttl now = record {
  user_id = some (j.uuid_text user.id);
  tenant_id = some (j.uuid_text user.tenant_id);
  email = some user.email;
  role = some (role_text user.role);
  exp = now + ttl;
  iat = now;
}

abbrev is_set : Text → Bool
is_set [] = false
is_set (c ∷ s) = true

abbrev is_uuid : ℕ → Bool
is_uuid zero = false
is_uuid (suc n) = true

-- `GenerateToken`, with a TTL in seconds
unfoldable pub generate_token : Jwt → User → Text → ℕ → Time → Result Text
generate_token j user secret ttl now = do
  guard (is_set secret) (opaque (codes "generate token: secret cannot be empty"))
  guard (is_uuid user.id) (opaque (codes "generate token: user id cannot be nil"))
  guard (is_uuid user.tenant_id) (opaque (codes "generate token: tenant id cannot be nil"))
  wrap_err (codes "generate token: signing") (j.sign (claims_of j user ttl (unix now)) secret)

abbrev claim : Text → Option Text → Result Text
claim name none = err (opaque (name ++ codes " claim missing or invalid type"))
claim name (some value) = ok value

-- The function for the key, with the check of the signing method.
abbrev pub key_of : Text → TokenHeader → Result Text
key_of secret header =
    if not header.is_hmac
    then err (opaque (codes "unexpected signing method: " ++ header.alg))
    else ok secret

-- `ValidateToken`
unfoldable pub validate_token : Jwt → Text → Text → Time → Result JwtClaims
unfolding role_of
validate_token j token secret now = do
  guard (is_set secret) (opaque (codes "validate token: secret cannot be empty"))
  guard (is_set token) (opaque (codes "validate token: token cannot be empty"))
  claims ← wrap_err (codes "validate token: parsing") (j.parse token (key_of secret) (unix now))
  user_text ← claim (codes "validate token: user_id") claims.user_id
  user_id ← wrap_err (codes "validate token: parsing user_id") (j.parse_uuid user_text)
  tenant_text ← claim (codes "validate token: tenant_id") claims.tenant_id
  tenant_id ← wrap_err (codes "validate token: parsing tenant_id") (j.parse_uuid tenant_text)
  email ← claim (codes "validate token: email") claims.email
  role ← claim (codes "validate token: role") claims.role
  ok (record { user_id = user_id; tenant_id = tenant_id; email = email; role = role_of role })

abbrev hs256 : TokenHeader
hs256 = record { is_hmac = true; alg = codes "HS256" }

-- What is relied on: a signed token is parsed, before it expires, with a function that gives its
-- secret for the header that HS256 has; it is not empty; and uuids are read back.
pub record IsJwt (j : Jwt) : Type 0 where
  pub parses :
      (claims : MapClaims) (secret token : Text) (key : TokenHeader → Result Text) (now : ℕ)
      → j.sign claims secret ≡ ok token
      → key hs256 ≡ ok secret
      → now < claims.exp
      → j.parse token key now ≡ ok claims
  pub not_empty :
      (claims : MapClaims) (secret token : Text)
      → j.sign claims secret ≡ ok token
      → is_set token ≡ true
  pub reads : (id : ℕ) → j.parse_uuid (j.uuid_text id) ≡ ok id

pub generate_token_lem :
    (j : Jwt) (user : User) (secret token : Text) (ttl : ℕ) (made : Time)
    → generate_token j user secret ttl made ≡ ok token
    → (is_set secret ≡ true) × (j.sign (claims_of j user ttl (unix made)) secret ≡ ok token)
unfolding generate_token
generate_token_lem j user secret token ttl made h =
    elim (Result-cases (j.sign (claims_of j user ttl (unix made)) secret)) [
      | inl (t, signed) ↦ ground (arith, signed, h)
      | inr (e, failed) ↦ absurd (ground (arith, failed, h))
    ]

-- A token is read back until it expires: for a user whose role is one of the two, the claims of a
-- token that was made for the user under a secret are those of the user.
pub validate_token-generate_token :
    (j : Jwt) (laws : IsJwt j) (user : User) (secret token : Text) (ttl : ℕ) (made now : Time)
    → role_of (role_text user.role) ≡ user.role
    → generate_token j user secret ttl made ≡ ok token
    → unix now < unix made + ttl
    → validate_token j token secret now
      ≡ ok (record {
        user_id = user.id;
        tenant_id = user.tenant_id;
        email = user.email;
        role = user.role;
      })
unfolding generate_token validate_token
validate_token-generate_token j laws user secret token ttl made now role h ahead =
    let (has_secret, signed) = generate_token_lem j user secret token ttl made h in
    let parsed =
      laws.parses (claims_of j user ttl (unix made)) secret token (key_of secret) (unix now) signed
        refl ahead in
    rw
      (
        has_secret,
        laws.not_empty (claims_of j user ttl (unix made)) secret token signed,
        parsed,
        laws.reads user.id,
        laws.reads user.tenant_id,
        role,
      )
      refl
