-- ===== src/Tests/Backoffice.antt =====
-- Users of the backoffice, their tokens and their passwords.
use billax.Prelude.{
  ℕ, zero, suc, ◌+◌, ◌*◌, ◌<◌, ◌≡◌, refl, sym, ap, ◌∙◌, true, false, Option, none, some, [], ◌∷◌,
  ◌++◌, arith, find, Text, codes, text_eq, text_eq_refl, byte_len,
}
use billax.Result.{Result, ok, err}
use billax.Errors.{opaque}
use billax.Calendar.{Time}
use billax.Backoffice.{role_admin, UserRow, role_of}
use billax.Backoffice.Token.{
  MapClaims, TokenHeader, Jwt, IsJwt, unix, generate_token, validate_token,
}
use billax.Backoffice.Password.{validate_password, generate_temporary_password}
use billax.Backoffice.Password.Temporary.{generate_temporary_password_lem}
use billax.Backoffice.Repository.{
  get_password_hash_by_id, update_password, update_user, has_email, get_by_email,
}
use billax.Backoffice.Service.{change_password, BackofficeService, admit, login}
use billax.Backoffice.Service.Sessions.{IsAdmitted, login_sound}
use billax.Backoffice.Service.Passwords.{login-change_password}
use billax.Middleware.Backoffice.{backoffice_auth, admitted}
use billax.Middleware.Backoffice.Accepts.{context_of, backoffice_auth-login}
use billax.World.{World, query}
use billax.Tests.Data.{a_time, a_world}

-- A JWT library whose tokens spell the claims out.
abbrev put_text : Text → Text → Text
put_text [] rest = 0 ∷ rest
put_text (c ∷ s) rest = suc c ∷ put_text s rest

abbrev put_field : Option Text → Text → Text
put_field none rest = 0 ∷ rest
put_field (some s) rest = 1 ∷ put_text s rest

abbrev take_text : Text → Text × Text
take_text [] = ([], [])
take_text (zero ∷ rest) = ([], rest)
take_text (suc c ∷ rest) = (c ∷ (take_text rest).0, (take_text rest).1)

abbrev take_field : Text → Option Text × Text
take_field [] = (none, [])
take_field (zero ∷ rest) = (none, rest)
take_field (suc c ∷ rest) = (some (take_text rest).0, (take_text rest).1)

take_text-put_text : (s rest : Text) → take_text (put_text s rest) ≡ (s, rest)
take_text-put_text [] rest = refl
take_text-put_text (c ∷ s) rest = rw (take_text-put_text s rest) refl

take_field-put_field : (f : Option Text) (rest : Text) → take_field (put_field f rest) ≡ (f, rest)
take_field-put_field none rest = refl
take_field-put_field (some s) rest = rw (take_text-put_text s rest) refl

abbrev put_claims : MapClaims → Text
put_claims c =
    c.exp
    ∷ c.iat
    ∷ put_field c.user_id (put_field c.tenant_id (put_field c.email (put_field c.role [])))

abbrev take_claims : Text → MapClaims
take_claims (e ∷ i ∷ rest) =
    let (user, rest1) = take_field rest in
    let (tenant, rest2) = take_field rest1 in
    let (email, rest3) = take_field rest2 in
    record {
      user_id = user;
      tenant_id = tenant;
      email = email;
      role = (take_field rest3).0;
      exp = e;
      iat = i;
    }
take_claims s = record {
  user_id = none;
  tenant_id = none;
  email = none;
  role = none;
  exp = 0;
  iat = 0;
}

take_claims-put_claims : (c : MapClaims) → take_claims (put_claims c) ≡ c
take_claims-put_claims c =
    rw
      (
        take_field-put_field c.user_id
            (put_field c.tenant_id (put_field c.email (put_field c.role []))),
        take_field-put_field c.tenant_id (put_field c.email (put_field c.role [])),
        take_field-put_field c.email (put_field c.role []),
        take_field-put_field c.role [],
      )
      refl

abbrev read_uuid : Text → Result ℕ
read_uuid [] = err (opaque (codes "invalid UUID length: 0"))
read_uuid (n ∷ s) = ok n

abbrev a_header : TokenHeader
a_header = record { is_hmac = true; alg = codes "HS256" }

abbrev parsed : Text → Result Text → Result MapClaims
parsed token (err e) = err e
parsed token (ok secret) = ok (take_claims token)

abbrev pub a_jwt : Jwt
a_jwt = record {
  sign = λ claims secret. ok (put_claims claims);
  parse = λ token key now. parsed token (key a_header);
  uuid_text = λ id. id ∷ [];
  parse_uuid = read_uuid;
}

a_jwt-IsJwt : IsJwt a_jwt
a_jwt-IsJwt = record {
  parses = λ claims secret token key now signed gives ahead.
      let same : put_claims claims ≡ token = cc signed in
      ap (parsed token) gives
      ∙ ap (λ t. ok (take_claims t)) (sym same)
      ∙ ap ok (take_claims-put_claims claims);
  not_empty = λ claims secret token signed.
      let same : put_claims claims ≡ token = cc signed in rw (← same) refl;
  reads = λ id. refl;
}

abbrev ana : UserRow
ana = record {
  user = record {
    id = 12;
    tenant_id = 7;
    email = codes "ana@acme.example";
    role = role_admin;
    name = codes "Ana";
    must_change_password = false;
    is_active = true;
    created_at = a_time;
    updated_at = a_time;
  };
  password_hash = codes "Passw0rd!";
}

-- A hash that hides nothing.
abbrev a_service : BackofficeService
a_service = record {
  hash_password = λ s. ok s;
  matches = λ hashed s. text_eq hashed s;
  random_byte = λ n k. some (n + k);
  jwt = a_jwt;
  jwt_secret = codes "backoffice-secret";
  jwt_ttl = 86400;
}

abbrev pub issued_token : Text
issued_token = put_claims (record {
  user_id = some (12 ∷ []);
  tenant_id = some (7 ∷ []);
  email = some (codes "ana@acme.example");
  role = some (codes "admin");
  exp = unix a_time + 86400;
  iat = unix a_time;
})

-- The world with one user, at the time of the tests.
abbrev staffed : World
staffed = record a_world { users = ana ∷ []; now = a_time }

login_sound_example :
    (r : UserRow) × (find (has_email 7 (codes "ana@acme.example")) staffed.users ≡ some r)
    × IsAdmitted a_service (codes "Passw0rd!") r a_time issued_token
    × ((now : Time)
        → unix now < unix a_time + 86400
        → validate_token a_jwt issued_token (codes "backoffice-secret") now
          ≡ ok (record {
            user_id = 12;
            tenant_id = 7;
            email = codes "ana@acme.example";
            role = role_admin;
          }))
login_sound_example =
    login_sound a_service a_jwt-IsJwt 7 (codes "ana@acme.example") (codes "Passw0rd!") issued_token
      ana.user staffed refl (unfold login get_by_email query admit generate_token text_eq in refl)
      (unfold role_of text_eq in refl)

generate_temporary_password_lem_example :
    (byte_len (generate_temporary_password (λ k. some (k * 7))) ≡ 12)
    × (validate_password (generate_temporary_password (λ k. some (k * 7))) ≡ ok tt)
generate_temporary_password_lem_example = generate_temporary_password_lem (λ k. some (k * 7))

backoffice_auth-login_example :
    (backoffice_auth a_jwt
        (codes "backoffice-secret")
        false
        (codes "Bearer " ++ issued_token)
        (record { day = 20000; nanos = 5 })
      ≡ admitted (context_of ana.user))
    × (ana.user.tenant_id ≡ 7)
backoffice_auth-login_example =
    backoffice_auth-login a_service a_jwt-IsJwt 7 (codes "ana@acme.example") (codes "Passw0rd!")
      issued_token ana.user staffed (record { day = 20000; nanos = 5 }) refl
      (unfold login get_by_email query admit generate_token text_eq in refl) (omega arith)

a_service-accepts :
    (p hashed : Text) → a_service.hash_password p ≡ ok hashed → a_service.matches hashed p ≡ true
a_service-accepts p hashed h = let same : p ≡ hashed = cc h in rw (← same) (text_eq_refl p)

-- The user has to change the password.
abbrev new_ana : UserRow
new_ana = record ana { user = record ana.user { must_change_password = true } }

abbrev before_change : World
before_change = record a_world { users = new_ana ∷ []; now = a_time }

abbrev after_change : World
after_change = record before_change {
  users =
      record ana {
        user = record ana.user { must_change_password = false };
        password_hash = codes "N3w-secret!";
      }
      ∷ [];
}

login-change_password_example :
    (login a_service 7 (codes "ana@acme.example") (codes "N3w-secret!") after_change).0
    ≡ ok (issued_token, ana.user)
login-change_password_example =
    login-change_password a_service a_service-accepts 7 (codes "ana@acme.example")
      (codes "Passw0rd!") (codes "N3w-secret!") issued_token before_change after_change new_ana refl
      refl refl (unfold text_eq in refl) refl (unfold generate_token in refl)
      (unfold change_password validate_password text_eq get_password_hash_by_id update_password
          update_user query in
        refl)
