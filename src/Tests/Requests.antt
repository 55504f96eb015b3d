-- ===== src/Tests/Requests.antt =====
-- The middleware.
use billax.Prelude.{
  ℕ, ◌+◌, ◌*◌, ◌≤◌, ◌≡◌, refl, true, false, none, some, List, [], ◌∷◌, ◌++◌, arith, length, take,
  find, Text, codes, text_eq,
}
use billax.Middleware.RateLimit.{TokenBucket, one_token, nanos_per_milli, RateLimiter}
use billax.Middleware.RateLimit.Bounds.{takes, takes-bounded, takes-starved}
use billax.Middleware.Auth.{
  ApiKey, KeyStore, authenticated, split_space, is_match, is_expired, check_key, check_token,
  check_parts, authenticate,
}
use billax.Middleware.Auth.Sound.{IsGranted, authenticate_sound}
use billax.Middleware.Router.{
  page, Handler, V1Setup, key_routes, backoffice_routes, V1Request, v1_routes, unlimited,
  v1_routes-unlimited,
}
use billax.Tests.Backoffice.{a_jwt, issued_token}
use billax.Tests.Data.{a_time}

-- Two requests a minute.
abbrev small : TokenBucket
small = record { max_tokens = 2; tokens = 120000; last_refill = 0 }

abbrev instants : List ℕ
instants = 10 ∷ 20 ∷ 5000000 ∷ []

takes-bounded_example :
    ((takes instants small).0 * one_token + (takes instants small).1.tokens) * nanos_per_milli
      + 2 * 0
    ≤ 120000 * nanos_per_milli + 2 * (takes instants small).1.last_refill
takes-bounded_example = takes-bounded instants small (omega arith, (omega arith, (omega arith, tt)))

abbrev drained : TokenBucket
drained = record small { tokens = 59999 }

takes-starved_example : (takes (900000 ∷ 1800000 ∷ []) drained).0 ≡ 0
takes-starved_example =
    takes-starved (900000 ∷ 1800000 ∷ []) drained (omega arith) (omega arith, (omega arith, tt))

abbrev limiter : RateLimiter
limiter = record { default_limit = 2; buckets = (7, drained) ∷ [] }

abbrev a_key : ApiKey
a_key = record {
  tenant_id = 7;
  key_prefix = codes "bx_live_abcd";
  key_hash = codes "bx_live_abcd";
  expires_at = none;
  is_active = true;
}

abbrev key_store : KeyStore
key_store = record { keys = a_key ∷ []; select_fails = false; set_config_fails = false }

-- A stand-in for the hash: the salt.
abbrev salt_of : Text → Text → Text
salt_of token salt = salt

abbrev a_header : Text
a_header = codes "Bearer bx_live_abcd1234"

handed_on : authenticate salt_of key_store a_time a_header ≡ authenticated 7
unfolding authenticate check_parts split_space check_token check_key is_match is_expired text_eq
handed_on = refl

authenticate_sound_example :
    (token : Text) × (k : ApiKey) × (a_header ≡ codes "Bearer " ++ token)
    × (12 ≤ length token)
    × (find (is_match (take 12 token)) (a_key ∷ []) ≡ some k)
    × IsGranted salt_of key_store a_time 7 token k
authenticate_sound_example = authenticate_sound salt_of key_store a_time 7 a_header handed_on

abbrev me : Handler
me ctx = record { status = 200; rate_remaining = none; body = page (codes "me") }

abbrev a_setup : V1Setup
a_setup = record {
  hash = salt_of;
  keys = key_store;
  jwt = a_jwt;
  jwt_secret = codes "backoffice-secret";
  set_config_fails = false;
}

-- Two requests with a key, and one with a token.
abbrev by_key : V1Request
by_key = record {
  group = key_routes;
  request_id = codes "r1";
  authorization = a_header;
  nanos = 10;
  now = a_time;
  route = me;
}

abbrev by_token : V1Request
by_token = record by_key {
  group = backoffice_routes;
  request_id = codes "r2";
  authorization = codes "Bearer " ++ issued_token;
}

abbrev a_burst : List V1Request
a_burst = by_key ∷ by_key ∷ by_token ∷ []

v1_routes-unlimited_example :
    v1_routes a_setup a_burst limiter ≡ (unlimited a_setup a_burst, limiter)
v1_routes-unlimited_example = v1_routes-unlimited a_setup a_burst limiter
