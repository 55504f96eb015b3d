-- ===== src/Middleware/Router.antt =====
-- The chain of middleware that `newRouter` of internal/middleware/router.go puts before the routes of
-- `/v1`, with `RateLimitMiddleware` and the request context of context.go. Metrics, logging and the
-- recovery from panics hand a request on unchanged and are left out. The routes of the three groups are
-- parameters; a request of the backoffice group is one to a router that has the group.
use billax.Prelude.{
  ℕ, ◌≡◌, refl, List, [], ◌∷◌, Bool, true, false, Option, none, some, ◌==◌, if◌then◌else◌, Text,
  codes,
}
use billax.Calendar.{Time}
use billax.Middleware.RateLimit.{RateLimiter, allow, get_remaining}
use billax.Middleware.Auth.{KeyStore, AuthOutcome, refused, authenticated, authenticate}
use billax.Backoffice.Token.{Jwt}
use billax.Middleware.Backoffice
use billax.Middleware.Backoffice.{BackofficeContext, BackofficeOutcome, backoffice_auth}

-- The values of a request's context.
pub record Context : Type 0 where
  pub request_id : Option Text
  pub tenant_id : Option ℕ
  pub backoffice : Option BackofficeContext

-- `WithTenantID`
abbrev pub with_tenant_id : Context → ℕ → Context
with_tenant_id ctx tenant = record ctx { tenant_id = some tenant }

-- `TenantIDFromContext`: 0 is `uuid.UUID{}`.
abbrev pub tenant_id_from_context : Context → ℕ
tenant_id_from_context ctx = elim ctx.tenant_id [ none ↦ 0 | some tenant ↦ tenant ]

pub data Body : Type 0 where
  error_body : Text → Text → Body
  page : Text → Body

-- `rate_remaining` is the header `X-RateLimit-Remaining`, where it is set.
pub record Response : Type 0 where
  pub status : ℕ
  pub rate_remaining : Option ℕ
  pub body : Body

abbrev pub Handler : Type 0
Handler = Context → Response

abbrev pub too_many_requests : Response
too_many_requests = record {
  status = 429;
  rate_remaining = some 0;
  body = error_body (codes "rate_limit_exceeded") (codes "too many requests");
}

abbrev limited : ℕ → Handler → Context → Bool × RateLimiter → Response × RateLimiter
limited tenant next ctx (false, rl) = (too_many_requests, rl)
limited tenant next ctx (true, rl) =
    (record (next ctx) { rate_remaining = some (get_remaining rl tenant) }, rl)

-- `RateLimitMiddleware`
unfoldable pub rate_limit_middleware : ℕ → Handler → Context → RateLimiter → Response × RateLimiter
unfolding allow get_remaining
rate_limit_middleware now next ctx rl =
    let tenant = tenant_id_from_context ctx in
    if tenant == 0 then (next ctx, rl) else limited tenant next ctx (allow tenant now rl)

-- What `AuthMiddleware` does on the outcome of the check.
abbrev pub on_outcome : Handler → Context → AuthOutcome → Response
on_outcome next ctx (refused status code message) = record {
  status = status;
  rate_remaining = none;
  body = error_body code message;
}
on_outcome next ctx (authenticated tenant) = next (with_tenant_id ctx tenant)

-- `AuthMiddleware`
unfoldable pub auth_middleware : (Text → Text → Text) → KeyStore → Time → Text → Handler → Handler
unfolding authenticate
auth_middleware hash store now header next ctx =
    on_outcome next ctx (authenticate hash store now header)

-- What `BackofficeAuth` does on the outcome of its check.
abbrev pub on_backoffice : Handler → Context → BackofficeOutcome → Response
on_backoffice next ctx (Backoffice.refused status code message) = record {
  status = status;
  rate_remaining = none;
  body = error_body code message;
}
on_backoffice next ctx (Backoffice.admitted user) =
    next (record (with_tenant_id ctx user.tenant_id) { backoffice = some user })

-- The context that a request arrives with at `/v1`: `RequestID` has set its id.
abbrev pub arriving : Text → Context
arriving request_id = record { request_id = some request_id; tenant_id = none; backoffice = none }

-- What the router is made with, and the state of the database that the checks of keys and tokens see.
pub record V1Setup : Type 0 where
  pub hash : Text → Text → Text
  pub keys : KeyStore
  pub jwt : Jwt
  pub jwt_secret : Text
  pub set_config_fails : Bool

-- The groups of `/v1`: without a check, behind the check of a key, and behind that of a token.
pub data V1Group : Type 0 where
  public_routes key_routes backoffice_routes : V1Group

-- `nanos` and `now` are the readings of the monotonic clock and of the wall clock.
pub record V1Request : Type 0 where
  pub group : V1Group
  pub request_id : Text
  pub authorization : Text
  pub nanos : ℕ
  pub now : Time
  pub route : Handler

-- The route behind the check of its group.
unfoldable pub checked_route : V1Setup → V1Group → V1Request → Handler
unfolding auth_middleware backoffice_auth
checked_route s public_routes q ctx = q.route ctx
checked_route s key_routes q ctx = auth_middleware s.hash s.keys q.now q.authorization q.route ctx
checked_route s backoffice_routes q ctx =
    on_backoffice q.route ctx
      (backoffice_auth s.jwt s.jwt_secret s.set_config_fails q.authorization q.now)

-- A request to `/v1`: the rate limiter first, then the group.
unfoldable pub v1_route : V1Setup → V1Request → RateLimiter → Response × RateLimiter
unfolding rate_limit_middleware checked_route
v1_route s q rl =
    rate_limit_middleware q.nanos (checked_route s q.group q) (arriving q.request_id) rl

-- Requests one after another.
abbrev pub v1_routes : V1Setup → List V1Request → RateLimiter → List Response × RateLimiter
v1_routes s [] rl = ([], rl)
v1_routes s (q ∷ qs) rl =
    let (answer, rl1) = v1_route s q rl in
    let (answers, rl2) = v1_routes s qs rl1 in (answer ∷ answers, rl2)

-- The answers of the groups without a limiter.
abbrev pub unlimited : V1Setup → List V1Request → List Response
unlimited s [] = []
unlimited s (q ∷ qs) = checked_route s q.group q (arriving q.request_id) ∷ unlimited s qs

-- However many requests are sent, to any of the three groups of `/v1` and at whatever times, the
-- limiter has no effect, whatever the state it is in: it looks for the tenant before a key or a token
-- is checked, so each request is answered as its group answers without a limiter, and none is counted.
pub v1_routes-unlimited :
    (s : V1Setup) (requests : List V1Request) (rl : RateLimiter)
    → v1_routes s requests rl ≡ (unlimited s requests, rl)
unfolding v1_route rate_limit_middleware
v1_routes-unlimited s [] rl = refl
v1_routes-unlimited s (q ∷ qs) rl = rw (v1_routes-unlimited s qs rl) refl
