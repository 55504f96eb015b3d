-- ===== src/Errors.antt =====
-- internal/errors/errors.go: the sentinel errors, `DomainError`, and the two switches that turn an
-- error into an HTTP status and a machine-readable code; the error types of internal/validation and
-- internal/provider that the handlers meet. A chain of `fmt.Errorf("…: %w", err)` is a chain of
-- `wrap`; an error of the driver or of the standard library, which wraps no sentinel, is `opaque`.
pub mod Roots
pub mod Respond
use billax.Prelude.{
  ℕ, suc, ◌≡◌, Bool, true, false, ◌||◌, Option, none, some, List, [], ◌∷◌, ◌++◌, Text, codes, ◌==◌,
  if◌then◌else◌,
}

pub data Sentinel : Type 0 where
  err_not_found err_conflict err_invalid_input err_duplicate_plan err_plan_not_active : Sentinel
  err_subscription_expired err_duplicate_idempotency err_missing_idempotency_key : Sentinel
  err_missing_tenant_id err_provider_not_found err_provider_error : Sentinel
  err_pay_per_use_not_supported err_plans_not_supported err_provider_required : Sentinel
  err_not_supported err_duplicate_tenant_slug err_duplicate_email err_key_not_found : Sentinel
  err_signup_disabled err_provider_auth_failure err_provider_rejected : Sentinel
  err_provider_rate_limited err_webhook_signature_invalid : Sentinel

-- Each sentinel is one pointer: two are equal if they are the same variable.
abbrev pub number : Sentinel → ℕ
number err_not_found = 0
number err_conflict = 1
number err_invalid_input = 2
number err_duplicate_plan = 3
number err_plan_not_active = 4
number err_subscription_expired = 5
number err_duplicate_idempotency = 6
number err_missing_idempotency_key = 7
number err_missing_tenant_id = 8
number err_provider_not_found = 9
number err_provider_error = 10
number err_pay_per_use_not_supported = 11
number err_plans_not_supported = 12
number err_provider_required = 13
number err_not_supported = 14
number err_duplicate_tenant_slug = 15
number err_duplicate_email = 16
number err_key_not_found = 17
number err_signup_disabled = 18
number err_provider_auth_failure = 19
number err_provider_rejected = 20
number err_provider_rate_limited = 21
number err_webhook_signature_invalid = 22

abbrev pub same : Sentinel → Sentinel → Bool
same a b = number a == number b

pub record FieldError : Type 0 where
  pub field : Text
  pub message : Text

pub data ErrorCategory : Type 0 where
  auth_failure rejected rate_limited validation_error unknown : ErrorCategory

pub data Error : Type 0 where
  sentinel : Sentinel → Error
  -- code, message, HTTP status, cause
  domain : Text → Text → ℕ → Error → Error
  validation : List FieldError → Error
  -- category, HTTP status, provider code, provider message
  provider : ErrorCategory → ℕ → Text → Text → Error
  -- what stands before `%w`
  wrap : Text → Error → Error
  opaque : Text → Error

-- errors.Is(err, target)
unfoldable pub is : Error → Sentinel → Bool
is (sentinel s) t = same s t
is (domain code message status cause) t = is cause t
is (validation fields) t = same err_invalid_input t
is (provider category status code message) t = false
is (wrap prefix e) t = is e t
is (opaque message) t = false

-- The switch of `HTTPStatusFor`, over the test `errors.Is(err, ·)`.
unfoldable pub status_switch : (Sentinel → Bool) → ℕ
status_switch is_err =
    if is_err err_not_found || is_err err_key_not_found
    then 404
    else if is_err err_conflict
        || is_err err_duplicate_plan
        || is_err err_duplicate_idempotency
        || is_err err_duplicate_tenant_slug
        || is_err err_duplicate_email
    then 409
    else if is_err err_invalid_input || is_err err_missing_idempotency_key
    then 400
    else if is_err err_signup_disabled
    then 403
    else if is_err err_plan_not_active || is_err err_subscription_expired
    then 422
    else if is_err err_pay_per_use_not_supported
        || is_err err_plans_not_supported
        || is_err err_provider_required
    then 422
    else if is_err err_provider_not_found
    then 400
    else if is_err err_provider_rejected
    then 422
    else if is_err err_provider_rate_limited
    then 503
    else if is_err err_webhook_signature_invalid
    then 401
    else if is_err err_provider_error || is_err err_provider_auth_failure
    then 502
    else if is_err err_not_supported
    then 501
    else 500

-- The type assertion on `*DomainError` looks at the outermost error only.
unfoldable pub http_status_for : Error → ℕ
unfolding status_switch is
http_status_for (domain code message status cause) = status
http_status_for e = status_switch (is e)

-- The switch of `CodeFor`.
unfoldable pub code_switch : (Sentinel → Bool) → Text
code_switch is_err =
    if is_err err_not_found || is_err err_key_not_found
    then codes "not_found"
    else if is_err err_duplicate_plan
        || is_err err_duplicate_tenant_slug
        || is_err err_duplicate_email
    then codes "duplicate"
    else if is_err err_plan_not_active
    then codes "plan_not_active"
    else if is_err err_subscription_expired
    then codes "subscription_expired"
    else if is_err err_duplicate_idempotency
    then codes "duplicate_idempotency_key"
    else if is_err err_missing_idempotency_key
    then codes "missing_idempotency_key"
    else if is_err err_invalid_input
    then codes "invalid_input"
    else if is_err err_conflict
    then codes "conflict"
    else if is_err err_pay_per_use_not_supported
    then codes "pay_per_use_not_supported"
    else if is_err err_plans_not_supported
    then codes "plans_not_supported"
    else if is_err err_provider_required
    then codes "provider_required"
    else if is_err err_provider_not_found
    then codes "provider_not_found"
    else if is_err err_provider_auth_failure
    then codes "provider_auth_failure"
    else if is_err err_provider_rejected
    then codes "provider_rejected"
    else if is_err err_provider_rate_limited
    then codes "provider_rate_limited"
    else if is_err err_webhook_signature_invalid
    then codes "webhook_signature_invalid"
    else if is_err err_provider_error
    then codes "provider_error"
    else if is_err err_not_supported
    then codes "not_supported"
    else codes "internal_error"

unfoldable pub code_for : Error → Text
unfolding code_switch is
code_for (domain code message status cause) = code
code_for e = code_switch (is e)
