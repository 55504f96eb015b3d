-- ===== src/Errors/Respond.antt =====
-- internal/httputil/respond.go: the error envelope that every handler answers with.
use billax.Prelude.{
  ℕ, ◌≡◌, Option, none, some, List, [], ◌∷◌, ◌++◌, arith, ◌==◌, if◌then◌else◌, Text, codes,
  show_number,
}
use billax.Errors.{
  Sentinel, err_not_found, err_conflict, err_invalid_input, err_duplicate_plan, err_plan_not_active,
  err_subscription_expired, err_duplicate_idempotency, err_missing_idempotency_key,
  err_missing_tenant_id, err_provider_not_found, err_provider_error, err_pay_per_use_not_supported,
  err_plans_not_supported, err_provider_required, err_not_supported, err_duplicate_tenant_slug,
  err_duplicate_email, err_key_not_found, err_signup_disabled, err_provider_auth_failure,
  err_provider_rejected, err_provider_rate_limited, err_webhook_signature_invalid, FieldError,
  ErrorCategory, auth_failure, rejected, rate_limited, validation_error, unknown, Error, sentinel,
  domain, validation, provider, wrap, opaque, http_status_for, code_for,
}

-- The texts of the sentinels.
abbrev pub sentinel_text : Sentinel → Text
sentinel_text err_not_found = codes "not found"
sentinel_text err_conflict = codes "conflict"
sentinel_text err_invalid_input = codes "invalid input"
sentinel_text err_duplicate_plan = codes "plan with this slug already exists"
sentinel_text err_plan_not_active = codes "plan is not active"
sentinel_text err_subscription_expired = codes "subscription has expired"
sentinel_text err_duplicate_idempotency = codes "duplicate idempotency key"
sentinel_text err_missing_idempotency_key = codes "Idempotency-Key header is required"
sentinel_text err_missing_tenant_id = codes "tenant ID missing from context"
sentinel_text err_provider_not_found = codes "provider not registered"
sentinel_text err_provider_error = codes "provider error"
sentinel_text err_pay_per_use_not_supported = codes "provider does not support pay-per-use billing"
sentinel_text err_plans_not_supported = codes "provider does not support plan-based billing"
sentinel_text err_provider_required = codes "a provider must be set to update amount"
sentinel_text err_not_supported = codes "operation not supported by this provider"
sentinel_text err_duplicate_tenant_slug = codes "a tenant with this slug already exists"
sentinel_text err_duplicate_email = codes "this email is already registered"
sentinel_text err_key_not_found = codes "api key not found"
sentinel_text err_signup_disabled = codes "new tenant signups are not allowed"
sentinel_text err_provider_auth_failure = codes "provider authentication failed"
sentinel_text err_provider_rejected = codes "provider rejected the operation"
sentinel_text err_provider_rate_limited = codes "provider rate limit exceeded"
sentinel_text err_webhook_signature_invalid = codes "webhook signature is invalid"

abbrev pub category_text : ErrorCategory → Text
category_text auth_failure = codes "auth_failure"
category_text rejected = codes "rejected"
category_text rate_limited = codes "rate_limited"
category_text validation_error = codes "validation_error"
category_text unknown = codes "unknown"

abbrev field_text : FieldError → Text
field_text f = f.field ++ (codes ": " ++ f.message)

-- strings.Join(msgs, "; ")
unfoldable pub fields_text : List FieldError → Text
fields_text [] = []
fields_text (f ∷ []) = field_text f
fields_text (f ∷ g ∷ fs) = field_text f ++ (codes "; " ++ fields_text (g ∷ fs))

-- `Error()` of a `ValidationError`.
unfoldable pub validation_text : List FieldError → Text
unfolding fields_text
validation_text [] = codes "validation error"
validation_text (f ∷ fs) = fields_text (f ∷ fs)

-- `err.Error()`
unfoldable pub error_text : Error → Text
unfolding validation_text
error_text (sentinel s) = sentinel_text s
error_text (domain code message status cause) = message
error_text (validation fields) = validation_text fields
error_text (provider category status code message) =
    codes "provider error ["
    ++ (category_text category
        ++ (codes "] "
            ++ (show_number status
                ++ (codes ": " ++ (message ++ (codes " (" ++ (code ++ codes ")")))))))
error_text (wrap prefix e) = prefix ++ (codes ": " ++ error_text e)
error_text (opaque message) = message

-- errors.As(err, &de)
as_domain : Error → Option (Text × Text)
as_domain (domain code message status cause) = some (code, message)
as_domain (wrap prefix e) = as_domain e
as_domain _ = none

-- errors.As(err, &ve)
as_validation : Error → Option (List FieldError)
as_validation (validation fields) = some fields
as_validation (domain code message status cause) = as_validation cause
as_validation (wrap prefix e) = as_validation e
as_validation _ = none

pub record ErrorResponse : Type 0 where
  pub status : ℕ
  pub code : Text
  pub message : Text
  pub request_id : Text
  pub fields : List FieldError

abbrev override : Option (Text × Text) → Text × Text → Text × Text
override none detail = detail
override (some own) detail = own

abbrev fields_or_none : Option (List FieldError) → List FieldError
fields_or_none none = []
fields_or_none (some fs) = fs

pub respond_error : Text → Error → ErrorResponse
unfolding as_domain as_validation
respond_error request_id e =
    let (code, msg) = override (as_domain e) (code_for e, error_text e) in
    if http_status_for e == 500
    then record {
      status = 500;
      code = codes "internal_error";
      message = codes "an internal error occurred";
      request_id = request_id;
      fields = [];
    }
    else record {
      status = http_status_for e;
      code = code;
      message = msg;
      request_id = request_id;
      fields = fields_or_none (as_validation e);
    }

-- Two errors whose status is 500 get the same answer, whatever they carry: nothing of an internal
-- error reaches a client.
pub respond_error-hides :
    (request_id : Text) (a b : Error)
    → http_status_for a ≡ 500
    → http_status_for b ≡ 500
    → respond_error request_id a ≡ respond_error request_id b
unfolding respond_error
respond_error-hides request_id a b ha hb = ground arith

-- The answer has the status of `HTTPStatusFor`.
pub status-respond_error :
    (request_id : Text) (e : Error) → (respond_error request_id e).status ≡ http_status_for e
unfolding respond_error
status-respond_error request_id e = ground arith
