-- ===== src/Errors/Roots.antt =====
-- The switches of errors.go against tables on the sentinel that a chain of errors ends in.
use mathlib.Core.Path.{fun_ext}
use billax.Prelude.{
  ℕ, ◌≡◌, refl, sym, ap, ◌∙◌, ◌≢◌, Bool, true, false, ◌||◌, Option, none, some, [], if◌then◌else◌,
  Text, codes, text_eq,
}
use billax.Errors.{
  Sentinel, err_not_found, err_conflict, err_invalid_input, err_duplicate_plan, err_plan_not_active,
  err_subscription_expired, err_duplicate_idempotency, err_missing_idempotency_key,
  err_missing_tenant_id, err_provider_not_found, err_provider_error, err_pay_per_use_not_supported,
  err_plans_not_supported, err_provider_required, err_not_supported, err_duplicate_tenant_slug,
  err_duplicate_email, err_key_not_found, err_signup_disabled, err_provider_auth_failure,
  err_provider_rejected, err_provider_rate_limited, err_webhook_signature_invalid, same, Error,
  sentinel, domain, validation, provider, wrap, opaque, is, status_switch, http_status_for,
  code_switch, code_for,
}

-- The sentinel that the chain ends in, if it ends in one.
abbrev pub root : Error → Option Sentinel
root (sentinel s) = some s
root (domain code message status cause) = root cause
root (validation fields) = some err_invalid_input
root (provider category status code message) = none
root (wrap prefix e) = root e
root (opaque message) = none

abbrev pub is_domain : Error → Bool
is_domain (domain code message status cause) = true
is_domain _ = false

-- One status for each sentinel.
abbrev pub status_of : Option Sentinel → ℕ
status_of none = 500
status_of (some err_not_found) = 404
status_of (some err_key_not_found) = 404
status_of (some err_conflict) = 409
status_of (some err_duplicate_plan) = 409
status_of (some err_duplicate_idempotency) = 409
status_of (some err_duplicate_tenant_slug) = 409
status_of (some err_duplicate_email) = 409
status_of (some err_invalid_input) = 400
status_of (some err_missing_idempotency_key) = 400
status_of (some err_provider_not_found) = 400
status_of (some err_signup_disabled) = 403
status_of (some err_webhook_signature_invalid) = 401
status_of (some err_plan_not_active) = 422
status_of (some err_subscription_expired) = 422
status_of (some err_pay_per_use_not_supported) = 422
status_of (some err_plans_not_supported) = 422
status_of (some err_provider_required) = 422
status_of (some err_provider_rejected) = 422
status_of (some err_not_supported) = 501
status_of (some err_provider_error) = 502
status_of (some err_provider_auth_failure) = 502
status_of (some err_provider_rate_limited) = 503
status_of (some err_missing_tenant_id) = 500

abbrev is_root : Option Sentinel → Sentinel → Bool
is_root none t = false
is_root (some s) t = same s t

is-root : (e : Error) (t : Sentinel) → is e t ≡ is_root (root e) t
unfolding is
is-root (sentinel s) t = refl
is-root (domain code message status cause) t = is-root cause t
is-root (validation fields) t = refl
is-root (provider category status code message) t = refl
is-root (wrap prefix e) t = is-root e t
is-root (opaque message) t = refl

status_switch-root : (r : Option Sentinel) → status_switch (is_root r) ≡ status_of r
unfolding status_switch
status_switch-root none = refl
status_switch-root (some err_not_found) = refl
status_switch-root (some _) = refl

status_switch-is : (e : Error) → status_switch (is e) ≡ status_of (root e)
status_switch-is e = ap status_switch (fun_ext (is-root e)) ∙ status_switch-root (root e)

-- The status of an error that is not itself a `DomainError` is the table's status of the sentinel
-- that its chain ends in, however often the error was wrapped, and 500 if it ends in none.
pub http_status_for-root :
    (e : Error) → is_domain e ≡ false → http_status_for e ≡ status_of (root e)
unfolding http_status_for
http_status_for-root (domain code message status cause) h = cc
http_status_for-root (sentinel s) h = status_switch-is (sentinel s)
http_status_for-root (validation fs) h = status_switch-is (validation fs)
http_status_for-root (provider c s k m) h = status_switch-is (provider c s k m)
http_status_for-root (wrap p e) h = status_switch-is (wrap p e)
http_status_for-root (opaque m) h = status_switch-is (opaque m)

-- The code that belongs to the root of an error.
abbrev code_of : Option Sentinel → Text
code_of r = code_switch (is_root r)

code_for-root : (e : Error) → is_domain e ≡ false → code_for e ≡ code_of (root e)
unfolding code_for
code_for-root (domain code message status cause) h = cc
code_for-root (sentinel s) h = ap code_switch (fun_ext (is-root (sentinel s)))
code_for-root (validation fs) h = ap code_switch (fun_ext (is-root (validation fs)))
code_for-root (provider c s k m) h = ap code_switch (fun_ext (is-root (provider c s k m)))
code_for-root (wrap p e) h = ap code_switch (fun_ext (is-root (wrap p e)))
code_for-root (opaque m) h = ap code_switch (fun_ext (is-root (opaque m)))

-- The status that each code of `CodeFor` is answered with.
status_of_code : Text → ℕ
unfolding text_eq
status_of_code c =
    if text_eq c (codes "not_found")
    then 404
    else if text_eq c (codes "duplicate")
        || text_eq c (codes "duplicate_idempotency_key")
        || text_eq c (codes "conflict")
    then 409
    else if text_eq c (codes "missing_idempotency_key")
        || text_eq c (codes "invalid_input")
        || text_eq c (codes "provider_not_found")
    then 400
    else if text_eq c (codes "provider_auth_failure") || text_eq c (codes "provider_error")
    then 502
    else if text_eq c (codes "provider_rate_limited")
    then 503
    else if text_eq c (codes "webhook_signature_invalid")
    then 401
    else if text_eq c (codes "not_supported")
    then 501
    else if text_eq c (codes "internal_error")
    then 500
    else 422

status_of_code-code_of :
    (r : Option Sentinel) → r ≢ some err_signup_disabled → status_of_code (code_of r) ≡ status_of r
unfolding status_of_code code_switch
status_of_code-code_of none h = refl
status_of_code-code_of (some err_signup_disabled) h = absurd (h refl)
status_of_code-code_of (some _) h = refl

-- Two errors that the API gives the same code have the same HTTP status, unless one of them is a
-- `DomainError` or ends in `ErrSignupDisabled`.
pub http_status_for-code_for :
    (a b : Error)
    → is_domain a ≡ false
    → is_domain b ≡ false
    → root a ≢ some err_signup_disabled
    → root b ≢ some err_signup_disabled
    → code_for a ≡ code_for b
    → http_status_for a ≡ http_status_for b
http_status_for-code_for a b da db ra rb e =
    http_status_for-root a da
    ∙ sym (status_of_code-code_of (root a) ra)
    ∙ ap status_of_code (sym (code_for-root a da) ∙ e ∙ code_for-root b db)
    ∙ status_of_code-code_of (root b) rb
    ∙ sym (http_status_for-root b db)

-- An error that ends in `ErrSignupDisabled` and is no `DomainError` has the status 403 and the code
-- `internal_error`, the code that an error of status 500 has.
pub signup_disabled_code :
    (e : Error)
    → is_domain e ≡ false
    → root e ≡ some err_signup_disabled
    → (http_status_for e ≡ 403) × (code_for e ≡ code_for (opaque []))
unfolding code_switch code_for
signup_disabled_code e d r =
    (http_status_for-root e d ∙ ap status_of r, code_for-root e d ∙ ap code_of r)
