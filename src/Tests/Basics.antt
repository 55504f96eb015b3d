-- ===== src/Tests/Basics.antt =====
-- Errors, validation, dates and periods.
use billax.Prelude.{◌≡◌, refl, inl, Option, none, some, List, [], ◌∷◌, pos, codes}
use billax.Errors.{
  err_provider_rejected, FieldError, Error, sentinel, wrap, opaque, http_status_for,
}
use billax.Errors.Respond.{respond_error, respond_error-hides}
use billax.Result.{err}
use billax.Validation.{field_error}
use billax.Calendar.{civil, day_of}
use billax.Calendar.Dates.{day_of-civil}
use billax.Subscription.Periods.{
  calculate_period_end, next_period_end, next_period_end-eq-calculate,
}
use billax.Plan.{month}
use billax.Provider.{PaymentProvider}
use billax.Tests.Data.{a_time, provider_with, no_credentials}

abbrev wrapped_rejection : Error
wrapped_rejection = wrap (codes "creating payment") (sentinel err_provider_rejected)

respond_error-hides_example :
    respond_error (codes "r1") (opaque (codes "password")) ≡ respond_error (codes "r1") (opaque [])
unfolding http_status_for
respond_error-hides_example =
    respond_error-hides (codes "r1") (opaque (codes "password")) (opaque []) refl refl

abbrev some_checks : List (Option FieldError)
some_checks = none ∷ some (field_error (codes "name") (codes "must not be empty")) ∷ none ∷ []

day_of-civil_example : day_of (civil 59).months (civil 59).date ≡ 59
day_of-civil_example = day_of-civil 59

next_period_end-eq-calculate_example :
    next_period_end a_time month (pos 3) ≡ calculate_period_end a_time month (pos 3)
next_period_end-eq-calculate_example = next_period_end-eq-calculate a_time month (pos 3) (inl refl)

abbrev a_provider : PaymentProvider
a_provider = provider_with (err no_credentials)
