-- ===== src/MercadoPago/Charges.antt =====
-- internal/provider/mercadopago/provider.go: what a caller of `CreateCharge` learns of a failure.
use billax.Prelude.{
  ℕ, ◌≡◌, refl, ◌∙◌, ◌⊎◌, inl, inr, Option, none, some, ◌==◌, if◌then◌else◌, arith, Text, true,
  false, ◌<◌, leb, codes, ◌∷◌, [],
}
use billax.Errors.{
  auth_failure, rejected, rate_limited, validation_error, unknown, ErrorCategory, Error,
  http_status_for,
}
use billax.Result.{Result, ok, err, ◌>>=◌}
use billax.Provider.{config_value, ChargeRequest}
use billax.MercadoPago.{
  build_create_payment_request, MpErrorResponse, MpPayment, MpCreatePaymentRequest,
  map_to_charge_result,
}
use billax.MercadoPago.Client
use billax.MercadoPago.Client.{
  Wire, Network, HttpRequest, HttpResponse, map_error_category, error_of, do_with_retry, decoded,
  payment_request, payments_url, perform, round_trip,
}
use billax.MercadoPago.Answers.{is_retried, is_limited, do_with_retry_first, do_with_retry_limited}
use billax.MercadoPago.Gateway
use billax.MercadoPago.Gateway.{classify, finish_charge, as_provider_error, charge_with, no_token}

-- The statuses that billax answers with for an error of this provider.
abbrev pub IsChargeStatus : ℕ → Type 0
IsChargeStatus s = (s ≡ 400) ⊎ ((s ≡ 422) ⊎ ((s ≡ 502) ⊎ (s ≡ 503)))

-- The status of billax for a status of Mercado Pago.
abbrev pub charge_error_status : ℕ → ℕ
charge_error_status s =
    if s == 400 then 400 else if s == 422 then 422 else if s == 429 then 503 else 502

classify-IsChargeStatus :
    (p : Option (ErrorCategory × Text)) → IsChargeStatus (http_status_for (classify p))
unfolding classify http_status_for
classify-IsChargeStatus none = inr (inr (inl refl))
classify-IsChargeStatus (some (auth_failure, m)) = inr (inr (inl refl))
classify-IsChargeStatus (some (rejected, m)) = inr (inl refl)
classify-IsChargeStatus (some (rate_limited, m)) = inr (inr (inr refl))
classify-IsChargeStatus (some (validation_error, m)) = inl refl
classify-IsChargeStatus (some (unknown, m)) = inr (inr (inl refl))

finish_charge-IsChargeStatus :
    (wire : Wire) (r : Result MpPayment) (e : Error)
    → ((p : MpPayment) → (raw : Text) × (wire.marshal_payment p ≡ ok raw))
    → finish_charge wire r ≡ err e
    → IsChargeStatus (http_status_for e)
unfolding finish_charge map_to_charge_result
finish_charge-IsChargeStatus wire (err e') e total h =
    let same : classify (as_provider_error e') ≡ e = cc h in
    rw (← same) (classify-IsChargeStatus (as_provider_error e'))
finish_charge-IsChargeStatus wire (ok p) e total h =
    let (raw, m) = total p in absurd (ground (arith, m, h))

charge_with-IsChargeStatus :
    (wire : Wire) (net : Network) (req : ChargeRequest) (token : Text) (e : Error)
    → ((p : MpPayment) → (raw : Text) × (wire.marshal_payment p ≡ ok raw))
    → (charge_with wire net req token).0 ≡ err e
    → IsChargeStatus (http_status_for e)
unfolding charge_with
charge_with-IsChargeStatus wire net req [] e total h =
    inl (let same : no_token ≡ e = cc h in rw (← same) (unfold http_status_for in refl))
charge_with-IsChargeStatus wire net req (c ∷ token) e total h =
    finish_charge-IsChargeStatus wire _ e total h

-- A charge that fails is answered with 400, 422, 502 or 503, whatever the network and the provider
-- answer, if a payment can be marshaled.
pub create_charge-IsChargeStatus :
    (wire : Wire) (net : Network) (req : ChargeRequest) (e : Error)
    → ((p : MpPayment) → (raw : Text) × (wire.marshal_payment p ≡ ok raw))
    → (Gateway.create_charge wire net req).0 ≡ err e
    → IsChargeStatus (http_status_for e)
unfolding Gateway.create_charge
create_charge-IsChargeStatus wire net req e total h =
    charge_with-IsChargeStatus wire net req (config_value req.config (codes "access_token")) e total
      h

-- The status of billax for a category.
abbrev category_status : ErrorCategory → ℕ
category_status auth_failure = 502
category_status rejected = 422
category_status rate_limited = 503
category_status validation_error = 400
category_status unknown = 502

classify-category :
    (cat : ErrorCategory) (m : Text)
    → http_status_for (classify (some (cat, m))) ≡ category_status cat
unfolding classify http_status_for
classify-category auth_failure m = refl
classify-category rejected m = refl
classify-category rate_limited m = refl
classify-category validation_error m = refl
classify-category unknown m = refl

category-charge_error_status :
    (status : ℕ) → category_status (map_error_category status) ≡ charge_error_status status
unfolding map_error_category
category-charge_error_status status = ground arith

classify-error_of :
    (status : ℕ) (body : Option MpErrorResponse)
    → http_status_for (classify (as_provider_error (error_of status body)))
      ≡ charge_error_status status
unfolding error_of as_provider_error
classify-error_of status none = classify-category _ _ ∙ category-charge_error_status status
classify-error_of status (some e) = classify-category _ _ ∙ category-charge_error_status status

module _ (wire : Wire) (net : Network) (req : ChargeRequest) (c : ℕ) (token : Text)
    (has_token : config_value req.config (codes "access_token") ≡ c ∷ token)
    (calm : (k : ℕ) → net.done k ≡ none) (parses : (url : Text) → net.url_error url ≡ none)
    (marshals : (m : MpCreatePaymentRequest)
      → (body : Text) × (wire.marshal_request m ≡ ok body)) where
  new_request_ok :
      (r : HttpRequest) → Client.new_request wire net (codes "creating request") r ≡ ok r
  new_request_ok r = rw (parses r.url, Client.new_request) refl

  -- The charge is one call of `doWithRetry`.
  sends_request :
      (r : HttpRequest) × ((Gateway.create_charge wire net req).0
        ≡ finish_charge wire (
            (do_with_retry wire net r).0
            >>= decoded wire (codes "decoding payment response") wire.decode_payment))
  unfolding Gateway.create_charge charge_with Client.create_payment perform round_trip
  sends_request =
      let m = build_create_payment_request req in
      let (body, marshaled) = marshals m in
      let r = payment_request (c ∷ token) req.idempotency_key body in
      let made : Client.new_payment_request wire net m (c ∷ token) req.idempotency_key ≡ ok r =
        unfold Client.new_payment_request in rw marshaled (new_request_ok r) in
      (r, rw (has_token, made) refl)

  -- If the answer is a response other than 429, perhaps after answers to try again on, then a status
  -- of 400 or more becomes the status of billax for it.
  pub create_charge_refused :
      (n : ℕ) (resp : HttpResponse)
      → n < 4
      → ((k : ℕ) (r : HttpRequest) → k < n → is_retried (net.answer k r) ≡ true)
      → ((r : HttpRequest) → net.answer n r ≡ ok resp)
      → (resp.status_code == 429) ≡ false
      → leb 400 resp.status_code ≡ true
      → (e : Error) × ((Gateway.create_charge wire net req).0 ≡ err e)
        × (http_status_for e ≡ charge_error_status resp.status_code)
  unfolding decoded finish_charge
  create_charge_refused n resp lt retried final fine bad =
      let (r, charged) = sends_request in
      let (first, count) =
        do_with_retry_first wire net r calm n resp lt (λ k lt. retried k r lt) (final r) fine in
      (
        _,
        charged ∙ rw (first, bad) refl,
        classify-error_of resp.status_code (wire.decode_error resp.body),
      )

  -- If every answer is 429, the charge fails with status 503.
  pub create_charge_limited :
      ((k : ℕ) (r : HttpRequest) → is_limited (net.answer k r) ≡ true)
      → (e : Error) × ((Gateway.create_charge wire net req).0 ≡ err e) × (http_status_for e ≡ 503)
  unfolding decoded finish_charge
  create_charge_limited limited =
      let (r, charged) = sends_request in
      let (e, failed, (code, message, is_limit)) =
        do_with_retry_limited wire net r calm (λ k. limited k r) in
      (_, charged ∙ rw (failed, is_limit) refl, classify-category rate_limited message)
