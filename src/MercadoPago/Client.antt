-- ===== src/MercadoPago/Client.antt =====
-- internal/provider/mercadopago/client.go: the requests to the API of Mercado Pago, their retries and
-- the classification of error answers. The network and `encoding/json` are parameters. A call returns
-- its result beside the waits it began and the requests it sent, in order. `http.NewRequest` refuses
-- only the URL here, so the requests that repeat one that was made are made again.
use billax.Prelude.{
  ℕ, zero, suc, ◌+◌, ◌-◌, ◌*◌, ◌^◌, Option, none, some, List, [], ◌∷◌, ◌++◌, leb, ◌==◌,
  if◌then◌else◌, Text, codes,
}
use billax.Errors.{
  ErrorCategory, auth_failure, rejected, rate_limited, validation_error, unknown, Error, provider,
  wrap, opaque,
}
use billax.Result.{Result, ok, err, wrap_err, ◌>>=◌}
use billax.MercadoPago.{Units, MpCreatePaymentRequest, MpPayment, MpRefund, MpErrorResponse}

pub record HttpRequest : Type 0 where
  pub url : Text
  pub header : List (Text × Text)
  pub body : Text

pub record HttpResponse : Type 0 where
  pub status_code : ℕ
  pub body : Text

-- The network during one call: the answer to an attempt, `ctx.Err()` where the context ends during the
-- wait before an attempt, the random part of that wait, and the error of a URL that does not parse.
pub record Network : Type 0 where
  pub answer : ℕ → HttpRequest → Result HttpResponse
  pub done : ℕ → Option Error
  pub jitter : ℕ → ℕ
  pub url_error : Text → Option Error

-- `json.Marshal` and `json.Decoder.Decode` at the types of the client.
pub record Wire : Type 0 where
  pub marshal_request : MpCreatePaymentRequest → Result Text
  pub marshal_refund_request : Units → Result Text
  pub decode_payment : Text → Result MpPayment
  pub decode_refund : Text → Result MpRefund
  pub decode_error : Text → Option MpErrorResponse
  pub marshal_payment : MpPayment → Result Text

pub data Step : Type 0 where
  -- nanoseconds
  wait : ℕ → Step
  send : HttpRequest → Step

abbrev pub max_retries : ℕ
max_retries = 3

abbrev pub base_delay : ℕ
base_delay = 1000000000

abbrev base_url : Text
base_url = codes "https://api.mercadopago.com"

-- `mapErrorCategory`
unfoldable pub map_error_category : ℕ → ErrorCategory
map_error_category status =
    if status == 401
    then auth_failure
    else if status == 422
    then rejected
    else if status == 429
    then rate_limited
    else if status == 400
    then validation_error
    else unknown

-- `readErrorResponse`, on what the body decodes to
unfoldable pub error_of : ℕ → Option MpErrorResponse → Error
unfolding map_error_category
error_of status none =
    provider (map_error_category status) status (codes "unknown")
      (codes "unreadable error response")
error_of status (some e) = provider (map_error_category status) status e.error_code e.message

-- What is returned after the last attempt.
unfoldable pub exhausted : Error → Error
exhausted (provider category status code message) = provider category status code message
exhausted e = wrap (codes "mercadopago: max retries exceeded after 4 attempts") e

abbrev pub Traced {ℓ} : Type ℓ → Type ℓ
Traced A = Result A × List Step

abbrev pub after {ℓ} : {A : Type ℓ} → List Step → Traced A → Traced A
after steps (r, more) = (r, steps ++ more)

-- What an attempt leaves: an error to try again on, or the response to return.
unfoldable pub judged : Wire → Result HttpResponse → Result HttpResponse
unfolding error_of
judged wire (err e) = err e
judged wire (ok resp) =
    if resp.status_code == 429
    then err (error_of resp.status_code (wire.decode_error resp.body))
    else ok resp

-- `delay + jitter`
abbrev pub pause_before : Network → ℕ → ℕ
pause_before net attempt = base_delay * 2 ^ (attempt - 1) + net.jitter attempt

-- The wait before an attempt: the error of the context that ends, and the waits begun.
abbrev pub pause : Network → ℕ → Option Error × List Step
pause net attempt =
    if attempt == 0 then (none, []) else (net.done attempt, wait (pause_before net attempt) ∷ [])

abbrev pub payments_url : Text
payments_url = base_url ++ codes "/v1/payments"

abbrev pub payment_request : Text → Text → Text → HttpRequest
payment_request access_token key body = record {
  url = payments_url;
  header =
      (codes "Authorization", codes "Bearer " ++ access_token)
      ∷ (codes "Content-Type", codes "application/json")
      ∷ (codes "X-Idempotency-Key", key)
      ∷ [];
  body = body;
}

-- What both operations do with the response.
unfoldable pub decoded {ℓ} :
    {A : Type ℓ} → Wire → Text → (Text → Result A) → HttpResponse → Result A
unfolding error_of
decoded wire prefix decode resp =
    if leb 400 resp.status_code
    then err (error_of resp.status_code (wire.decode_error resp.body))
    else wrap_err prefix (decode resp.body)

unfoldable pub round_trip {ℓ} :
    {A : Type ℓ} → (HttpResponse → Result A) → Traced HttpResponse → Traced A
round_trip next (r, steps) = (r >>= next, steps)

-- `var lastErr error`
abbrev pub no_error : Error
no_error = opaque (codes "<nil>")

-- One round of the loop: it ends with the context, or with a response to return, or it goes on.
unfoldable pub tried :
    Option Error × List Step
    → HttpRequest
    → Result HttpResponse
    → (Error → Traced HttpResponse)
    → Traced HttpResponse
tried (some e, waits) req answer again = (err e, waits)
tried (none, waits) req (ok resp) again = (ok resp, waits ++ send req ∷ [])
tried (none, waits) req (err e) again = after (waits ++ send req ∷ []) (again e)

module _ (wire : Wire) (net : Network) where
  -- The rounds that are left, the attempt, the request and the last error.
  unfoldable pub attempts : ℕ → ℕ → HttpRequest → Error → Traced HttpResponse
  unfolding judged tried exhausted
  attempts zero attempt req last = (err (exhausted last), [])
  attempts (suc left) attempt req last =
      tried (pause net attempt) req (judged wire (net.answer attempt req))
        (attempts left (attempt + 1) req)

  -- `doWithRetry`, where no attempt has failed yet
  unfoldable pub do_with_retry : HttpRequest → Traced HttpResponse
  unfolding attempts
  do_with_retry req = attempts (max_retries + 1) 0 req no_error

  abbrev pub new_request : Text → HttpRequest → Result HttpRequest
  new_request prefix req = elim (net.url_error req.url) [
    | none ↦ ok req
    | some e ↦ err (wrap prefix e)
  ]

  unfoldable pub perform {ℓ} :
      {A : Type ℓ} → (HttpResponse → Result A) → Result HttpRequest → Traced A
  unfolding do_with_retry round_trip
  perform next (err e) = (err e, [])
  perform next (ok req) = round_trip next (do_with_retry req)

  -- The request that `CreatePayment` makes.
  unfoldable pub new_payment_request : MpCreatePaymentRequest → Text → Text → Result HttpRequest
  new_payment_request req access_token key = do
    body ← wrap_err (codes "marshaling request body") (wire.marshal_request req)
    new_request (codes "creating request") (payment_request access_token key body)

  -- `CreatePayment`
  unfoldable pub create_payment : MpCreatePaymentRequest → Text → Text → Traced MpPayment
  unfolding perform decoded new_payment_request
  create_payment req access_token key =
      perform (decoded wire (codes "decoding payment response") wire.decode_payment)
        (new_payment_request req access_token key)

  -- `CreateRefund`
  unfoldable pub create_refund : Text → Units → Text → Traced MpRefund
  unfolding perform decoded
  create_refund payment_id amount access_token =
      perform (decoded wire (codes "decoding refund response") wire.decode_refund) (do
        body ← wrap_err (codes "marshaling refund request") (wire.marshal_refund_request amount)
        new_request (codes "creating refund request") (record {
          url = base_url ++ (codes "/v1/payments/" ++ (payment_id ++ codes "/refunds"));
          header =
              (codes "Authorization", codes "Bearer " ++ access_token)
              ∷ (codes "Content-Type", codes "application/json")
              ∷ [];
          body = body;
        }))
