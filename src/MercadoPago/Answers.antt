-- ===== src/MercadoPago/Answers.antt =====
-- internal/provider/mercadopago/client.go: which answer `doWithRetry` returns, where the context does
-- not end.
use billax.Prelude.{
  ℕ, zero, suc, ◌+◌, ◌<◌, ◌≡◌, refl, ap, ◌∙◌, Bool, true, false, Option, none, some, List, [], ◌∷◌,
  arith, ◌==◌, ==_iff, length, Text, codes,
}
use billax.MercadoPago.{MpErrorResponse}
use billax.Errors.{rate_limited, Error, provider}
use billax.Result.{Result, ok, err}
use billax.MercadoPago.Client.{
  HttpRequest, HttpResponse, Network, Wire, Step, map_error_category, error_of, exhausted, Traced,
  judged, pause, no_error, tried, attempts, do_with_retry,
}
use billax.MercadoPago.Retry.{sent, sent-append, sent-pause}

-- An answer that the client tries again on.
abbrev pub is_retried : Result HttpResponse → Bool
is_retried (err e) = true
is_retried (ok resp) = resp.status_code == 429

abbrev pub is_limited : Result HttpResponse → Bool
is_limited (err e) = false
is_limited (ok resp) = resp.status_code == 429

abbrev pub IsLimitError : Error → Type 0
IsLimitError e = (code message : Text) × (e ≡ provider rate_limited 429 code message)

judged-retried :
    (wire : Wire) (a : Result HttpResponse)
    → is_retried a ≡ true
    → (e : Error) × (judged wire a ≡ err e)
unfolding judged
judged-retried wire (err e) h = (e, refl)
judged-retried wire (ok resp) h =
    (error_of resp.status_code (wire.decode_error resp.body), rw h refl)

judged_final :
    (wire : Wire) (a : Result HttpResponse) (resp : HttpResponse)
    → a ≡ ok resp
    → (resp.status_code == 429) ≡ false
    → judged wire a ≡ ok resp
unfolding judged
judged_final wire a resp final h = rw (final, h) refl

error_of-IsLimitError : (body : Option MpErrorResponse) → IsLimitError (error_of 429 body)
unfolding error_of map_error_category
error_of-IsLimitError none = (codes "unknown", codes "unreadable error response", refl)
error_of-IsLimitError (some e) = (e.error_code, e.message, refl)

judged-limited :
    (wire : Wire) (a : Result HttpResponse)
    → is_limited a ≡ true
    → (e : Error) × (judged wire a ≡ err e) × IsLimitError e
unfolding judged
judged-limited wire (err e) h = absurd (cc)
judged-limited wire (ok resp) h =
    let status : resp.status_code ≡ 429 = (==_iff resp.status_code 429).0 h in
    (
      error_of resp.status_code (wire.decode_error resp.body),
      rw h refl,
      rw status (error_of-IsLimitError (wire.decode_error resp.body)),
    )

pause-calm :
    (net : Network) (attempt : ℕ) → ((k : ℕ) → net.done k ≡ none) → (pause net attempt).0 ≡ none
pause-calm net attempt calm = let c = calm attempt in ground (arith, c)

-- A round that ends with a response, and one that goes on.
tried_final :
    (stop : Option Error × List Step) (req : HttpRequest) (resp : HttpResponse)
    (again : Error → Traced HttpResponse)
    → stop.0 ≡ none
    → sent stop.1 ≡ []
    → ((tried stop req (ok resp) again).0 ≡ ok resp)
      × (sent (tried stop req (ok resp) again).1 ≡ req ∷ [])
unfolding tried
tried_final (some e, waits) req resp again going none_yet = absurd (cc)
tried_final (none, waits) req resp again going none_yet = (refl, rw (sent-append, none_yet) refl)

tried_again :
    (stop : Option Error × List Step) (req : HttpRequest) (e : Error)
    (again : Error → Traced HttpResponse)
    → stop.0 ≡ none
    → sent stop.1 ≡ []
    → ((tried stop req (err e) again).0 ≡ (again e).0)
      × (sent (tried stop req (err e) again).1 ≡ req ∷ sent (again e).1)
unfolding tried
tried_again (some e', waits) req e again going none_yet = absurd (cc)
tried_again (none, waits) req e again going none_yet =
    (refl, rw (sent-append, sent-append, none_yet) refl)

shift_round : (a k : ℕ) → a + 1 + k ≡ a + suc k
shift_round a k = omega arith

first_round : (a : ℕ) → a ≡ a + 0
first_round a = omega arith

from_zero : (k : ℕ) → 0 + k ≡ k
from_zero k = omega arith

module _ (wire : Wire) (net : Network) (req : HttpRequest)
    (calm : (k : ℕ) → net.done k ≡ none) where
  -- An answer that is not tried again on comes back, after the answers before it.
  attempts_first :
      (n left attempt : ℕ) (resp : HttpResponse) (last : Error)
      → n < left
      → ((k : ℕ) → k < n → is_retried (net.answer (attempt + k) req) ≡ true)
      → net.answer (attempt + n) req ≡ ok resp
      → (resp.status_code == 429) ≡ false
      → ((attempts wire net left attempt req last).0 ≡ ok resp)
        × (length (sent (attempts wire net left attempt req last).1) ≡ suc n)
  unfolding attempts
  attempts_first n zero attempt resp last lt retried final fine = absurd (omega arith)
  attempts_first zero (suc left) attempt resp last lt retried final fine =
      let now : net.answer attempt req ≡ ok resp =
        ap (λ k. net.answer k req) (first_round attempt) ∙ final in
      let (same_answer, one) =
        tried_final (pause net attempt) req resp (attempts wire net left (attempt + 1) req)
          (pause-calm net attempt calm) (sent-pause net attempt) in
      rw (judged_final wire (net.answer attempt req) resp now fine) (same_answer, rw one refl)
  attempts_first (suc n) (suc left) attempt resp last lt retried final fine =
      let (e, again) =
        judged-retried wire (net.answer attempt req) (
          ap (λ k. is_retried (net.answer k req)) (first_round attempt)
          ∙ retried 0 (omega arith)) in
      let (same_answer, more) =
        tried_again (pause net attempt) req e (attempts wire net left (attempt + 1) req)
          (pause-calm net attempt calm) (sent-pause net attempt) in
      let (result, count) =
        attempts_first n left (attempt + 1) resp e (omega arith)
          (λ k lt. rw (shift_round attempt k) (retried (suc k) (omega arith)))
          (rw (shift_round attempt n) final) fine in
      rw (again, same_answer, more) (result, rw count refl)

  -- Where every answer is 429, so is the error that comes back.
  attempts_limited :
      (left attempt : ℕ) (last : Error)
      → ((k : ℕ) → is_limited (net.answer k req) ≡ true)
      → (e : Error) × ((attempts wire net (suc left) attempt req last).0 ≡ err e) × IsLimitError e
  unfolding attempts exhausted
  attempts_limited zero attempt last limited =
      let (e, again, (code, message, is_limit)) =
        judged-limited wire (net.answer attempt req) (limited attempt) in
      let (result, trace) =
        tried_again (pause net attempt) req e (attempts wire net 0 (attempt + 1) req)
          (pause-calm net attempt calm) (sent-pause net attempt) in
      rw (again, result) (e, rw is_limit refl, (code, message, is_limit))
  attempts_limited (suc left) attempt last limited =
      let (e, again, is_limit) = judged-limited wire (net.answer attempt req) (limited attempt) in
      let (result, trace) =
        tried_again (pause net attempt) req e (attempts wire net (suc left) (attempt + 1) req)
          (pause-calm net attempt calm) (sent-pause net attempt) in
      rw (again, result) (attempts_limited left (attempt + 1) e limited)

  -- If the context does not end, the client returns the first answer that is a response other than 429:
  -- if it is that of attempt n, at most 3, and the answers before it were errors of the transport or
  -- had status 429, the request was sent n + 1 times.
  pub do_with_retry_first :
      (n : ℕ) (resp : HttpResponse)
      → n < 4
      → ((k : ℕ) → k < n → is_retried (net.answer k req) ≡ true)
      → net.answer n req ≡ ok resp
      → (resp.status_code == 429) ≡ false
      → ((do_with_retry wire net req).0 ≡ ok resp)
        × (length (sent (do_with_retry wire net req).1) ≡ suc n)
  unfolding do_with_retry
  do_with_retry_first n resp lt retried final fine =
      attempts_first n 4 0 resp no_error lt (λ k lt. rw (from_zero k) (retried k lt))
        (rw (from_zero n) final) fine

  pub do_with_retry_limited :
      ((k : ℕ) → is_limited (net.answer k req) ≡ true)
      → (e : Error) × ((do_with_retry wire net req).0 ≡ err e) × IsLimitError e
  unfolding do_with_retry
  do_with_retry_limited limited = attempts_limited 3 0 no_error limited
