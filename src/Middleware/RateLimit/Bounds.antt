-- ===== src/Middleware/RateLimit/Bounds.antt =====
-- How much a token bucket lets through.
use native.Mathlib.Nat.{mul-le-mul_left, min-le_right}
use billax.Prelude.{
  ℕ, ◌+◌, ◌-◌, ◌*◌, ◌/◌, ◌≤◌, ◌<◌, ◌≡◌, refl, sym, ap, ◌∙◌, Bool, false, List, [], ◌∷◌, arith,
  if◌then◌else◌,
}
use billax.Middleware.RateLimit.{
  TokenBucket, one_token, nanos_per_milli, refill, consume, take_token,
}

-- A run of `Take` at the given instants: how many succeed, and the bucket that is left.
unfoldable pub takes : List ℕ → TokenBucket → ℕ × TokenBucket
unfolding take_token
takes [] b = (0, b)
takes (now ∷ later) b =
    let (allowed, b1) = take_token now b in
    let (n, b2) = takes later b1 in ((if allowed then 1 else 0) + n, b2)

-- The clock does not run backwards.
abbrev pub IsOrdered : ℕ → List ℕ → Type 0
IsOrdered start [] = Unit
IsOrdered start (now ∷ later) = (start ≤ now) × IsOrdered now later

-- Each instant is less than a millisecond after the one before.
abbrev pub IsRapid : ℕ → List ℕ → Type 0
IsRapid start [] = Unit
IsRapid start (now ∷ later) = (now - start < nanos_per_milli) × IsRapid now later

-- The whole milliseconds of a time are not longer than it.
credit_le :
    (m last now : ℕ)
    → last ≤ now
    → m * ((now - last) / nanos_per_milli) * nanos_per_milli + m * last ≤ m * now
credit_le m last now h =
    let whole : last + (now - last) / nanos_per_milli * nanos_per_milli ≤ now = omega arith in
    omega (arith, mul-le-mul_left m whole)

refill_le :
    (now : ℕ) (b : TokenBucket)
    → b.last_refill ≤ now
    → (refill now b).tokens * nanos_per_milli + b.max_tokens * b.last_refill
      ≤ b.tokens * nanos_per_milli + b.max_tokens * now
unfolding refill
refill_le now b h = omega (
  arith,
  credit_le b.max_tokens b.last_refill now h,
  min-le_right (b.max_tokens * one_token)
      (b.tokens + b.max_tokens * ((now - b.last_refill) / nanos_per_milli)),
)

abbrev spent : Bool → ℕ
spent allowed = if allowed then 1 else 0

consume_lem :
    (b : TokenBucket)
    → ((consume b).1.tokens + spent (consume b).0 * one_token ≡ b.tokens)
      × ((consume b).1.max_tokens ≡ b.max_tokens)
      × ((consume b).1.last_refill ≡ b.last_refill)
unfolding consume
consume_lem b = ground arith

take_le :
    (now : ℕ) (b : TokenBucket)
    → b.last_refill ≤ now
    → ((take_token now b).1.tokens + spent (take_token now b).0 * one_token) * nanos_per_milli
        + b.max_tokens * b.last_refill
      ≤ b.tokens * nanos_per_milli + b.max_tokens * now
unfolding take_token
take_le now b h = omega (arith, refill_le now b h, (consume_lem (refill now b)).0)

take_fields :
    (now : ℕ) (b : TokenBucket)
    → ((take_token now b).1.max_tokens ≡ b.max_tokens) × ((take_token now b).1.last_refill ≡ now)
unfolding take_token refill
take_fields now b = ((consume_lem (refill now b)).1, (consume_lem (refill now b)).2)

takes_le :
    (times : List ℕ) (b : TokenBucket) (m start : ℕ)
    → b.max_tokens ≡ m
    → b.last_refill ≡ start
    → IsOrdered start times
    → ((takes times b).0 * one_token + (takes times b).1.tokens) * nanos_per_milli + m * start
      ≤ b.tokens * nanos_per_milli + m * (takes times b).1.last_refill
unfolding takes
takes_le [] b m start hm hs h = rw hs (omega arith)
takes_le (now ∷ later) b m start hm hs h =
    let ih =
      takes_le later (take_token now b).1 m now ((take_fields now b).0 ∙ hm) (take_fields now b).1
        h.1 in
    let first : ((take_token now b).1.tokens + spent (take_token now b).0 * one_token)
            * nanos_per_milli
          + m * start
        ≤ b.tokens * nanos_per_milli + m * now =
      rw (sym hm, sym hs) (take_le now b (rw hs h.0)) in
    omega (arith, ih, first)

-- Whatever the instants, as long as the clock does not run backwards: what a bucket lets through, with
-- what is left in it, is at most what was in it and the refill of the time that has passed.
pub takes-bounded :
    (times : List ℕ) (b : TokenBucket)
    → IsOrdered b.last_refill times
    → ((takes times b).0 * one_token + (takes times b).1.tokens) * nanos_per_milli
        + b.max_tokens * b.last_refill
      ≤ b.tokens * nanos_per_milli + b.max_tokens * (takes times b).1.last_refill
takes-bounded times b h = takes_le times b b.max_tokens b.last_refill refl refl h

refill_rapid :
    (now : ℕ) (b : TokenBucket)
    → b.tokens < one_token
    → now - b.last_refill < nanos_per_milli
    → (refill now b).tokens < one_token
unfolding refill
refill_rapid now b few h =
    let nothing : (now - b.last_refill) / nanos_per_milli ≡ 0 = omega arith in
    rw nothing
      (omega (arith, few, min-le_right (b.max_tokens * one_token) (b.tokens + b.max_tokens * 0)))

refused_rapid :
    (now : ℕ) (b : TokenBucket)
    → b.tokens < one_token
    → now - b.last_refill < nanos_per_milli
    → take_token now b ≡ (false, refill now b)
unfolding take_token consume
refused_rapid now b few h = ground (arith, refill_rapid now b few h)

-- Instants that each lie less than a millisecond after the one before: nothing is credited, however
-- many there are, so a bucket without a whole token stays so and refuses every request.
pub takes-starved :
    (times : List ℕ) (b : TokenBucket)
    → b.tokens < one_token
    → IsRapid b.last_refill times
    → (takes times b).0 ≡ 0
unfolding takes
takes-starved [] b few h = refl
takes-starved (now ∷ later) b few h =
    let none' = refused_rapid now b few h.0 in
    let ih =
      takes-starved later (take_token now b).1 (rw none' (refill_rapid now b few h.0))
        (rw (take_fields now b).1 h.1) in
    rw (ap (λ x. x.0) none', ih) refl
