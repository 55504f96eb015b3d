-- ===== src/Middleware/RateLimit.antt =====
-- internal/middleware/rate_limit.go: token buckets, one for each tenant.
--
-- Tokens are counted in parts of 1/60000, so that a bucket of m requests a minute gains m parts in a
-- millisecond; the rounding of the source's float64 is left out. An instant is a reading of the
-- monotonic clock in nanoseconds. A mutex makes each operation atomic.
pub mod Bounds
pub mod Tenants
use billax.Prelude.{
  ℕ, ◌+◌, ◌-◌, ◌*◌, ◌/◌, min, Bool, true, false, Option, none, some, List, [], ◌∷◌, leb, ◌==◌,
  if◌then◌else◌,
}

pub record TokenBucket : Type 0 where
  pub max_tokens : ℕ
  pub tokens : ℕ
  pub last_refill : ℕ

abbrev pub one_token : ℕ
one_token = 60000

abbrev pub nanos_per_milli : ℕ
nanos_per_milli = 1000000

-- `NewTokenBucket`
unfoldable pub new_token_bucket : ℕ → ℕ → TokenBucket
new_token_bucket requests_per_minute now = record {
  max_tokens = requests_per_minute;
  tokens = requests_per_minute * one_token;
  last_refill = now;
}

-- The first half of `Take`: the whole milliseconds since the last refill are credited, and the rest
-- of a millisecond is dropped.
unfoldable pub refill : ℕ → TokenBucket → TokenBucket
refill now b = record b {
  tokens =
      min (b.max_tokens * one_token)
        (b.tokens + b.max_tokens * ((now - b.last_refill) / nanos_per_milli));
  last_refill = now;
}

-- The second half.
unfoldable pub consume : TokenBucket → Bool × TokenBucket
consume b =
    if leb one_token b.tokens
    then (true, record b { tokens = b.tokens - one_token })
    else (false, b)

-- `Take`
unfoldable pub take_token : ℕ → TokenBucket → Bool × TokenBucket
unfolding refill consume
take_token now b = consume (refill now b)

-- `GetRemaining`
unfoldable pub remaining : TokenBucket → ℕ
remaining b = b.tokens / one_token

pub record RateLimiter : Type 0 where
  pub default_limit : ℕ
  pub buckets : List (ℕ × TokenBucket)

-- `NewRateLimiter`
abbrev pub new_rate_limiter : ℕ → RateLimiter
new_rate_limiter default_limit = record { default_limit = default_limit; buckets = [] }

unfoldable pub bucket_of : ℕ → List (ℕ × TokenBucket) → Option TokenBucket
bucket_of tenant [] = none
bucket_of tenant ((t, b) ∷ rest) =
    let later = bucket_of tenant rest in if t == tenant then some b else later

-- The map with the bucket of a tenant set.
unfoldable pub set_bucket : ℕ → TokenBucket → List (ℕ × TokenBucket) → List (ℕ × TokenBucket)
set_bucket tenant new [] = (tenant, new) ∷ []
set_bucket tenant new ((t, b) ∷ rest) =
    let later = set_bucket tenant new rest in
    if t == tenant then (tenant, new) ∷ rest else (t, b) ∷ later

-- The bucket that `Allow` takes from.
unfoldable pub found_or_new : RateLimiter → ℕ → ℕ → TokenBucket
unfolding bucket_of new_token_bucket
found_or_new rl tenant now = elim (bucket_of tenant rl.buckets) [
  | none ↦ new_token_bucket rl.default_limit now
  | some b ↦ b
]

-- `Allow`
unfoldable pub allow : ℕ → ℕ → RateLimiter → Bool × RateLimiter
unfolding found_or_new set_bucket take_token
allow tenant now rl =
    let (allowed, b) = take_token now (found_or_new rl tenant now) in
    (allowed, record rl { buckets = set_bucket tenant b rl.buckets })

-- `RateLimiter.GetRemaining`
unfoldable pub get_remaining : RateLimiter → ℕ → ℕ
unfolding bucket_of remaining
get_remaining rl tenant = elim (bucket_of tenant rl.buckets) [
  | none ↦ rl.default_limit
  | some b ↦ remaining b
]
