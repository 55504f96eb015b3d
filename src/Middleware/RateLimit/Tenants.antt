-- ===== src/Middleware/RateLimit/Tenants.antt =====
-- The buckets of a rate limiter are those of its tenants, one for each.
use billax.Prelude.{ℕ, ◌≡◌, ap, ◌≢◌, none, some, List, [], ◌∷◌, arith}
use billax.Middleware.RateLimit.{
  TokenBucket, new_token_bucket, take_token, remaining, RateLimiter, bucket_of, set_bucket,
  found_or_new, allow, get_remaining,
}

bucket_of-set_bucket_self :
    (tenant : ℕ) (b : TokenBucket) (buckets : List (ℕ × TokenBucket))
    → bucket_of tenant (set_bucket tenant b buckets) ≡ some b
unfolding bucket_of set_bucket
bucket_of-set_bucket_self tenant b [] = ground arith
bucket_of-set_bucket_self tenant b ((t, c) ∷ rest) =
    ground (arith, bucket_of-set_bucket_self tenant b rest)

bucket_of-set_bucket_ne :
    (tenant other : ℕ) (b : TokenBucket) (buckets : List (ℕ × TokenBucket))
    → tenant ≢ other
    → bucket_of other (set_bucket tenant b buckets) ≡ bucket_of other buckets
unfolding bucket_of set_bucket
bucket_of-set_bucket_ne tenant other b [] h = ground arith
bucket_of-set_bucket_ne tenant other b ((t, c) ∷ rest) h =
    ground (arith, bucket_of-set_bucket_ne tenant other b rest h)

module _ (tenant now : ℕ) (rl : RateLimiter) where
  -- A request of one tenant takes nothing from another: whether the next request of the other is let
  -- through, and what remains to it, are as they would have been.
  pub allow-isolated :
      (other later : ℕ)
      → tenant ≢ other
      → ((allow other later (allow tenant now rl).1).0 ≡ (allow other later rl).0)
        × (get_remaining (allow tenant now rl).1 other ≡ get_remaining rl other)
  unfolding allow found_or_new get_remaining
  allow-isolated other later h =
      let same =
        bucket_of-set_bucket_ne tenant other (take_token now (found_or_new rl tenant now)).1
          rl.buckets h in
      (
        ap
            (λ o.
              (take_token later
                (elim o [ none ↦ new_token_bucket rl.default_limit later | some b ↦ b ])).0)
            same,
        ap (λ o. elim o [ none ↦ rl.default_limit | some b ↦ remaining b ]) same,
      )

  -- What remains to a tenant after its request is what is left in the bucket that was taken from.
  pub get_remaining-allow :
      get_remaining (allow tenant now rl).1 tenant
      ≡ remaining (take_token now (found_or_new rl tenant now)).1
  unfolding allow get_remaining
  get_remaining-allow =
      ap (λ o. elim o [ none ↦ rl.default_limit | some b ↦ remaining b ])
        (bucket_of-set_bucket_self tenant (take_token now (found_or_new rl tenant now)).1
          rl.buckets)
