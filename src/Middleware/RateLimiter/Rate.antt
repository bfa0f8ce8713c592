-- ===== src/Middleware/RateLimiter/Rate.antt =====
-- The calls of `try_consume` on one bucket over time.
use multithreaded.Base.{
  ap, ℕ, suc, ◌<◌, ◌≡◌, ◌^◌, true, if◌then◌else◌, arith, refl, List, [], ◌∷◌, length,
}
use multithreaded.Base.Float.{F64Lib}
use multithreaded.Middleware.RateLimiter.{TokenBucket, try_consume}
use multithreaded.Middleware.RateLimiter.Bucket.{
  IsBucket, refilled, le-refilled, try_consume-IsBucket,
}

module _ ⦃f64 : F64Lib⦄ where
  open f64 use {from_u32, le, le_trans, le-from_u32, le-sub}

  -- How many of the calls at the given times are allowed, and the bucket after them.
  pub serve : TokenBucket → List ℕ → TokenBucket × ℕ
  serve bucket [] = (bucket, 0)
  serve bucket (now ∷ times) =
      let (bucket', allowed) = try_consume bucket now in
      let (end, count) = serve bucket' times in (end, if allowed then suc count else count)

  try_consume_full :
      {rate_rps : ℕ} (b : TokenBucket) (now rest : ℕ)
      → IsBucket rate_rps b
      → suc rest < 2 ^ 32
      → le (from_u32 (suc rest)) b.tokens ≡ true
      → ((try_consume b now).1 ≡ true) × (le (from_u32 rest) (try_consume b now).0.tokens ≡ true)
  unfolding try_consume
  try_consume_full {rate_rps} b now rest v h k =
      let enough : le (from_u32 (suc rest)) (refilled b now) ≡ true =
        le_trans _ _ _ k (le-refilled rate_rps now b v) in
      let one : le (from_u32 1) (refilled b now) ≡ true =
        le_trans _ _ _ (le-from_u32 1 (suc rest) (omega arith) h) enough in
      rw (one, try_consume) (refl, le-sub rest _ h enough)

  -- Nobody waits with tokens at hand: with `n` whole tokens in a bucket of a limiter, `n` a u32, the
  -- next `n` calls are all allowed, whenever they come.
  pub serve-burst :
      (rate_rps : ℕ) (b : TokenBucket) (times : List ℕ)
      → IsBucket rate_rps b
      → length times < 2 ^ 32
      → le (from_u32 (length times)) b.tokens ≡ true
      → (serve b times).1 ≡ length times
  unfolding serve
  serve-burst rate_rps b [] v k h = refl
  serve-burst rate_rps b (now ∷ times) v k h =
      let (allowed, left) = try_consume_full b now (length times) v k h in
      rw allowed (
        ap suc (
          serve-burst rate_rps (try_consume b now).0 times (try_consume-IsBucket rate_rps now b v)
            (omega arith) left))
