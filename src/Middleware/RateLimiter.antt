-- ===== src/Middleware/RateLimiter.antt =====
-- src/middleware/rate_limiter.rs. Times are nanoseconds on the monotonic clock.
pub mod Bucket
pub mod Rate
pub mod Eviction
pub mod PerAddress
pub mod Service
use multithreaded.Base.{
  ℕ, suc, ◌+◌, ◌-◌, ◌*◌, ◌%◌, ◌^◌, Bool, true, false, ◌&&◌, Option, none, some, List, [], ◌∷◌,
  if◌then◌else◌, ltb, leb, ◌==◌, filter, length,
}
use multithreaded.Base.Float.{F64Lib}

-- One second.
abbrev pub nanos : ℕ
nanos = 1_000_000_000

-- EVICT_EVERY_N_CHECKS
abbrev pub evict_every_n_checks : ℕ
evict_every_n_checks = 10_000

-- STALE_BUCKET_TTL
abbrev pub stale_bucket_ttl : ℕ
stale_bucket_ttl = 300 * nanos

module _ ⦃f64 : F64Lib⦄ where
  open f64 use {F64, from_u32, as_secs_f64, add, sub, mul, min, le}

  pub record TokenBucket : Type 0 where
    pub tokens : F64
    pub capacity : F64
    pub last_refill : ℕ
    pub rate : F64

  -- `TokenBucket::new` at the time `now`.
  unfoldable pub new_bucket : ℕ → ℕ → TokenBucket
  new_bucket rate_rps now = record {
    tokens = from_u32 rate_rps;
    capacity = from_u32 rate_rps;
    last_refill = now;
    rate = from_u32 rate_rps;
  }

  -- `duration_since` is 0 where the clock would run backwards, as `-` is.
  unfoldable pub try_consume : TokenBucket → ℕ → TokenBucket × Bool
  try_consume bucket now =
      let elapsed = as_secs_f64 (now - bucket.last_refill) in
      let tokens = min (add bucket.tokens (mul elapsed bucket.rate)) bucket.capacity in
      if le (from_u32 1) tokens
      then (record bucket { tokens = sub tokens (from_u32 1); last_refill = now }, true)
      else (record bucket { tokens = tokens; last_refill = now }, false)

  -- An `IpAddr` by a number.
  pub record RateLimiter : Type 0 where
    pub buckets : List (ℕ × TokenBucket)
    pub rate_rps : ℕ
    pub check_count : ℕ

  abbrev pub new : ℕ → RateLimiter
  new rate_rps = record { buckets = []; rate_rps = rate_rps; check_count = 0 }

  -- `retain` on the buckets that were refilled at the cutoff or later. Nothing is stale while the
  -- clock stands below the lifetime.
  unfoldable pub evict_stale : RateLimiter → ℕ → RateLimiter
  evict_stale limiter now = if ltb now stale_bucket_ttl then limiter else record limiter {
    buckets = filter (λ b. leb (now - stale_bucket_ttl) (b.1).last_refill) limiter.buckets;
  }

  -- `entry(ip).or_insert_with(..).try_consume()`.
  unfoldable pub consume_entry : ℕ → ℕ → ℕ → List (ℕ × TokenBucket) → List (ℕ × TokenBucket) × Bool
  unfolding new_bucket try_consume
  consume_entry rate_rps ip now [] =
      let (bucket, allowed) = try_consume (new_bucket rate_rps now) now in
      ((ip, bucket) ∷ [], allowed)
  consume_entry rate_rps ip now ((jp, bucket) ∷ buckets) =
      let (later, allowed) = consume_entry rate_rps ip now buckets in
      let (bucket', consumed) = try_consume bucket now in
      if jp == ip then ((jp, bucket') ∷ buckets, consumed) else ((jp, bucket) ∷ later, allowed)

  -- `check` of `ip`. The eviction reads the clock first, at `swept`, and the bucket at `now`. The
  -- counter is a u64 and wraps.
  unfoldable pub check : RateLimiter → ℕ → ℕ → ℕ → RateLimiter × Bool
  unfolding evict_stale consume_entry
  check limiter ip swept now =
      let n = limiter.check_count in
      let counted = record limiter { check_count = (n + 1) % 2 ^ 64 } in
      let swept_limiter =
        if ltb 0 n && n % evict_every_n_checks == 0 then evict_stale counted swept else counted in
      let (buckets, allowed) = consume_entry limiter.rate_rps ip now swept_limiter.buckets in
      (record swept_limiter { buckets = buckets }, allowed)

  unfoldable pub bucket_count : RateLimiter → ℕ
  bucket_count limiter = length limiter.buckets
