-- ===== src/Middleware/RateLimiter/Bucket.antt =====
-- One call of `try_consume`.
use multithreaded.Base.{ℕ, ◌-◌, ◌<◌, ◌≡◌, ◌^◌, refl, true, arith, Bool-cases, inl, inr}
use multithreaded.Base.Float.{F64Lib}
use multithreaded.Middleware.RateLimiter.{TokenBucket, try_consume, new_bucket}

module _ ⦃f64 : F64Lib⦄ where
  open f64 use {
    F64, from_u32, as_secs_f64, add, sub, mul, min, le, le_trans, le-from_u32, le-add_left,
    mul_nonnegative, min-le_right, le-min, sub-le, le-sub,
  }

  -- What holds of every bucket of a limiter with `rate_rps`.
  pub record IsBucket (rate_rps : ℕ) (b : TokenBucket) : Type 0 where
    pub fits : rate_rps < 2 ^ 32
    pub rated : b.rate ≡ from_u32 rate_rps
    pub capped : b.capacity ≡ from_u32 rate_rps
    pub nonnegative : le (from_u32 0) b.tokens ≡ true
    pub within : le b.tokens b.capacity ≡ true

  -- The tokens after the refill.
  abbrev pub refilled : TokenBucket → ℕ → F64
  refilled b now = min (add b.tokens (mul (as_secs_f64 (now - b.last_refill)) b.rate)) b.capacity

  pub new_bucket-IsBucket :
      (rate_rps now : ℕ) → rate_rps < 2 ^ 32 → IsBucket rate_rps (new_bucket rate_rps now)
  unfolding new_bucket
  new_bucket-IsBucket rate_rps now h = record {
    fits = h;
    rated = refl;
    capped = refl;
    nonnegative = le-from_u32 0 rate_rps (omega arith) h;
    within = le-from_u32 rate_rps rate_rps (omega arith) h;
  }

  -- What flows in is not negative.
  pub inflow :
      (rate_rps now : ℕ) (b : TokenBucket)
      → IsBucket rate_rps b
      → le (from_u32 0) (mul (as_secs_f64 (now - b.last_refill)) b.rate) ≡ true
  inflow rate_rps now b v = rw v.rated (mul_nonnegative (now - b.last_refill) rate_rps v.fits)

  -- A refill takes no tokens away.
  pub le-refilled :
      (rate_rps now : ℕ) (b : TokenBucket)
      → IsBucket rate_rps b
      → le b.tokens (refilled b now) ≡ true
  le-refilled rate_rps now b v =
      le-min _ _ b.tokens (le-add_left _ _ v.nonnegative (inflow rate_rps now b v)) v.within

  refilled-le :
      (rate_rps now : ℕ) (b : TokenBucket)
      → IsBucket rate_rps b
      → le (refilled b now) b.capacity ≡ true
  refilled-le rate_rps now b v =
      min-le_right _ b.capacity (rw v.capped (le-from_u32 rate_rps rate_rps (omega arith) v.fits))

  pub try_consume-IsBucket :
      (rate_rps now : ℕ) (b : TokenBucket)
      → IsBucket rate_rps b
      → IsBucket rate_rps (try_consume b now).0
  unfolding try_consume
  try_consume-IsBucket rate_rps now b v = elim (Bool-cases (le (from_u32 1) (refilled b now))) [
    | inl e ↦
        rw (e, try_consume)
          (record {
            fits = v.fits;
            rated = v.rated;
            capped = v.capped;
            nonnegative = le-sub 0 _ (omega arith) e;
            within = le_trans _ _ _ (sub-le _ e) (refilled-le rate_rps now b v);
          })
    | inr e ↦
        rw (e, try_consume)
          (record {
            fits = v.fits;
            rated = v.rated;
            capped = v.capped;
            nonnegative = le_trans _ _ _ v.nonnegative (le-refilled rate_rps now b v);
            within = refilled-le rate_rps now b v;
          })
  ]
