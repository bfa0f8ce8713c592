-- ===== src/Middleware/RateLimiter/Eviction.antt =====
-- The table of buckets: one check consumes from the address's own bucket, and a sweep removes only
-- buckets that do as well as new ones.
use multithreaded.Base.{
  ◌∙◌, sym, true, ◌<◌, ◌^◌, ℕ, ◌+◌, ◌-◌, ◌≤◌, ◌≡◌, false, if◌then◌else◌, arith, refl, List, [], ◌∷◌,
  Bool-cases, inl, inr, All, filter, leb, ◌==◌, ==_iff,
}
use multithreaded.Base.Float.{F64Lib}
use multithreaded.Middleware.RateLimiter.{
  TokenBucket, try_consume, new_bucket, nanos, consume_entry, stale_bucket_ttl,
}
use multithreaded.Middleware.RateLimiter.Bucket.{
  IsBucket, inflow, refilled, try_consume-IsBucket, new_bucket-IsBucket,
}

module _ ⦃f64 : F64Lib⦄ where
  open f64 use {
    from_u32, as_secs_f64, add, sub, mul, le, le_trans, le-add_left, le-add_right, mul_second,
    min_right,
  }

  -- The bucket that a check of `ip` at `now` consumes from.
  pub entry : ℕ → ℕ → ℕ → List (ℕ × TokenBucket) → TokenBucket
  entry rate_rps ip now [] = new_bucket rate_rps now
  entry rate_rps ip now ((jp, bucket) ∷ buckets) =
      if jp == ip then bucket else entry rate_rps ip now buckets

  pub entry-nil : (rate_rps ip now : ℕ) → entry rate_rps ip now [] ≡ new_bucket rate_rps now
  unfolding entry
  entry-nil rate_rps ip now = refl

  abbrev pub Absent : ℕ → List (ℕ × TokenBucket) → Type 0
  Absent ip = All (λ b. (b.0 == ip) ≡ false)

  -- Each address has one bucket, and all buckets are of this limiter.
  abbrev pub IsTable : ℕ → List (ℕ × TokenBucket) → Type 0
  IsTable rate_rps [] = Unit {0}
  IsTable rate_rps ((ip, b) ∷ bs) = Absent ip bs × IsBucket rate_rps b × IsTable rate_rps bs

  pub consume_entry-allowed :
      (rate_rps ip now : ℕ) (bs : List (ℕ × TokenBucket))
      → (consume_entry rate_rps ip now bs).1 ≡ (try_consume (entry rate_rps ip now bs) now).1
  unfolding consume_entry entry
  consume_entry-allowed rate_rps ip now [] = refl
  consume_entry-allowed rate_rps ip now ((jp, b) ∷ bs) =
      ground (arith, consume_entry-allowed rate_rps ip now bs)

  -- After a check of `ip`, its bucket is the consumed one, and the others are as before.
  pub entry-consume_entry :
      (rate_rps ip now jp later : ℕ) (bs : List (ℕ × TokenBucket))
      → entry rate_rps jp later (consume_entry rate_rps ip now bs).0 ≡ (
          if ip == jp
          then (try_consume (entry rate_rps ip now bs) now).0
          else entry rate_rps jp later bs)
  unfolding consume_entry entry
  entry-consume_entry rate_rps ip now jp later [] = ground arith
  entry-consume_entry rate_rps ip now jp later ((kp, b) ∷ bs) =
      ground (arith, entry-consume_entry rate_rps ip now jp later bs)

  Absent-consume_entry :
      (rate_rps ip now jp : ℕ) (bs : List (ℕ × TokenBucket))
      → (ip == jp) ≡ false
      → Absent jp bs
      → Absent jp (consume_entry rate_rps ip now bs).0
  unfolding consume_entry
  Absent-consume_entry rate_rps ip now jp [] h k = (h, tt)
  Absent-consume_entry rate_rps ip now jp ((kp, b) ∷ bs) h k =
      ground (arith, Absent-consume_entry rate_rps ip now jp bs h k.1)

  pub consume_entry-IsTable :
      (rate_rps ip now : ℕ) (bs : List (ℕ × TokenBucket))
      → rate_rps < 2 ^ 32
      → IsTable rate_rps bs
      → IsTable rate_rps (consume_entry rate_rps ip now bs).0
  unfolding consume_entry
  consume_entry-IsTable rate_rps ip now [] f t =
      (tt, try_consume-IsBucket rate_rps now _ (new_bucket-IsBucket rate_rps now f), tt)
  consume_entry-IsTable rate_rps ip now ((jp, b) ∷ bs) f (a, v, t) = elim (Bool-cases (jp == ip)) [
    | inl e ↦ rw (e, if◌then◌else◌) (a, try_consume-IsBucket rate_rps now b v, t)
    | inr e ↦
        rw (e, if◌then◌else◌)
          (
            Absent-consume_entry rate_rps ip now jp bs (ground arith) a,
            v,
            consume_entry-IsTable rate_rps ip now bs f t,
          )
  ]

  abbrev pub kept : ℕ → List (ℕ × TokenBucket) → List (ℕ × TokenBucket)
  kept cutoff = filter (λ b. leb cutoff (b.1).last_refill)

  Absent-kept :
      (cutoff ip : ℕ) (bs : List (ℕ × TokenBucket)) → Absent ip bs → Absent ip (kept cutoff bs)
  Absent-kept cutoff ip [] h = tt
  Absent-kept cutoff ip (b ∷ bs) h = ground (arith, Absent-kept cutoff ip bs h.1)

  pub kept-IsTable :
      (rate_rps cutoff : ℕ) (bs : List (ℕ × TokenBucket))
      → IsTable rate_rps bs
      → IsTable rate_rps (kept cutoff bs)
  kept-IsTable rate_rps cutoff [] t = tt
  kept-IsTable rate_rps cutoff ((ip, b) ∷ bs) (a, v, t) =
      ground (arith, kept-IsTable rate_rps cutoff bs t, Absent-kept cutoff ip bs a)

  entry-Absent :
      (rate_rps ip now : ℕ) (bs : List (ℕ × TokenBucket))
      → Absent ip bs
      → entry rate_rps ip now bs ≡ new_bucket rate_rps now
  unfolding entry
  entry-Absent rate_rps ip now [] h = refl
  entry-Absent rate_rps ip now ((jp, b) ∷ bs) h =
      ground (arith, entry-Absent rate_rps ip now bs h.1)

  full :
      (rate_rps : ℕ) (b : TokenBucket) (now : ℕ)
      → b.capacity ≡ from_u32 rate_rps
      → le (from_u32 rate_rps) (add b.tokens (mul (as_secs_f64 (now - b.last_refill)) b.rate))
        ≡ true
      → refilled b now ≡ from_u32 rate_rps
  full rate_rps b now c h = rw c (min_right _ (from_u32 rate_rps) h)

  try_consume-full :
      (rate_rps : ℕ) (b : TokenBucket) (now : ℕ)
      → b.rate ≡ from_u32 rate_rps
      → b.capacity ≡ from_u32 rate_rps
      → refilled b now ≡ from_u32 rate_rps
      → try_consume b now ≡ (
          if le (from_u32 1) (from_u32 rate_rps)
          then (
            record (new_bucket rate_rps now) { tokens = sub (from_u32 rate_rps) (from_u32 1) },
            true,
          )
          else (new_bucket rate_rps now, false))
  unfolding try_consume new_bucket
  try_consume-full rate_rps b now r c f = cc

  -- A bucket that was left alone for a second is full, so a new one does as well.
  try_consume_idle :
      (rate_rps now : ℕ) (b : TokenBucket)
      → IsBucket rate_rps b
      → b.last_refill + nanos ≤ now
      → try_consume b now ≡ try_consume (new_bucket rate_rps now) now
  unfolding new_bucket
  try_consume_idle rate_rps now b v h =
      let new = new_bucket-IsBucket rate_rps now v.fits in
      let grown : le (from_u32 rate_rps) (mul (as_secs_f64 (now - b.last_refill)) b.rate) ≡ true =
        rw v.rated (mul_second (now - b.last_refill) rate_rps v.fits (omega (arith, h))) in
      try_consume-full rate_rps b now v.rated v.capped (
        full rate_rps b now v.capped
          (le_trans _ _ _ grown (le-add_right _ _ v.nonnegative (inflow rate_rps now b v))))
      ∙ sym (
          try_consume-full rate_rps (new_bucket rate_rps now) now new.rated new.capped (
            full rate_rps (new_bucket rate_rps now) now new.capped (
              le-add_left _ _ new.nonnegative (inflow rate_rps now (new_bucket rate_rps now) new))))

  pub try_consume-entry-kept :
      (rate_rps ip now swept : ℕ) (bs : List (ℕ × TokenBucket))
      → IsTable rate_rps bs
      → stale_bucket_ttl ≤ swept
      → swept ≤ now
      → try_consume (entry rate_rps ip now (kept (swept - stale_bucket_ttl) bs)) now
        ≡ try_consume (entry rate_rps ip now bs) now
  unfolding entry
  try_consume-entry-kept rate_rps ip now swept [] t h k = refl
  try_consume-entry-kept rate_rps ip now swept ((jp, b) ∷ bs) (a, v, t) h k = ground (
    arith,
    try_consume-entry-kept rate_rps ip now swept bs t,
    try_consume_idle rate_rps now b v,
    entry-Absent rate_rps ip now (kept (swept - stale_bucket_ttl) bs),
    Absent-kept (swept - stale_bucket_ttl) jp bs a,
    ==_iff jp ip,
  )
