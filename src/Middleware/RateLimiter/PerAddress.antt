-- ===== src/Middleware/RateLimiter/PerAddress.antt =====
-- The limiter against its specification: one bucket for each address, none ever thrown away.
pub mod Background
use multithreaded.Base.{
  subst, ◌<◌, ℕ, ◌+◌, ◌-◌, ◌%◌, ◌^◌, ◌≤◌, ◌≡◌, Bool, ◌&&◌, if◌then◌else◌, arith, refl, List, [],
  ◌∷◌, Bool-cases, inl, inr, ltb, ◌==◌, sym, ap, ◌∙◌, Option, none, some,
}
use multithreaded.Base.Float.{F64Lib}
use multithreaded.Middleware.RateLimiter.{
  TokenBucket, try_consume, new_bucket, RateLimiter, new, consume_entry, check, stale_bucket_ttl,
  evict_every_n_checks,
}
use multithreaded.Middleware.RateLimiter.Eviction.{
  entry, consume_entry-allowed, entry-consume_entry, consume_entry-IsTable, kept, kept-IsTable,
  try_consume-entry-kept, IsTable, entry-nil,
}

-- A call of `check`: the address, the time of the sweep and the time of the consumption.
pub record Check : Type 0 where
  pub ip : ℕ
  pub swept : ℕ
  pub now : ℕ

-- The clock does not run backwards.
abbrev pub InOrder : ℕ → List Check → Type 0
InOrder t [] = Unit {0}
InOrder t (c ∷ cs) = (t ≤ c.swept) × (c.swept ≤ c.now) × InOrder c.now cs

module _ ⦃f64 : F64Lib⦄ where
  -- The specification: the bucket of each address that has been seen.
  abbrev pub Own : Type 0
  Own = ℕ → Option TokenBucket

  abbrev pub own_bucket : ℕ → Option TokenBucket → ℕ → TokenBucket
  own_bucket rate_rps none now = new_bucket rate_rps now
  own_bucket rate_rps (some bucket) now = bucket

  pub own_check : ℕ → Own → ℕ → ℕ → Own × Bool
  own_check rate_rps own ip now =
      let (bucket, allowed) = try_consume (own_bucket rate_rps (own ip) now) now in
      ((λ jp. if ip == jp then some bucket else own jp), allowed)

  unfoldable pub answers : RateLimiter → List Check → List Bool
  answers limiter [] = []
  answers limiter (c ∷ cs) =
      let (limiter', allowed) = check limiter c.ip c.swept c.now in allowed ∷ answers limiter' cs

  pub own_answers : ℕ → Own → List Check → List Bool
  own_answers rate_rps own [] = []
  own_answers rate_rps own (c ∷ cs) =
      let (own', allowed) = own_check rate_rps own c.ip c.now in
      allowed ∷ own_answers rate_rps own' cs

  -- From `t` on no check can tell the table from the specification.
  record Agrees (rate_rps t : ℕ) (bs : List (ℕ × TokenBucket)) (own : Own) : Type 0 where
    fits : rate_rps < 2 ^ 32
    table : IsTable rate_rps bs
    same :
        (ip now : ℕ)
        → t ≤ now
        → try_consume (entry rate_rps ip now bs) now
          ≡ try_consume (own_bucket rate_rps (own ip) now) now

  module _ (rate_rps : ℕ) where
    Agrees-later :
        (t u : ℕ) (bs : List (ℕ × TokenBucket)) (own : Own)
        → t ≤ u
        → Agrees rate_rps t bs own
        → Agrees rate_rps u bs own
    Agrees-later t u bs own h a = record {
      fits = a.fits;
      table = a.table;
      same = λ ip now k. a.same ip now (omega arith);
    }

    Agrees-kept :
        (swept : ℕ) (bs : List (ℕ × TokenBucket)) (own : Own)
        → stale_bucket_ttl ≤ swept
        → Agrees rate_rps swept bs own
        → Agrees rate_rps swept (kept (swept - stale_bucket_ttl) bs) own
    Agrees-kept swept bs own h a = record {
      fits = a.fits;
      table = kept-IsTable rate_rps _ bs a.table;
      same =
          λ ip now k. try_consume-entry-kept rate_rps ip now swept bs a.table h k ∙ a.same ip now k;
    }

    Agrees-consume :
        (ip now : ℕ) (bs : List (ℕ × TokenBucket)) (own : Own)
        → Agrees rate_rps now bs own
        → Agrees rate_rps now (consume_entry rate_rps ip now bs).0 (own_check rate_rps own ip now).0
          × ((consume_entry rate_rps ip now bs).1 ≡ (own_check rate_rps own ip now).1)
    unfolding own_check
    Agrees-consume ip now bs own a = (
      record {
        fits = a.fits;
        table = consume_entry-IsTable rate_rps ip now bs a.fits a.table;
        same = λ jp later k. elim (Bool-cases (ip == jp)) [
          | inl e ↦
              rw (entry-consume_entry rate_rps ip now jp later bs, e, own_bucket)
                (ap (λ r. try_consume r.0 later) (a.same ip now (omega arith)))
          | inr e ↦
              rw (entry-consume_entry rate_rps ip now jp later bs, e, own_bucket)
                (a.same jp later k)
        ];
      },
      consume_entry-allowed rate_rps ip now bs ∙ ap (λ r. r.1) (a.same ip now (omega arith)),
    )

  record Follows (limiter' : RateLimiter) (rate_rps now : ℕ) (own' : Own) : Type 0 where
    rated : limiter'.rate_rps ≡ rate_rps
    agrees : Agrees rate_rps now limiter'.buckets own'

  Follows-consume :
      (limiter : RateLimiter) (ip swept now : ℕ) (own : Own)
      → swept ≤ now
      → Agrees limiter.rate_rps swept limiter.buckets own
      → Follows
          (record limiter { buckets = (consume_entry limiter.rate_rps ip now limiter.buckets).0 })
          limiter.rate_rps
          now
          (own_check limiter.rate_rps own ip now).0
        × ((consume_entry limiter.rate_rps ip now limiter.buckets).1
            ≡ (own_check limiter.rate_rps own ip now).1)
  Follows-consume limiter ip swept now own h a =
      let (b, e) =
        Agrees-consume limiter.rate_rps ip now limiter.buckets own
          (Agrees-later limiter.rate_rps swept now limiter.buckets own h a) in
      (record { rated = refl; agrees = b }, e)

  check-Follows :
      (limiter : RateLimiter) (ip swept now : ℕ) (own : Own)
      → swept ≤ now
      → Agrees limiter.rate_rps swept limiter.buckets own
      → Follows
          (check limiter ip swept now).0
          limiter.rate_rps
          now
          (own_check limiter.rate_rps own ip now).0
        × ((check limiter ip swept now).1 ≡ (own_check limiter.rate_rps own ip now).1)
  unfolding check
  check-Follows limiter ip swept now own h a =
      elim (Bool-cases
        (ltb 0 limiter.check_count && limiter.check_count % evict_every_n_checks == 0)) [
          | inr e ↦ rw (e, check) (Follows-consume counted ip swept now own h a)
          | inl e ↦ elim (Bool-cases (ltb swept stale_bucket_ttl)) [
            | inl k ↦ rw (e, k, check) (Follows-consume counted ip swept now own h a)
            | inr k ↦
                rw (e, k, check)
                  (Follows-consume
                    (record counted { buckets = kept (swept - stale_bucket_ttl) limiter.buckets })
                    ip swept now own h
                    (Agrees-kept limiter.rate_rps swept limiter.buckets own (ground arith) a))
          ]
        ]
    where
      counted : RateLimiter
      counted = record limiter { check_count = (limiter.check_count + 1) % 2 ^ 64 }

  check_step :
      (limiter : RateLimiter) (rate_rps ip swept now : ℕ) (own : Own)
      → swept ≤ now
      → Follows limiter rate_rps swept own
      → Follows (check limiter ip swept now).0 rate_rps now (own_check rate_rps own ip now).0
        × ((check limiter ip swept now).1 ≡ (own_check rate_rps own ip now).1)
  check_step limiter rate_rps ip swept now own h f =
      subst
        (λ r.
          Follows (check limiter ip swept now).0 r now (own_check r own ip now).0
          × ((check limiter ip swept now).1 ≡ (own_check r own ip now).1))
        f.rated
        (check-Follows limiter ip swept now own h
          (subst (λ r. Agrees r swept limiter.buckets own) (sym f.rated) f.agrees))

  answers-follow :
      (limiter : RateLimiter) (rate_rps t : ℕ) (own : Own) (cs : List Check)
      → Follows limiter rate_rps t own
      → InOrder t cs
      → answers limiter cs ≡ own_answers rate_rps own cs
  unfolding answers own_answers
  answers-follow limiter rate_rps t own [] f o = refl
  answers-follow limiter rate_rps t own (c ∷ cs) f (h, k, o) =
      let later : Follows limiter rate_rps c.swept own = record {
        rated = f.rated;
        agrees = Agrees-later rate_rps t c.swept limiter.buckets own h f.agrees;
      } in
      let (g, e) = check_step limiter rate_rps c.ip c.swept c.now own k later in
      cc (
        e,
        answers-follow (check limiter c.ip c.swept c.now).0 rate_rps c.now
            (own_check rate_rps own c.ip c.now).0 cs g o,
      )

  -- An empty table agrees with no bucket at all.
  start-Follows :
      (rate_rps : ℕ) → rate_rps < 2 ^ 32 → Follows (new rate_rps) rate_rps 0 (λ ip. none)
  start-Follows rate_rps fits = record {
    rated = refl;
    agrees = record { fits = fits; table = tt; same = nothing };
  }
    where
      nothing :
          (ip now : ℕ)
          → 0 ≤ now
          → try_consume (entry rate_rps ip now []) now ≡ try_consume (new_bucket rate_rps now) now
      nothing ip now h = ap (λ b. try_consume b now) (entry-nil rate_rps ip now)

  -- Whatever the calls of `check` after the start of a limiter with a u32 for its rate, at times that do not fall: each is answered as by a
  -- limiter that gives each address a bucket of its own and never throws one away. The sweeps of
  -- stale buckets are invisible, and no address is charged for another.
  pub answers-own_answers :
      (rate_rps : ℕ) (cs : List Check)
      → rate_rps < 2 ^ 32
      → InOrder 0 cs
      → answers (new rate_rps) cs ≡ own_answers rate_rps (λ ip. none) cs
  answers-own_answers rate_rps cs h o =
      answers-follow (new rate_rps) rate_rps 0 (λ ip. none) cs (start-Follows rate_rps h) o
