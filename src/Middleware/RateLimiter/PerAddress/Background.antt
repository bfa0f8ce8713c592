-- ===== src/Middleware/RateLimiter/PerAddress/Background.antt =====
-- `start_eviction_task`: the task sweeps between the checks.
use multithreaded.Base.{
  ℕ, ◌≤◌, ◌<◌, ◌^◌, ◌≡◌, refl, Bool, List, [], ◌∷◌, ltb, Bool-cases, inl, inr, arith, none,
}
use multithreaded.Base.Float.{F64Lib}
use multithreaded.Middleware.RateLimiter.{RateLimiter, new, check, evict_stale, stale_bucket_ttl}
use multithreaded.Middleware.RateLimiter.PerAddress.{
  Check, Own, own_check, own_answers, Agrees-later, Agrees-kept, Follows, check_step, start-Follows,
}

-- A check by a request, or a tick of the task at a time.
pub data Step : Type 0 where
  request : Check → Step
  tick : ℕ → Step

abbrev pub checks : List Step → List Check
checks [] = []
checks (request c ∷ steps) = c ∷ checks steps
checks (tick now ∷ steps) = checks steps

-- The times do not fall, from `t` on.
abbrev pub InOrder : ℕ → List Step → Type 0
InOrder t [] = Unit
InOrder t (request c ∷ steps) = (t ≤ c.swept) × (c.swept ≤ c.now) × InOrder c.now steps
InOrder t (tick now ∷ steps) = (t ≤ now) × InOrder now steps

module _ ⦃f64 : F64Lib⦄ where
  -- The answers of the checks.
  unfoldable pub run : RateLimiter → List Step → List Bool
  run limiter [] = []
  run limiter (request c ∷ steps) =
      let (limiter', allowed) = check limiter c.ip c.swept c.now in allowed ∷ run limiter' steps
  run limiter (tick now ∷ steps) = run (evict_stale limiter now) steps

  evict_stale-Follows :
      (limiter : RateLimiter) (rate_rps now : ℕ) (own : Own)
      → Follows limiter rate_rps now own
      → Follows (evict_stale limiter now) rate_rps now own
  unfolding evict_stale
  evict_stale-Follows limiter rate_rps now own f = elim (Bool-cases (ltb now stale_bucket_ttl)) [
    | inl k ↦ rw (k, evict_stale) f
    | inr k ↦
        rw (k, evict_stale)
          (record {
            rated = f.rated;
            agrees = Agrees-kept rate_rps now limiter.buckets own (ground arith) f.agrees;
          })
  ]

  run-follow :
      (limiter : RateLimiter) (rate_rps t : ℕ) (own : Own) (steps : List Step)
      → Follows limiter rate_rps t own
      → InOrder t steps
      → run limiter steps ≡ own_answers rate_rps own (checks steps)
  unfolding run own_answers
  run-follow limiter rate_rps t own [] f o = refl
  run-follow limiter rate_rps t own (tick now ∷ steps) f (h, o) =
      let later : Follows limiter rate_rps now own = record {
        rated = f.rated;
        agrees = Agrees-later rate_rps t now limiter.buckets own h f.agrees;
      } in
      run-follow (evict_stale limiter now) rate_rps now own steps
        (evict_stale-Follows limiter rate_rps now own later) o
  run-follow limiter rate_rps t own (request c ∷ steps) f (h, k, o) =
      let later : Follows limiter rate_rps c.swept own = record {
        rated = f.rated;
        agrees = Agrees-later rate_rps t c.swept limiter.buckets own h f.agrees;
      } in
      let (g, e) = check_step limiter rate_rps c.ip c.swept c.now own k later in
      cc (
        e,
        run-follow (check limiter c.ip c.swept c.now).0 rate_rps c.now
            (own_check rate_rps own c.ip c.now).0 steps g o,
      )

  -- In a limiter with a u32 for its rate, the ticks of the task, wherever they fall between the
  -- checks, are invisible: at times that do
  -- not fall, each check is answered as by a limiter that gives each address a bucket of its own and
  -- never throws one away.
  pub run-own_answers :
      (rate_rps : ℕ) (steps : List Step)
      → rate_rps < 2 ^ 32
      → InOrder 0 steps
      → run (new rate_rps) steps ≡ own_answers rate_rps (λ ip. none) (checks steps)
  run-own_answers rate_rps steps h o =
      run-follow (new rate_rps) rate_rps 0 (λ ip. none) steps (start-Follows rate_rps h) o
