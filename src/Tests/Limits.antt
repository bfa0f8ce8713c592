-- ===== src/Tests/Limits.antt =====
-- src/middleware at concrete times and events.
use multithreaded.Base.{
  ℕ, ◌+◌, ◌*◌, ◌≤◌, ◌≡◌, refl, true, false, none, some, List, [], ◌∷◌, arith, ◌↔◌, ◌-◌, ◌<◌, ◌^◌,
  leb, ◌/◌,
}
use Prim.Native.Nat.{min}
use multithreaded.Base.Float.{F64Lib}
use multithreaded.Http.Response.{HttpLib}
use multithreaded.Middleware.RateLimiter.{TokenBucket, new, check, nanos}
use multithreaded.Middleware.RateLimiter.PerAddress.Background.{Step, tick, checks, run-own_answers}
use multithreaded.Middleware.RateLimiter.PerAddress.Background as Background
use multithreaded.Middleware.RateLimiter.Rate.{serve, serve-burst}
use multithreaded.Middleware.RateLimiter.PerAddress.{Check, answers, own_answers}
use multithreaded.Middleware.Semaphore.{counting}
use multithreaded.Middleware.Concurrency.{Event, arrive, complete, call, run, service_unavailable}
use multithreaded.Middleware.Concurrency as Concurrency
use multithreaded.Middleware.Concurrency.Cap.{run_cap}

instance abbrev lenient : HttpLib
lenient = record { accepts = λ _. true }

pub whole_seconds : (d n : ℕ) → n < 2 ^ 32 → 1_000_000_000 ≤ d → leb n ((d / nanos) * n) ≡ true
whole_seconds d n h k =
    let one : 1 ≤ d / nanos = omega arith in
    let more : 1 * n ≤ (d / nanos) * n = grind arith in ground (arith, more)

-- Numbers without their fractions.
instance abbrev pub whole : F64Lib
whole = record {
  F64 = ℕ;
  from_u32 = λ n. n;
  as_secs_f64 = λ d. d / nanos;
  add = ◌+◌;
  sub = ◌-◌;
  mul = ◌*◌;
  min = min;
  le = leb;
  le_trans = λ a b c h k. ground arith;
  le-from_u32 = λ m n h k. ground arith;
  le-add_left = λ a b h k. ground arith;
  le-add_right = λ a b h k. ground arith;
  mul_nonnegative = λ d n h. ground arith;
  mul_second = whole_seconds;
  min_right = λ a b h. ground arith;
  min-le_right = λ a b h. ground arith;
  le-min = λ a b c h k. ground arith;
  sub-le = λ a h. ground arith;
  le-sub = λ n a h k. ground arith;
}

abbrev at : ℕ → ℕ → Check
at ip now = record { ip = ip; swept = now; now = now }

abbrev calls : List Check
calls = at 1 10 ∷ at 1 20 ∷ at 2 30 ∷ at 1 (500 * nanos) ∷ []

one_per_second : answers (new 1) calls ≡ true ∷ false ∷ true ∷ true ∷ []
unfolding answers check
one_per_second = refl

abbrev steps : List Step
steps =
    Background.request (at 1 10) ∷ tick 15 ∷ Background.request (at 1 20) ∷ tick (400 * nanos) ∷ []

run-own_answers_example : Background.run (new 1) steps ≡ own_answers 1 (λ ip. none) (checks steps)
run-own_answers_example = run-own_answers 1 steps (omega arith) (omega arith)

abbrev bucket : TokenBucket
bucket = record { tokens = 2; capacity = 2; last_refill = 0; rate = 2 }

serve-burst_example : (serve bucket (7 ∷ 9 ∷ [])).1 ≡ 2
serve-burst_example =
    serve-burst 2 bucket (7 ∷ 9 ∷ [])
      (record {
        fits = omega arith;
        rated = refl;
        capped = refl;
        nonnegative = refl;
        within = refl;
      })
      (omega arith) refl

abbrev events : List Event
events = arrive ∷ arrive ∷ arrive ∷ complete ∷ arrive ∷ []

two : 2 ≤ counting.max_permits
unfolding counting
two = omega arith

run_cap_example :
    ((run counting (Concurrency.new counting 2) events).running ≤ 2)
    × (((call counting (run counting (Concurrency.new counting 2) events)).1
          ≡ some service_unavailable)
        ↔ ((run counting (Concurrency.new counting 2) events).running ≡ 2))
run_cap_example = run_cap counting 2 events two
