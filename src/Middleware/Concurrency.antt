-- ===== src/Middleware/Concurrency.antt =====
-- src/middleware/concurrency.rs. Requests arrive and complete in any order: a run is the list of
-- these events, which the futures of all connections share one semaphore through.
pub mod Cap
pub mod Service
use multithreaded.Base.{
  ℕ, zero, suc, ◌+◌, ◌≡◌, refl, Bool, true, false, arith, Option, none, some, List, [], ◌∷◌,
}
use multithreaded.Base.Text.{bytes}
use multithreaded.Http.Response.{HttpResponse, HttpLib, header, text}
use multithreaded.Http.Response as Response
use multithreaded.Middleware.Semaphore.{SemaphoreLib}

-- The future of a request completes when it returns, fails or is dropped: its permit is dropped.
pub data Event : Type 0 where
  arrive complete : Event

module _ ⦃http : HttpLib⦄ where
  unfoldable pub service_unavailable : HttpResponse
  service_unavailable =
      text (header (Response.new 503) (bytes "retry-after") (bytes "1"))
        (bytes "503 Service Unavailable\n")

module _ (lib : SemaphoreLib) where
  open lib use {Semaphore, with_permits}

  -- The semaphore, and how many futures hold a permit.
  pub record Limiter : Type 0 where
    pub semaphore : Semaphore
    pub running : ℕ

  unfoldable pub new : ℕ → Limiter
  new cap = record { semaphore = with_permits cap; running = 0 }

module _ ⦃http : HttpLib⦄ (lib : SemaphoreLib) where
  open lib use {try_acquire_owned, drop_permit}

  -- `call`: with a permit the request goes on to the inner service, and there is no answer yet.
  unfoldable pub call : Limiter lib → Limiter lib × Option HttpResponse
  call limiter = elim (try_acquire_owned limiter.semaphore) [
    | some semaphore ↦ (record { semaphore = semaphore; running = suc limiter.running }, none)
    | none ↦ (limiter, some service_unavailable)
  ]

  finish_one : Limiter lib → ℕ → Limiter lib
  finish_one limiter zero = limiter
  finish_one limiter (suc running) = record {
    semaphore = drop_permit limiter.semaphore;
    running = running;
  }

  unfoldable pub step : Limiter lib → Event → Limiter lib
  unfolding call finish_one
  step limiter arrive = (call limiter).0
  step limiter complete = finish_one limiter limiter.running

  unfoldable pub run : Limiter lib → List Event → Limiter lib
  unfolding step
  run limiter [] = limiter
  run limiter (e ∷ es) = run (step limiter e) es
