-- ===== src/Middleware/Concurrency/Service.antt =====
-- `ConcurrencyLimiterService::call`, run to its end with the service behind it: the permit is held
-- until then.
use multithreaded.Base.{none, some}
use multithreaded.Http.Response.{HttpLib}
use multithreaded.Middleware.Semaphore.{SemaphoreLib}
use multithreaded.Middleware.Service.{Service}
use multithreaded.Middleware.Concurrency.{service_unavailable}

module _ ⦃http : HttpLib⦄ (lib : SemaphoreLib) {S : Type 0} where
  open lib use {Semaphore, try_acquire_owned, drop_permit}

  unfoldable pub call : Service S → Service (Semaphore × S)
  call inner req (semaphore, s) = elim (try_acquire_owned semaphore) [
    | some held ↦ let (response, s') = inner req s in (response, (drop_permit held, s'))
    | none ↦ (service_unavailable, (semaphore, s))
  ]
