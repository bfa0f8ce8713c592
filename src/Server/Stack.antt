-- ===== src/Server/Stack.antt =====
-- src/server/connection.rs: the services that `handle_connection` composes for a connection.
pub mod Traced
use multithreaded.Base.Float.{F64Lib}
use multithreaded.Base.Text.{Str}
use multithreaded.Http.Response.{HttpLib}
use multithreaded.Middleware.Concurrency.Service as Concurrency
use multithreaded.Middleware.Logging.{HeaderValueLib}
use multithreaded.Middleware.Logging as Logging
use multithreaded.Middleware.RateLimiter.{RateLimiter}
use multithreaded.Middleware.RateLimiter.PerAddress.{Check}
use multithreaded.Middleware.RateLimiter.Service as RateLimiter
use multithreaded.Middleware.Semaphore.{SemaphoreLib}
use multithreaded.Middleware.Service.{Service}

-- LoggingService → RateLimiterService → ConcurrencyLimiterService → inner, for one request: its
-- fresh UUID, and the connection's address with the times at which the limiter reads the clock.
module _ ⦃http : HttpLib⦄ ⦃values : HeaderValueLib⦄ ⦃f64 : F64Lib⦄ (lib : SemaphoreLib)
    {S : Type 0} where
  unfoldable pub tower_stack : Str → Check → Service S → Service (RateLimiter × (lib.Semaphore × S))
  tower_stack uuid c inner = Logging.call uuid (RateLimiter.call c (Concurrency.call lib inner))
