-- ===== src/Middleware/RateLimiter/Service.antt =====
-- `RateLimiterService::call`, run to its end with the service behind it.
use multithreaded.Base.{if◌then◌else◌}
use multithreaded.Base.Float.{F64Lib}
use multithreaded.Base.Text.{bytes}
use multithreaded.Http.Response.{HttpResponse, HttpLib, header, text}
use multithreaded.Http.Response as Response
use multithreaded.Middleware.Service.{Service}
use multithreaded.Middleware.RateLimiter.{RateLimiter, check}
use multithreaded.Middleware.RateLimiter.PerAddress.{Check}

module _ ⦃http : HttpLib⦄ where
  unfoldable pub too_many_requests : HttpResponse
  too_many_requests =
      text (header (Response.new 429) (bytes "retry-after") (bytes "1"))
        (bytes "429 Too Many Requests\n")

module _ ⦃http : HttpLib⦄ ⦃f64 : F64Lib⦄ {S : Type 0} where
  -- The address is the connection's, the times are those at which `check` reads the clock.
  unfoldable pub call : Check → Service S → Service (RateLimiter × S)
  call c inner req (limiter, s) =
      let (limiter', allowed) = check limiter c.ip c.swept c.now in
      let (response, s') = inner req s in
      if allowed then (response, (limiter', s')) else (too_many_requests, (limiter', s))
