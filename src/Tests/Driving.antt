-- ===== src/Tests/Driving.antt =====
-- The services and the loop of a connection, and the proxy, at concrete inputs.
use multithreaded.Base.{ℕ, ◌+◌, ◌≡◌, refl, true, false, none, some, List, [], ◌∷◌}
use multithreaded.Base.Text.{bytes}
use multithreaded.Http.Request.{HttpRequest}
use multithreaded.Http.Response.{HttpLib, text, ok}
use multithreaded.Http.Response.Laws.{extra_values}
use multithreaded.Middleware.Logging.{HeaderValueLib}
use multithreaded.Middleware.RateLimiter as RateLimiter
use multithreaded.Middleware.RateLimiter.PerAddress.{Check}
use multithreaded.Middleware.Semaphore.{counting}
use multithreaded.Middleware.Service.{Service}
use multithreaded.Proxy.{ProxyLib, UpstreamResponse, upstream_request, proxy_request}
use multithreaded.Proxy.Relayed.{forwarded_values, Relays, proxy_request-Relays}
use multithreaded.Server.Driving.{cleanly, Ready, polled, closed, start, run}
use multithreaded.Server.Driving.Ended.{Ends, run-Ends}
use multithreaded.Server.Stack.{tower_stack}
use multithreaded.Tests.Limits.{whole}
use multithreaded.Server.Stack.Traced.{fresh, Answered, tower_stack-Answered}

instance abbrev lenient : HttpLib
lenient = record { accepts = λ _. true }

instance abbrev any_value : HeaderValueLib
any_value = record { is_value = λ s. true }

-- The shutdown comes before the timer goes off, the end of the connection after it.
abbrev rounds : List Ready
rounds =
    polled none none false
    ∷ polled none (some true) false
    ∷ polled none (some true) true
    ∷ polled (some cleanly) none true
    ∷ []

drained : run start rounds ≡ record { drive = closed cleanly; shutdowns = 1 }
unfolding run start
drained = refl

run-Ends_example : Ends rounds (run start rounds).drive (run start rounds).shutdowns
run-Ends_example = run-Ends rounds

abbrev counter : Service ℕ
counter req calls = (text ok req.body, calls + 1)

abbrev request : HttpRequest
request = record {
  method = bytes "POST";
  path = bytes "/api/orders";
  query = none;
  headers = λ name. none;
  entries =
      (bytes "host", bytes "a") ∷ (bytes "te", bytes "gzip") ∷ (bytes "accept", bytes "*") ∷ [];
  body = bytes "hi";
  path_params = [];
}

abbrev at : Check
at = record { ip = 1; swept = 10; now = 10 }

tower_stack-Answered_example :
    let (r, (limiter', (semaphore', s'))) =
      tower_stack counting
        (bytes "u")
        at
        counter
        request
        (RateLimiter.new 1, (counting.with_permits 2, 0)) in
    Answered counting at counter
      (bytes "u")
      request
      (RateLimiter.new 1)
      (counting.with_permits 2)
      0
      r
      limiter'
      semaphore'
      s'
tower_stack-Answered_example =
    tower_stack-Answered counting (bytes "u") at counter request (RateLimiter.new 1)
      (counting.with_permits 2) 0 (bytes "u") (fresh refl refl) refl

abbrev upstream_answer : UpstreamResponse
upstream_answer = record {
  status = 200;
  headers = (bytes "connection", bytes "close") ∷ (bytes "etag", bytes "1") ∷ [];
  body = some (bytes "hi");
}

instance abbrev reqwest : ProxyLib
reqwest = record { is_method = λ m. true; send = λ r. some upstream_answer }

proxy_request-Relays_example :
    let sent = upstream_request request (bytes "http://up/") (some (bytes "/api")) in
    (sent.method ≡ request.method)
    × (sent.body ≡ request.body)
    × ((name : _) → extra_values name sent.headers ≡ forwarded_values name request.entries)
    × Relays
        (reqwest.send sent)
        (reqwest.is_method request.method)
        (proxy_request request (bytes "http://up/") (some (bytes "/api")))
proxy_request-Relays_example =
    proxy_request-Relays request (bytes "http://up/") (some (bytes "/api"))
