-- ===== src/Middleware/Service.antt =====
-- tower's `Service` as this program uses it: a request, a shared state, a response.
use multithreaded.Http.Request.{HttpRequest}
use multithreaded.Http.Response.{HttpResponse}

-- Running the future that `call` returns to its end, over a state `S`.
abbrev pub Service : Type 0 → Type 0
Service S = HttpRequest → S → HttpResponse × S
