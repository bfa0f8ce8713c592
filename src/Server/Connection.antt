-- ===== src/Server/Connection.antt =====
-- src/server/connection.rs: the innermost service of a connection, which collects the body,
-- enforces its limit, dispatches under a timeout and keeps the counters.
pub mod Effect
pub mod Accounting
use multithreaded.Base.{
  ℕ, ◌-◌, ◌^◌, Bool, true, false, Option, none, some, List, [], if◌then◌else◌, ltb, length,
}
use multithreaded.Base.Text.{Str, bytes}
use multithreaded.Base.Decimal.{parse}
use multithreaded.Http.Request.{HttpRequest, from_parts}
use multithreaded.Http.Response.{HttpResponse, HttpLib, text, empty, bad_request}
use multithreaded.Http.Response as Response
use multithreaded.Metrics.{Metrics, up, down}

abbrev pub usize_max : ℕ
usize_max = 2 ^ 64 - 1

-- The value of `content-length`, where it is text and parses.
unfoldable pub declared_length : HttpRequest → Option ℕ
declared_length req = elim (req.headers (bytes "content-length")) [
  | none ↦ none
  | some value ↦ parse usize_max value
]

unfoldable pub exceeds : Option ℕ → ℕ → Bool
exceeds none max_body = false
exceeds (some n) max_body = ltb max_body n

abbrev pub entered : Metrics → Metrics
entered m = record m {
  requests_total = up m.requests_total;
  requests_active = up m.requests_active;
}

-- The status class, then the gauge.
unfoldable pub counted : ℕ → Metrics → Metrics
counted status m =
    if ltb status 300
    then record m { responses_2xx = up m.responses_2xx; requests_active = down m.requests_active }
    else if ltb status 500
    then record m { responses_4xx = up m.responses_4xx; requests_active = down m.requests_active }
    else record m { responses_5xx = up m.responses_5xx; requests_active = down m.requests_active }

module _ ⦃http : HttpLib⦄ where
  unfoldable pub payload_too_large : HttpResponse
  payload_too_large = text (Response.new 413) (bytes "413 Payload Too Large\n")

  unfoldable pub processing_timeout : HttpResponse
  processing_timeout =
      text (Response.new 503) (bytes "503 Service Unavailable: processing timeout\n")

  -- The end of the service: `none` is an elapsed timeout.
  unfoldable pub respond : Option HttpResponse → Metrics → HttpResponse × Metrics
  unfolding counted
  respond (some response) m = (response, counted response.status m)
  respond none m = (
    processing_timeout,
    counted processing_timeout.status (record m { timed_out = up m.timed_out }),
  )

-- The router's dispatch under the timeout, over the rest `S` of the shared state. The handlers
-- read the counters and do not write them.
abbrev pub Timed : Type 0 → Type 0
Timed S = HttpRequest → Metrics → S → Option HttpResponse × S

module _ ⦃http : HttpLib⦄ {S : Type 0} (max_body : ℕ) (dispatch : Timed S) where
  -- After the body: `none` is an error while collecting it.
  unfoldable pub collected : Option Str → HttpRequest → Metrics → S → HttpResponse × Metrics × S
  collected none req m s = (empty bad_request, m, s)
  collected (some body) req m s =
      let (answer, s') = dispatch (from_parts req body) m s in
      let (response, m') = respond answer m in
      if ltb max_body (length body) then (payload_too_large, m, s) else (response, m', s')

  -- The service on a request whose body, once collected, is `body`.
  unfoldable pub inner : Option Str → HttpRequest → Metrics → S → HttpResponse × Metrics × S
  unfolding collected
  inner body req m s =
      if exceeds (declared_length req) max_body
      then (payload_too_large, entered m, s)
      else collected body req (entered m) s
