-- ===== src/Server/Routes/Public.antt =====
-- The handlers outside `/ui` and `/api`.

use multithreaded.Base.{ℕ, Bool, true, false, Option, none, some, ◌++◌}
use multithreaded.Base.Text.{Str, bytes}
use multithreaded.Base.Decimal.{to_string, parse}
use multithreaded.Config.{max_u64}
use multithreaded.Database.Users.{verify_user}
use multithreaded.Http.Request.{path_param}
use multithreaded.Http.Response.{
  HttpResponse, HttpLib, text, empty, json, header, ok, internal_error,
}
use multithreaded.Metrics.{Metrics}
use multithreaded.Metrics as Metrics
use multithreaded.Middleware.Auth.{JwtLib, create_token}
use multithreaded.Proxy.{ProxyLib, proxy_request}
use multithreaded.Server.Api.{JsonLib, error_response, or_empty}
use multithreaded.Server.Application.{Platform, Handler}
use multithreaded.Server.Fibonacci.{fib, capped}
use multithreaded.Server.Pages.{redirect_to}
use multithreaded.Server.Task.{TaskResult, done, task_failed, joined, run_blocking}
use multithreaded.StaticFiles.{serve_file}

-- `path_param("n").and_then(|v| v.parse().ok()).unwrap_or(10)`
unfoldable pub requested : Option Str → ℕ
requested none = 10
requested (some v) = elim (parse max_u64 v) [ none ↦ 10 | some n ↦ n ]

module _ ⦃http : HttpLib⦄ where
  unfoldable pub fib_answer : TaskResult ℕ → HttpResponse
  fib_answer (done result) = text ok (to_string result ++ bytes "\n")
  fib_answer (task_failed e) = empty internal_error

module _ ⦃http : HttpLib⦄ (p : Platform) where
  -- GET /
  unfoldable pub root : Handler p
  root req i m s = (redirect_to (bytes "/ui/index"), s)

  -- GET /health
  unfoldable pub health : Handler p
  health req i m s = (text ok (bytes "ok\n"), s)

  -- GET /echo/:message
  unfoldable pub echo : Handler p
  echo req i m s = (text ok (or_empty (path_param req (bytes "message")) ++ bytes "\n"), s)

  -- GET /fib/:n
  unfoldable pub fib_route : Handler p
  unfolding requested
  fib_route req i m s =
      let n = capped (requested (path_param req (bytes "n"))) in
      (fib_answer (run_blocking (joined i.blocking (fib n))), s)

  -- GET /static/*filepath
  unfoldable pub static_file : Str → Handler p
  static_file base req i m s =
      (serve_file i.files base (or_empty (path_param req (bytes "filepath"))), s)

  -- GET /metrics
  unfoldable pub metrics_text : Handler p
  metrics_text req i m s = (
    text (header ok (bytes "content-type") (bytes "text/plain; version=0.0.4; charset=utf-8"))
        (Metrics.render m),
    s,
  )

  -- `/*path`, the reverse proxy.
  unfoldable pub proxied : ⦃proxy : ProxyLib⦄ → Str → Option Str → Handler p
  proxied upstream prefix req i m s = (proxy_request req upstream prefix, s)

  module _ ⦃jwt : JwtLib⦄ ⦃serde : JsonLib⦄ where
    unfoldable pub token_answer : Str → ℕ → Option Bool → HttpResponse
    token_answer username now none = empty internal_error
    token_answer username now (some false) = error_response 401 (bytes "invalid credentials")
    token_answer username now (some true) = elim (create_token username now) [
      | some token ↦ json ok (serde.token_text token)
      | none ↦ empty internal_error
    ]

    -- POST /auth/token
    unfoldable pub auth_token : Handler p
    unfolding token_answer
    auth_token req i m s = elim (serde.parse_login req.body) [
      | none ↦ (error_response 400 (bytes "invalid JSON body"), s)
      | some (username, password) ↦
          let (verified, t) = verify_user p.argon2 p.users username password s.users in
          (token_answer username i.now verified, record s { users = t })
    ]
