-- ===== src/Server/Pages/Handlers.antt =====
-- The handlers of the HTML routes that leave items alone.
use multithreaded.Base.{Bool, true, false, Option, none, some, [], ◌++◌, if◌then◌else◌}
use multithreaded.Base.Text.{Str, bytes, insert}
use multithreaded.Database.Users.{verify_user}
use multithreaded.Http.Request.{Utf8Lib}
use multithreaded.Http.Response.{HttpResponse, HttpLib, empty, header, internal_error}
use multithreaded.Http.Response as Response
use multithreaded.Metrics.{Metrics}
use multithreaded.Server.Application.{Platform, Inputs, App, Handler}
use multithreaded.Server.Pages.{
  cookie_token, current_session, user_context, redirect_to, csrf_failed, logout_refused, csrf_field,
}
use multithreaded.Server.Pages.Forms.{PercentLib, two_fields}
use multithreaded.Session.{create, remove}
use multithreaded.Templates.{Context, string, number, TemplateLib, render}

module _ ⦃http : HttpLib⦄ ⦃tera : TemplateLib⦄ (p : Platform) where
  -- GET /ui
  unfoldable pub ui : Handler p
  ui req i m s = (redirect_to (bytes "/ui/index"), s)

  -- GET /ui/index
  unfoldable pub home : Handler p
  home req i m s =
      let (session, s') = current_session p (cookie_token req) i.now s in
      (render (bytes "index.html") (user_context session), s')

  -- GET /ui/login
  unfoldable pub login_page : Handler p
  login_page req i m s = (render (bytes "login.html") [], s)

  -- GET /ui/metrics
  unfoldable pub metrics_context : Metrics → Context → Context
  metrics_context m ctx =
      insert (bytes "connections_rejected_ip") (number m.connections_rejected_ip) (
        insert (bytes "connections_accepted") (number m.connections_accepted) (
          insert (bytes "timed_out") (number m.timed_out) (
            insert (bytes "concurrency_limited") (number m.concurrency_limited) (
              insert (bytes "rate_limited") (number m.rate_limited) (
                insert (bytes "responses_5xx") (number m.responses_5xx) (
                  insert (bytes "responses_4xx") (number m.responses_4xx) (
                    insert (bytes "responses_2xx") (number m.responses_2xx) (
                      insert (bytes "requests_active") (number m.requests_active)
                        (insert (bytes "requests_total") (number m.requests_total) ctx)))))))))

  unfoldable pub metrics_page : Handler p
  metrics_page req i m s =
      let (session, s') = current_session p (cookie_token req) i.now s in
      (render (bytes "metrics.html") (metrics_context m (user_context session)), s')

  -- What the browser is told to keep: for an hour, and with TLS over https only.
  unfoldable pub session_cookie : Str → Bool → Str
  session_cookie token cookie_secure =
      bytes "session="
      ++ (token
          ++ (bytes "; HttpOnly; SameSite=Strict; Path=/; Max-Age=3600"
              ++ (if cookie_secure then bytes "; Secure" else [])))

  -- After the check of the password.
  unfoldable pub logged_in : Bool → Str → Inputs → App p → HttpResponse × App p
  logged_in cookie_secure username i s =
      let (created, t) = create p.sessions i.uuid i.second_uuid username i.now s.sessions in
      (
        elim created [
          | some token ↦ empty (
              header (header (Response.new 302) (bytes "location") (bytes "/ui/items"))
                (bytes "set-cookie") (session_cookie token cookie_secure))
          | none ↦ empty internal_error
        ],
        record s { sessions = t },
      )

  unfoldable pub login_verified : Bool → Str → Option Bool → Inputs → App p → HttpResponse × App p
  unfolding logged_in
  login_verified cookie_secure username none i s = (empty internal_error, s)
  login_verified cookie_secure username (some true) i s = logged_in cookie_secure username i s
  login_verified cookie_secure username (some false) i s = (
    render (bytes "login.html") (
        insert (bytes "flash_type") (string (bytes "error"))
          (insert (bytes "flash") (string (bytes "Invalid username or password.")) [])),
    s,
  )

  -- POST /ui/login
  unfoldable pub login : ⦃utf8 : Utf8Lib⦄ → ⦃percent : PercentLib⦄ → Bool → Handler p
  unfolding login_verified
  login cookie_secure req i m s =
      let (username, password) = two_fields (bytes "username") (bytes "password") req in
      let (verified, t) = verify_user p.argon2 p.users username password s.users in
      login_verified cookie_secure username verified i (record s { users = t })

  -- What the logout does after its check: an error of the removal is logged only.
  unfoldable pub drop_session : Option Str → App p → App p
  drop_session none s = s
  drop_session (some token) s = record s { sessions = (remove p.sessions token s.sessions).1 }

  -- POST /ui/logout
  unfoldable pub logout : ⦃utf8 : Utf8Lib⦄ → Handler p
  unfolding drop_session
  logout req i m s =
      let (session, s') = current_session p (cookie_token req) i.now s in
      if logout_refused session (csrf_field req) then (csrf_failed, s') else (
        empty (
            header (header (Response.new 302) (bytes "location") (bytes "/ui/login"))
              (bytes "set-cookie") (bytes "session=; Max-Age=0; Path=/")),
        drop_session (cookie_token req) s',
      )
