-- ===== src/Server/Interleaving/Used.antt =====
-- A session in use, while other requests run.
use multithreaded.Base.{ℕ, ◌+◌, ◌<◌, ◌≡◌, Bool, some, List}
use multithreaded.Base.Text.{Str}
use multithreaded.Config.{ServerConfig}
use multithreaded.Http.Request.{Utf8Lib}
use multithreaded.Http.Response.{HttpLib}
use multithreaded.Middleware.Auth.{JwtLib}
use multithreaded.Proxy.{ProxyLib}
use multithreaded.Server.Api.{JsonLib}
use multithreaded.Server.Application.{Platform, App}
use multithreaded.Server.Futures.Held.{Held}
use multithreaded.Server.Futures.Held.Handlers.{IsHarmless}
use multithreaded.Server.Futures.Held.Routes.{serve-Keeps}
use multithreaded.Server.Futures.Routes.{serve}
use multithreaded.Server.Interleaving.{Event, interleaved, idle}
use multithreaded.Server.Interleaving.Relying.{interleaved-Relying}
use multithreaded.Server.Interleaving.Steady.{Arrivals}
use multithreaded.Server.Pages.Forms.{PercentLib}
use multithreaded.Session.{Session, session_ttl_secs, live}
use multithreaded.Session.Activity.{IsHeld, live-held}
use multithreaded.Templates.{TemplateLib}

module _ ⦃http : HttpLib⦄ ⦃utf8 : Utf8Lib⦄ ⦃percent : PercentLib⦄ ⦃serde : JsonLib⦄ ⦃jwt : JwtLib⦄
    ⦃tera : TemplateLib⦄ ⦃reqwest : ProxyLib⦄ (p : Platform) {Addr : Type 0}
    (cfg : ServerConfig Addr) (has_templates has_client : Bool) where
  -- From a state in which a token has a session for an hour from `start` at least: whatever requests
  -- are answered within that hour, with their statements in any order and whichever of them fail, if
  -- none is given the token as its UUID, and none with the cookie of the session has its CSRF token
  -- in its form, then the session is still alive at any time in that hour.
  pub interleaved-live :
      (token : Str) (start now : ℕ) (session : Session) (events : List Event) (s : App p)
      → IsHeld (start + session_ttl_secs) session (p.sessions.rows s.sessions token)
      → Arrivals (IsHarmless p token start session) events
      → now < start + session_ttl_secs
      → let s' = (interleaved p (serve p cfg has_templates has_client) events (idle p s)).app in
        live now (p.sessions.rows s'.sessions token) ≡ some session
  interleaved-live token start now session events s held harmless early =
      live-held now (start + session_ttl_secs) session _
        (interleaved-Relying p (Held p token start session) (serve p cfg has_templates has_client)
          (IsHarmless p token start session)
          (λ req i m h. serve-Keeps p token start session cfg has_templates has_client req i m h)
          events (idle p s) harmless tt held)
        early
