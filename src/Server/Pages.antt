-- ===== src/Server/Pages.antt =====
-- src/server/connection.rs: the HTML routes under `/ui`.
pub mod Forms
pub mod Handlers
pub mod Items
pub mod Guarded
pub mod Kept
pub mod Admitted
pub mod Login
use multithreaded.Base.{ℕ, Bool, true, false, Option, none, some, List, [], ◌∷◌, if◌then◌else◌}
use multithreaded.Base.Text.{Str, bytes, str_eq, insert}
use multithreaded.Http.Request.{HttpRequest, Utf8Lib, form_param}
use multithreaded.Http.Response.{HttpResponse, HttpLib, text, empty, header}
use multithreaded.Http.Response as Response
use multithreaded.Server.Api.{or_empty}
use multithreaded.Server.Application.{Platform, App}
use multithreaded.Session.{Session, get, extract_session_cookie}
use multithreaded.Templates.{Context, string}

-- The cookie of a request.
unfoldable pub cookie_token : HttpRequest → Option Str
unfolding extract_session_cookie
cookie_token req = extract_session_cookie (req.headers (bytes "cookie"))

-- `.ok().flatten()`
abbrev pub flatten : Option (Option Session) → Option Session
flatten none = none
flatten (some session) = session

-- The session of a cookie at the time `now`: none without a cookie, or where the lookup fails.
unfoldable pub current_session : (p : Platform) → Option Str → ℕ → App p → Option Session × App p
current_session p none now s = (none, s)
current_session p (some token) now s =
    let (found, t) = get p.sessions token now s.sessions in
    (flatten found, record s { sessions = t })

-- The context with the user of the session, if there is one.
unfoldable pub user_context : Option Session → Context
user_context none = []
user_context (some session) =
    insert (bytes "csrf_token") (string session.csrf_token)
      (insert (bytes "session_user") (string session.username) [])

module _ ⦃http : HttpLib⦄ where
  unfoldable pub redirect_to : Str → HttpResponse
  redirect_to path = empty (header (Response.new 302) (bytes "location") path)

  unfoldable pub csrf_failed : HttpResponse
  csrf_failed = text (Response.new 403) (bytes "CSRF validation failed\n")

  -- The checks of the two routes that change items; the handler goes on with `none`.
  unfoldable pub refusal : Option Session → Str → Option HttpResponse
  unfolding redirect_to csrf_failed
  refusal none csrf = some (redirect_to (bytes "/ui/login"))
  refusal (some session) csrf = if str_eq session.csrf_token csrf then none else some csrf_failed

  -- The check of the logout.
  unfoldable pub logout_refused : Option Session → Str → Bool
  logout_refused none csrf = true
  logout_refused (some session) csrf = if str_eq session.csrf_token csrf then false else true

-- `form_param("_csrf").unwrap_or_default()`
unfoldable pub csrf_field : ⦃utf8 : Utf8Lib⦄ → HttpRequest → Str
csrf_field req = or_empty (form_param req (bytes "_csrf"))
