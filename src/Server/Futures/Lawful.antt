-- ===== src/Server/Futures/Lawful.antt =====
-- What each statement of a handler leaves as it is, on any state that it meets.
pub mod Sessions
pub mod Statements
pub mod Admission
pub mod Handlers
pub mod Pages
pub mod Changes
pub mod Routes
use multithreaded.Base.{◌≡◌, ◌≢◌, ◌⊎◌, Option, none, some}
use multithreaded.Base.Text.{Str}
use multithreaded.Http.Request.{HttpRequest, Utf8Lib}
use multithreaded.Http.Response.{HttpLib}
use multithreaded.Metrics.{Metrics}
use multithreaded.Middleware.Auth.{JwtLib}
use multithreaded.Server.Api.{JsonLib}
use multithreaded.Server.Api.Guarded.{IsAuthorized}
use multithreaded.Server.Application.{Platform, Inputs, App}
use multithreaded.Server.Futures.{Awaited}
use multithreaded.Server.Pages.Guarded.{IsGenuine}
use multithreaded.Server.Pages.Kept.{UsersKept, ItemsKept}
use multithreaded.Server.Program.Laws.{Always, Within, Until}
use multithreaded.Session.{Session, Row}

-- The later row of a token is gone, or that of the same session: its user and its CSRF token.
abbrev session_of : Option Row → Option Session
session_of none = none
session_of (some (session, expires_at)) = some session

abbrev pub SameSession : Option Row → Option Row → Type 0
SameSession row row' = (row' ≡ none) ⊎ (session_of row' ≡ session_of row)

module _ (p : Platform) where
  -- So for every token but `token`.
  abbrev pub SessionsKept : Str → App p → App p → Type 0
  SessionsKept token s s' =
      (other : Str)
      → other ≢ token
      → SameSession (p.sessions.rows s.sessions other) (p.sessions.rows s'.sessions other)

  -- A step of a handler that is given the UUID `token`.
  abbrev pub Proper : Str → App p → App p → Type 0
  Proper token s s' = UsersKept p s s' × SessionsKept token s s'

  abbrev pub Quiet : Str → App p → App p → Type 0
  Quiet token s s' = Proper token s s' × ItemsKept p s s'

  module _ ⦃http : HttpLib⦄ ⦃utf8 : Utf8Lib⦄ ⦃jwt : JwtLib⦄ ⦃serde : JsonLib⦄ where
    -- By its bearer token, or by its session and form.
    abbrev pub IsPrivileged : HttpRequest → Inputs → App p → Type 0
    IsPrivileged req i s = IsAuthorized req i.now ⊎ IsGenuine p req i s

    -- A future that answers `req`: at most four statements, none of which changes an account, gives
    -- another session to a token that is not the request's own, or changes an item before the request is
    -- privileged.
    pub record IsLawful (req : HttpRequest) (a : Awaited p) : Type 0 where
      pub bounded : (i : Inputs) (m : Metrics) → Within 4 (a i m)
      pub proper : (i : Inputs) (m : Metrics) → Always (Proper i.uuid) (a i m)
      pub guarded : (i : Inputs) (m : Metrics) → Until (IsPrivileged req i) (ItemsKept p) (a i m)
