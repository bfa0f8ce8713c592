-- ===== src/Server/Interleaving/Kept.antt =====
-- What no interleaving of requests changes.
use multithreaded.Base.{inr, Option, ◌≡◌, refl, ◌∙◌, ◌≢◌, ◌⊎◌, none, Bool, List, [], ◌∷◌}
use multithreaded.Base.Text.{Str}
use multithreaded.Config.{ServerConfig}
use multithreaded.Http.Request.{HttpRequest, Utf8Lib}
use multithreaded.Http.Response.{HttpLib}
use multithreaded.Metrics.{Metrics}
use multithreaded.Middleware.Auth.{JwtLib}
use multithreaded.Proxy.{ProxyLib}
use multithreaded.Server.Api.{JsonLib}
use multithreaded.Server.Application.{Platform, Inputs, App}
use multithreaded.Server.Futures.{Async}
use multithreaded.Server.Futures.Lawful.{Proper, IsPrivileged}
use multithreaded.Server.Futures.Lawful.{SameSession}
use multithreaded.Server.Futures.Lawful.Sessions.{SameSession-trans, SameSession-none}
use multithreaded.Server.Futures.Lawful.Routes.{serve-IsLawful}
use multithreaded.Server.Futures.Routes.{serve}
use multithreaded.Server.Interleaving.{
  Event, arrive, advance, cancel, happen, interleaved, IsByPrivileged, idle,
}
use multithreaded.Server.Pages.Forms.{PercentLib}
use multithreaded.Server.Interleaving.Cautious.{happen-Cautious, interleaved-Cautious}
use multithreaded.Server.Interleaving.Steady.{Arrivals, interleaved-Steady}
use multithreaded.Server.Pages.Kept.{UsersKept, ItemsKept}
use multithreaded.Server.Program.Laws.{Always, Always-map, Until}
use multithreaded.Session.{Row}
use multithreaded.Templates.{TemplateLib}

all_arrive : (events : List Event) → Arrivals (λ req i. Unit) events
unfolding Arrivals
all_arrive [] = tt
all_arrive (arrive req i m ∷ events) = (tt, all_arrive events)
all_arrive (advance k ∷ events) = all_arrive events
all_arrive (cancel k ∷ events) = all_arrive events

module _ ⦃http : HttpLib⦄ ⦃utf8 : Utf8Lib⦄ ⦃percent : PercentLib⦄ ⦃serde : JsonLib⦄ ⦃jwt : JwtLib⦄
    ⦃tera : TemplateLib⦄ ⦃reqwest : ProxyLib⦄ (p : Platform) {Addr : Type 0}
    (cfg : ServerConfig Addr) (has_templates has_client : Bool) where
  abbrev served : Async p
  served = serve p cfg has_templates has_client

  served_guarded :
      (req : HttpRequest) (i : Inputs) (m : Metrics)
      → Until (IsPrivileged p req i) (ItemsKept p) (served req i m)
  served_guarded req i m = (serve-IsLawful p cfg has_templates has_client req).guarded i m

  -- The row of a token in a state.
  abbrev row_of : Str → App p → Option Row
  row_of token s = p.sessions.rows s.sessions token

  abbrev Same : Str → App p → App p → Type 0
  Same token s s' = SameSession (row_of token s) (row_of token s')

  served-SameSession :
      (token : Str) (req : HttpRequest) (i : Inputs) (m : Metrics)
      → token ≢ i.uuid
      → Always (Same token) (served req i m)
  served-SameSession token req i m ne =
      Always-map (Proper p i.uuid) (Same token) (served req i m) (λ s s' h. h.1 token ne)
        ((serve-IsLawful p cfg has_templates has_client req).proper i m)

  -- Any number of requests, answered at the same time with their statements in any order, and any of
  -- them dropped between two statements: the rows of the accounts stay as they are, and whatever
  -- happens next, the rows of the items stay as they are too, unless it is a statement of a task
  -- whose own request was privileged in a state that one of its statements has met: it carried a
  -- bearer token that verifies, or the cookie of a session that was alive in that state, with that
  -- session's CSRF token in its form.
  pub interleaved-Keeps :
      (events : List Event) (e : Event) (s : App p)
      → let y = interleaved p served events (idle p s) in
        let y' = happen p served e y in
        UsersKept p s y.app × (ItemsKept p y.app y'.app ⊎ IsByPrivileged p e y')
  interleaved-Keeps events e s = (
    (interleaved-Steady p (UsersKept p) (λ s. refl) (λ s s' s'' h h'. h' ∙ h) served (λ req i. Unit)
        (λ req i m q.
          Always-map (Proper p i.uuid) (UsersKept p) (served req i m) (λ s s' h. h.0)
            ((serve-IsLawful p cfg has_templates has_client req).proper i m))
        events (idle p s) (all_arrive events) tt).1,
    (happen-Cautious p served served_guarded e _
        (interleaved-Cautious p served served_guarded events (idle p s) tt)).1,
  )

  -- Between two points of a run, whatever the requests in progress at the first had already read: a
  -- token that no request is given as its new UUID has at the second point the session that it had
  -- at the first, with its user and CSRF token, or none; and none if it had none at the first, since
  -- its session was removed by a logout or as expired.
  pub interleaved-SameSession :
      (token : Str) (before after : List Event) (s : App p)
      → Arrivals (λ req i. token ≢ i.uuid) before
      → Arrivals (λ req i. token ≢ i.uuid) after
      → let y = interleaved p served before (idle p s) in
        let row = p.sessions.rows y.app.sessions token in
        let row' = p.sessions.rows (interleaved p served after y).app.sessions token in
        SameSession row row' × (row ≡ none → row' ≡ none)
  interleaved-SameSession token before after s fresh fresh' =
      let kept =
        interleaved-Steady p (Same token) (λ s. inr refl)
          (λ s s' s''. SameSession-trans (row_of token s) (row_of token s') (row_of token s''))
          served (λ req i. token ≢ i.uuid) (served-SameSession token) in
      let same = (kept after _ fresh' (kept before (idle p s) fresh tt).0).1 in
      (same, SameSession-none _ _ same)
