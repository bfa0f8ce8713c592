-- ===== src/Tests/Interleaving.antt =====
-- Requests that are answered at the same time, over the tables in memory.
use multithreaded.Base.{◌+◌, ◌∙◌, ◌≡◌, ◌≢◌, ◌⊎◌, refl, true, some, none, List, [], ◌∷◌, arith}
use multithreaded.Base.Text.{bytes, str_eq, split, trim, trim_start, strip_prefix, find_map, lookup}
use multithreaded.Http.Request.{HttpRequest, form_param}
use multithreaded.Http.Router.{add, dispatch, match_path, parse_pattern, method_ok}
use multithreaded.Base.Text.{split_nonempty, insert}
use multithreaded.Session.Activity.{IsHeld}
use multithreaded.Session.{live, session_ttl_secs, extract_session_cookie}
use multithreaded.Server.Futures.{get, get_selected, remove}
use multithreaded.Server.Futures.Handlers.{current_session, drop_session, logout, delete_page}
use multithreaded.Server.Futures.Routes.{
  build_router, base_routes, item_routes, page_routes, proxy_routes,
}
use multithreaded.Server.Interleaving.Steady.{Arrivals}
use multithreaded.Server.Interleaving.Used.{interleaved-live}
use multithreaded.Server.Futures.Held.Handlers.{IsHarmless}
use multithreaded.Tests.Sessions as Sessions
use multithreaded.Server.Interleaving.{polled, poll, executed}
use multithreaded.Server.Pages.{cookie_token, csrf_field, refusal, logout_refused}
use multithreaded.Metrics as Metrics
use multithreaded.Server.Futures.Lawful.{IsLawful}
use multithreaded.Server.Futures.Lawful.{SameSession}
use multithreaded.Server.Futures.Lawful.Routes.{serve-IsLawful}
use multithreaded.Server.Futures.Routes.{serve}
use multithreaded.Server.Interleaving.{
  Event, arrive, advance, cancel, interleaved, happen, idle, IsByPrivileged,
}
use multithreaded.Server.Interleaving.Kept.{interleaved-Keeps, interleaved-SameSession}
use multithreaded.Server.Pages.Kept.{UsersKept, ItemsKept}
use multithreaded.Tests.Application.{
  lenient, utf8, percent, tera, reqwest, platform, inputs, app, genuine, forged,
}
use multithreaded.Tests.Administration.{plain_tokens, names}
use multithreaded.Tests.Loading.{blank}

serve-IsLawful_example : IsLawful platform genuine (serve platform blank true true genuine)
serve-IsLawful_example = serve-IsLawful platform blank true true genuine

abbrev leaving : HttpRequest
leaving = record genuine { path = bytes "/ui/logout" }

-- The deletion has found the session, and then the logout removes it.
abbrev race : List Event
race =
    arrive genuine inputs Metrics.new
    ∷ arrive leaving inputs Metrics.new
    ∷ advance 1
    ∷ advance 0
    ∷ advance 0
    ∷ advance 0
    ∷ []

interleaved-Keeps_example :
    let y = interleaved platform (serve platform blank true true) race (idle platform app) in
    let y' = happen platform (serve platform blank true true) (advance 1) y in
    UsersKept platform app y.app
    × (ItemsKept platform y.app y'.app ⊎ IsByPrivileged platform (advance 1) y')
interleaved-Keeps_example = interleaved-Keeps platform blank true true race (advance 1) app

removed :
    (interleaved platform (serve platform blank true true) race (idle platform app)).app.sessions
      (bytes "t")
    ≡ none
unfolding interleaved happen polled poll executed serve build_router base_routes item_routes
    page_routes proxy_routes add dispatch match_path split_nonempty str_eq bytes insert
    current_session get get_selected remove drop_session logout delete_page cookie_token
    extract_session_cookie csrf_field form_param refusal logout_refused split trim trim_start
    strip_prefix find_map live parse_pattern method_ok lookup
removed = refl

-- The deletion goes on with what it has found.
abbrev rest : List Event
rest = advance 1 ∷ advance 1 ∷ []

other : bytes "t" ≢ inputs.uuid
unfolding bytes
other h = absurd (ground (arith, h))

race-Arrivals : Arrivals (λ req i. bytes "t" ≢ i.uuid) race
unfolding Arrivals
race-Arrivals = (other, (other, tt))

rest-Arrivals : Arrivals (λ req i. bytes "t" ≢ i.uuid) rest
unfolding Arrivals
rest-Arrivals = tt

interleaved-SameSession_example :
    let y = interleaved platform (serve platform blank true true) race (idle platform app) in
    let row = y.app.sessions (bytes "t") in
    let row' =
      (interleaved platform (serve platform blank true true) rest y).app.sessions (bytes "t") in
    SameSession row row' × (row ≡ none → row' ≡ none)
interleaved-SameSession_example =
    interleaved-SameSession platform blank true true (bytes "t") race rest app race-Arrivals
      rest-Arrivals

-- A logout with another CSRF token, and a deletion with it.
abbrev leaving_forged : HttpRequest
leaving_forged = record forged { path = bytes "/ui/logout" }

abbrev forgery : List Event
forgery =
    arrive leaving_forged inputs Metrics.new
    ∷ arrive forged inputs Metrics.new
    ∷ advance 1
    ∷ advance 0
    ∷ advance 1
    ∷ cancel 0
    ∷ advance 0
    ∷ []

forged_field : csrf_field forged ≡ bytes "x"
unfolding csrf_field form_param bytes str_eq split trim trim_start strip_prefix find_map
forged_field = refl

differs : bytes "c" ≢ bytes "x"
unfolding bytes
differs h = absurd (ground (arith, h))

unmatched : bytes "c" ≢ csrf_field forged
unfolding bytes
unmatched h = absurd (differs (h ∙ forged_field))

held : IsHeld (100 + session_ttl_secs) Sessions.alice (app.sessions (bytes "t"))
unfolding bytes str_eq
held = (3700, (refl, omega arith))

leaving-IsHarmless : IsHarmless platform (bytes "t") 100 Sessions.alice leaving_forged inputs
unfolding csrf_field form_param
leaving-IsHarmless = record {
  in_time = (omega arith, omega arith);
  other_uuid = other;
  no_csrf = λ e. unmatched;
}

forged-IsHarmless : IsHarmless platform (bytes "t") 100 Sessions.alice forged inputs
forged-IsHarmless = record {
  in_time = (omega arith, omega arith);
  other_uuid = other;
  no_csrf = λ e. unmatched;
}

forgery-Arrivals : Arrivals (IsHarmless platform (bytes "t") 100 Sessions.alice) forgery
unfolding Arrivals
forgery-Arrivals = (leaving-IsHarmless, (forged-IsHarmless, tt))

interleaved-live_example :
    let y = interleaved platform (serve platform blank true true) forgery (idle platform app) in
    live 3000 (y.app.sessions (bytes "t")) ≡ some Sessions.alice
interleaved-live_example =
    interleaved-live platform blank true true (bytes "t") 100 3000 Sessions.alice forgery app held
      forgery-Arrivals (omega arith)
