-- ===== src/Server/Futures/Held/Routes.antt =====
-- Whatever the router answers, it keeps a session from a request without its CSRF token.
use multithreaded.Base.{ℕ, refl, Bool, true, false, Option, none, some, All, [], if◌then◌else◌}
use multithreaded.Base.Text.{Str}
use multithreaded.Config.{ServerConfig}
use multithreaded.Http.Request.{HttpRequest, Utf8Lib}
use multithreaded.Http.Response.{HttpLib}
use multithreaded.Http.Router.{Params}
use multithreaded.Http.Router.Sound.{IsSound, add-IsSound, dispatch-carries}
use multithreaded.Middleware.Auth.{JwtLib}
use multithreaded.Proxy.{ProxyLib}
use multithreaded.Server.Api.{JsonLib}
use multithreaded.Server.Application.{Platform}
use multithreaded.Server.Futures.{Awaited}
use multithreaded.Server.Futures.Held.Handlers.{
  Keeps, done-Kept, at_once-Keeps, auth_token-Keeps, get_items-Keeps, get_one-Keeps,
  post_item-Keeps, delete_one-Keeps,
}
use multithreaded.Server.Futures.Held.Pages.{
  home-Keeps, metrics_page-Keeps, login-Keeps, logout-Keeps, list_page-Keeps, create_page-Keeps,
  delete_page-Keeps,
}
use multithreaded.Http.Request.{form_param}
use multithreaded.Server.Pages.{cookie_token, csrf_field}
use multithreaded.Session.{Session}
use multithreaded.Server.Futures.Routes.{
  Table, itself, item_routes, base_routes, page_routes, proxy_routes, build_router, serve,
}
use multithreaded.Server.Pages.Forms.{PercentLib}
use multithreaded.Server.Pages.Handlers.{ui, login_page}
use multithreaded.Server.Routes.Public.{
  root, health, echo, fib_route, static_file, metrics_text, proxied,
}
use multithreaded.Templates.{TemplateLib}

module _ ⦃http : HttpLib⦄ ⦃utf8 : Utf8Lib⦄ ⦃percent : PercentLib⦄ ⦃serde : JsonLib⦄ ⦃jwt : JwtLib⦄
    ⦃tera : TemplateLib⦄ ⦃reqwest : ProxyLib⦄ (p : Platform) (token : Str) (start : ℕ)
    (session : Session) where
  KeepsFor : HttpRequest → Awaited p → Type 0
  KeepsFor req a = Keeps p token start session req a

  -- What the parameters of the path are is nothing to the session.
  Keeps-carries :
      (req : HttpRequest) (params : Params) (a : Awaited p)
      → KeepsFor (record req { path_params = params }) a
      → KeepsFor req a
  unfolding KeepsFor cookie_token csrf_field form_param
  Keeps-carries req params a h i m harmless = h i m (record {
    in_time = harmless.in_time;
    other_uuid = harmless.other_uuid;
    no_csrf = harmless.no_csrf;
  })

  Keeping : Table p → Type 0
  unfolding KeepsFor
  Keeping routes = All (IsSound KeepsFor) routes

  item_routes-Keeping : (routes : Table p) → Keeping routes → Keeping (item_routes p routes)
  unfolding item_routes Keeping
  item_routes-Keeping routes h =
      add-IsSound KeepsFor _ _ _ _
        (add-IsSound KeepsFor _ _ _ _
          (add-IsSound KeepsFor _ _ _ _
            (add-IsSound KeepsFor _ _ _ _ h (get_items-Keeps p token start session))
            (get_one-Keeps p token start session))
          (post_item-Keeps p token start session))
        (delete_one-Keeps p token start session)

  base_routes-Keeping : (static_dir : Str) → Keeping (base_routes p static_dir)
  unfolding base_routes Keeping root health echo fib_route static_file
  base_routes-Keeping static_dir = item_routes-Keeping _ (
      add-IsSound KeepsFor _ _ _ _
        (add-IsSound KeepsFor _ _ _ _
          (add-IsSound KeepsFor _ _ _ _
            (add-IsSound KeepsFor _ _ _ _
              (add-IsSound KeepsFor _ _ _ _
                (add-IsSound KeepsFor [] _ _ _ tt
                  (at_once-Keeps p token start session (root p) (λ req i m s. refl)))
                (at_once-Keeps p token start session (health p) (λ req i m s. refl)))
              (at_once-Keeps p token start session (echo p) (λ req i m s. refl)))
            (at_once-Keeps p token start session (fib_route p) (λ req i m s. refl)))
          (at_once-Keeps p token start session (static_file p static_dir) (λ req i m s. refl)))
        (auth_token-Keeps p token start session))

  page_routes-Keeping :
      (cookie_secure : Bool) (routes : Table p)
      → Keeping routes
      → Keeping (page_routes p cookie_secure routes)
  unfolding page_routes Keeping ui login_page
  page_routes-Keeping cookie_secure routes h =
      add-IsSound KeepsFor _ _ _ _
        (add-IsSound KeepsFor _ _ _ _
          (add-IsSound KeepsFor _ _ _ _
            (add-IsSound KeepsFor _ _ _ _
              (add-IsSound KeepsFor _ _ _ _
                (add-IsSound KeepsFor _ _ _ _
                  (add-IsSound KeepsFor _ _ _ _
                    (add-IsSound KeepsFor _ _ _ _
                      (add-IsSound KeepsFor _ _ _ _ h
                        (at_once-Keeps p token start session (ui p) (λ req i m s. refl)))
                      (home-Keeps p token start session))
                    (at_once-Keeps p token start session (login_page p) (λ req i m s. refl)))
                  (login-Keeps p token start session cookie_secure))
                (logout-Keeps p token start session))
              (list_page-Keeps p token start session))
            (create_page-Keeps p token start session))
          (delete_page-Keeps p token start session))
        (metrics_page-Keeps p token start session)

  proxy_routes-Keeping :
      (has_client : Bool) (upstream strip : Option Str) (routes : Table p)
      → Keeping routes
      → Keeping (proxy_routes p has_client upstream strip routes)
  unfolding proxy_routes Keeping proxied
  proxy_routes-Keeping true (some upstream) strip routes h =
      add-IsSound KeepsFor _ _ _ _ h
        (at_once-Keeps p token start session (proxied p upstream strip) (λ req i m s. refl))
  proxy_routes-Keeping true none strip routes h = h
  proxy_routes-Keeping false upstream strip routes h = h

  chosen-Keeping :
      (b : Bool) (pages base : Table p)
      → Keeping pages
      → Keeping base
      → Keeping (if b then pages else base)
  chosen-Keeping true pages base h h' = h
  chosen-Keeping false pages base h h' = h'

  build_router-Keeping :
      {Addr : Type 0} (cfg : ServerConfig Addr) (has_templates has_client : Bool)
      → Keeping (build_router p cfg has_templates has_client)
  unfolding build_router Keeping metrics_text
  build_router-Keeping cfg has_templates has_client =
      let base = base_routes-Keeping cfg.static_dir in
      let pages = page_routes-Keeping _ _ base in
      proxy_routes-Keeping has_client cfg.proxy_upstream cfg.proxy_strip_prefix _ (
        add-IsSound KeepsFor _ _ _ _ (chosen-Keeping has_templates _ _ pages base)
          (at_once-Keeps p token start session (metrics_text p) (λ req i m s. refl)))

  pub serve-Keeps :
      {Addr : Type 0} (cfg : ServerConfig Addr) (has_templates has_client : Bool)
      (req : HttpRequest)
      → Keeps p token start session req (serve p cfg has_templates has_client req)
  unfolding serve Keeping
  serve-Keeps cfg has_templates has_client req =
      dispatch-carries KeepsFor (itself p) (build_router p cfg has_templates has_client) req
        (λ r i m harmless. done-Kept p token start session r) (Keeps-carries req)
        (build_router-Keeping cfg has_templates has_client)
