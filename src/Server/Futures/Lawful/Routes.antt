-- ===== src/Server/Futures/Lawful/Routes.antt =====
-- Whatever the router answers, it does so lawfully.
use multithreaded.Base.{
  refl, Bool, true, false, Option, none, some, All, inl, inr, [], if◌then◌else◌,
}
use multithreaded.Base.Text.{Str}
use multithreaded.Config.{ServerConfig}
use multithreaded.Http.Request.{HttpRequest, Utf8Lib}
use multithreaded.Http.Response.{HttpResponse, HttpLib}
use multithreaded.Http.Router.{Params}
use multithreaded.Http.Router.Sound.{IsSound, add-IsSound, dispatch-carries}
use multithreaded.Middleware.Auth.{JwtLib}
use multithreaded.Proxy.{ProxyLib}
use multithreaded.Server.Api.{JsonLib}
use multithreaded.Server.Application.{Platform, Inputs, App}
use multithreaded.Server.Futures.{Awaited}
use multithreaded.Server.Futures.Lawful.{Proper, IsPrivileged, IsLawful}
use multithreaded.Server.Futures.Lawful.Changes.{create_page-IsLawful, delete_page-IsLawful}
use multithreaded.Server.Futures.Lawful.Handlers.{
  at_once-IsLawful, auth_token-IsLawful, get_items-IsLawful, get_one-IsLawful, post_item-IsLawful,
  delete_one-IsLawful,
}
use multithreaded.Server.Futures.Lawful.Pages.{
  home-IsLawful, metrics_page-IsLawful, login-IsLawful, logout-IsLawful, list_page-IsLawful,
}
use multithreaded.Server.Futures.Routes.{
  Table, itself, item_routes, base_routes, page_routes, proxy_routes, build_router, serve,
}
use multithreaded.Server.Pages.Forms.{PercentLib}
use multithreaded.Server.Pages.Handlers.{ui, login_page}
use multithreaded.Server.Pages.Kept.{ItemsKept}
use multithreaded.Server.Program.Laws.{done-Always, done-Within, done-Until, Until-map}
use multithreaded.Server.Routes.Guarded.{IsAuthorized-carries, IsGenuine-carries}
use multithreaded.Server.Routes.Public.{
  root, health, echo, fib_route, static_file, metrics_text, proxied,
}
use multithreaded.Templates.{TemplateLib}

module _ ⦃http : HttpLib⦄ ⦃utf8 : Utf8Lib⦄ ⦃percent : PercentLib⦄ ⦃serde : JsonLib⦄ ⦃jwt : JwtLib⦄
    ⦃tera : TemplateLib⦄ ⦃reqwest : ProxyLib⦄ (p : Platform) where
  privilege_carries :
      (req : HttpRequest) (params : Params) (i : Inputs) (s : App p)
      → IsPrivileged p (record req { path_params = params }) i s
      → IsPrivileged p req i s
  privilege_carries req params i s (inl a) = inl (IsAuthorized-carries p req params i.now a)
  privilege_carries req params i s (inr g) = inr (IsGenuine-carries p req params i s g)

  -- What the parameters of the path are is nothing to the privilege.
  IsLawful-carries :
      (req : HttpRequest) (params : Params) (a : Awaited p)
      → IsLawful p (record req { path_params = params }) a
      → IsLawful p req a
  IsLawful-carries req params a h = record {
    bounded = h.bounded;
    proper = h.proper;
    guarded = λ i m.
        Until-map (IsPrivileged p (record req { path_params = params }) i) (IsPrivileged p req i)
          (ItemsKept p) (a i m) (λ s q. privilege_carries req params i s q) (h.guarded i m);
  }

  itself-IsLawful : (req : HttpRequest) (r : HttpResponse) → IsLawful p req (itself p r)
  itself-IsLawful req r = record {
    bounded = λ i m. done-Within (App p) 4 r;
    proper = λ i m. done-Always (Proper p i.uuid) r;
    guarded = λ i m. done-Until (IsPrivileged p req i) (ItemsKept p) r;
  }

  Lawful : Table p → Type 0
  Lawful routes = All (IsSound (IsLawful p)) routes

  item_routes-Lawful : (routes : Table p) → Lawful routes → Lawful (item_routes p routes)
  unfolding item_routes Lawful
  item_routes-Lawful routes h =
      add-IsSound (IsLawful p) _ _ _ _
        (add-IsSound (IsLawful p) _ _ _ _
          (add-IsSound (IsLawful p) _ _ _ _
            (add-IsSound (IsLawful p) _ _ _ _ h (get_items-IsLawful p)) (get_one-IsLawful p))
          (post_item-IsLawful p))
        (delete_one-IsLawful p)

  base_routes-Lawful : (static_dir : Str) → Lawful (base_routes p static_dir)
  unfolding base_routes Lawful root health echo fib_route static_file
  base_routes-Lawful static_dir = item_routes-Lawful _ (
      add-IsSound (IsLawful p) _ _ _ _
        (add-IsSound (IsLawful p) _ _ _ _
          (add-IsSound (IsLawful p) _ _ _ _
            (add-IsSound (IsLawful p) _ _ _ _
              (add-IsSound (IsLawful p) _ _ _ _
                (add-IsSound (IsLawful p) [] _ _ _ tt
                  (at_once-IsLawful p (root p) (λ req i m s. refl)))
                (at_once-IsLawful p (health p) (λ req i m s. refl)))
              (at_once-IsLawful p (echo p) (λ req i m s. refl)))
            (at_once-IsLawful p (fib_route p) (λ req i m s. refl)))
          (at_once-IsLawful p (static_file p static_dir) (λ req i m s. refl)))
        (auth_token-IsLawful p))

  page_routes-Lawful :
      (cookie_secure : Bool) (routes : Table p)
      → Lawful routes
      → Lawful (page_routes p cookie_secure routes)
  unfolding page_routes Lawful ui login_page
  page_routes-Lawful cookie_secure routes h =
      add-IsSound (IsLawful p) _ _ _ _
        (add-IsSound (IsLawful p) _ _ _ _
          (add-IsSound (IsLawful p) _ _ _ _
            (add-IsSound (IsLawful p) _ _ _ _
              (add-IsSound (IsLawful p) _ _ _ _
                (add-IsSound (IsLawful p) _ _ _ _
                  (add-IsSound (IsLawful p) _ _ _ _
                    (add-IsSound (IsLawful p) _ _ _ _
                      (add-IsSound (IsLawful p) _ _ _ _ h
                        (at_once-IsLawful p (ui p) (λ req i m s. refl)))
                      (home-IsLawful p))
                    (at_once-IsLawful p (login_page p) (λ req i m s. refl)))
                  (login-IsLawful p cookie_secure))
                (logout-IsLawful p))
              (list_page-IsLawful p))
            (λ req. create_page-IsLawful p req))
          (delete_page-IsLawful p))
        (metrics_page-IsLawful p)

  proxy_routes-Lawful :
      (has_client : Bool) (upstream strip : Option Str) (routes : Table p)
      → Lawful routes
      → Lawful (proxy_routes p has_client upstream strip routes)
  unfolding proxy_routes Lawful proxied
  proxy_routes-Lawful true (some upstream) strip routes h =
      add-IsSound (IsLawful p) _ _ _ _ h
        (at_once-IsLawful p (proxied p upstream strip) (λ req i m s. refl))
  proxy_routes-Lawful true none strip routes h = h
  proxy_routes-Lawful false upstream strip routes h = h

  chosen-Lawful :
      (b : Bool) (pages base : Table p)
      → Lawful pages
      → Lawful base
      → Lawful (if b then pages else base)
  chosen-Lawful true pages base h h' = h
  chosen-Lawful false pages base h h' = h'

  build_router-Lawful :
      {Addr : Type 0} (cfg : ServerConfig Addr) (has_templates has_client : Bool)
      → Lawful (build_router p cfg has_templates has_client)
  unfolding build_router Lawful metrics_text
  build_router-Lawful cfg has_templates has_client =
      let base = base_routes-Lawful cfg.static_dir in
      let pages = page_routes-Lawful _ _ base in
      proxy_routes-Lawful has_client cfg.proxy_upstream cfg.proxy_strip_prefix _ (
        add-IsSound (IsLawful p) _ _ _ _ (chosen-Lawful has_templates _ _ pages base)
          (at_once-IsLawful p (metrics_text p) (λ req i m s. refl)))

  -- The future that answers a request ends after at most four statements, whatever other requests
  -- do in between, and on every state that one of its statements meets: no row of the accounts
  -- changes; no token but the UUID that the request is given gets a session, or another one than it
  -- has; and no row of the items changes before a statement that finds the request privileged.
  pub serve-IsLawful :
      {Addr : Type 0} (cfg : ServerConfig Addr) (has_templates has_client : Bool)
      (req : HttpRequest)
      → IsLawful p req (serve p cfg has_templates has_client req)
  unfolding serve Lawful
  serve-IsLawful cfg has_templates has_client req =
      dispatch-carries (IsLawful p) (itself p) (build_router p cfg has_templates has_client) req
        (itself-IsLawful req) (IsLawful-carries req)
        (build_router-Lawful cfg has_templates has_client)
