-- ===== src/Server/Routes/Guarded/Router.antt =====
-- Who can change the items and the accounts through the router.
use multithreaded.Base.{if◌then◌else◌, refl, Bool, true, false, Option, none, some, inl, [], All}
use multithreaded.Base.Text.{Str}
use multithreaded.Config.{ServerConfig}
use multithreaded.Http.Request.{HttpRequest, Utf8Lib}
use multithreaded.Http.Response.{HttpLib}
use multithreaded.Http.Router.Sound.{IsSound, add-IsSound, dispatch-carries}
use multithreaded.Metrics.{Metrics}
use multithreaded.Middleware.Auth.{JwtLib}
use multithreaded.Proxy.{ProxyLib}
use multithreaded.Server.Api.{JsonLib}
use multithreaded.Server.Application.{Platform, Inputs, App}
use multithreaded.Server.Pages.Forms.{PercentLib}
use multithreaded.Server.Pages.Kept.{
  home-Kept, metrics_page-Kept, logout-Kept, list_page-Kept, login-Kept,
}
use multithreaded.Server.Pages.Handlers.{ui, home, login_page, login, logout, metrics_page}
use multithreaded.Server.Routes.{
  Table, itself, item_routes, base_routes, page_routes, proxy_routes, build_router, answer,
}
use multithreaded.Templates.{TemplateLib}
use multithreaded.Server.Pages.Items.{list_page}
use multithreaded.Server.Routes.Public.{
  root, health, echo, fib_route, static_file, metrics_text, proxied,
}
use multithreaded.Server.Routes.Guarded.{
  Keeps, Guarded, Kept-Guarded, Guarded-carries, get_items-Guarded, get_one-Guarded,
  post_item-Guarded, delete_one-Guarded, auth_token-Guarded, create_page-Guarded,
  delete_page-Guarded,
}

module _ ⦃http : HttpLib⦄ ⦃utf8 : Utf8Lib⦄ ⦃percent : PercentLib⦄ ⦃serde : JsonLib⦄ ⦃jwt : JwtLib⦄
    ⦃tera : TemplateLib⦄ ⦃reqwest : ProxyLib⦄ (p : Platform) where
  -- Every handler of the table is guarded.
  Sound : Table p → Type 0
  Sound routes = All (IsSound (Guarded p)) routes

  item_routes-Sound : (routes : Table p) → Sound routes → Sound (item_routes p routes)
  unfolding item_routes Sound
  item_routes-Sound routes h =
      add-IsSound (Guarded p) _ _ _ _
        (add-IsSound (Guarded p) _ _ _ _
          (add-IsSound (Guarded p) _ _ _ _
            (add-IsSound (Guarded p) _ _ _ _ (h) (get_items-Guarded p)) (get_one-Guarded p))
          (post_item-Guarded p))
        (delete_one-Guarded p)

  base_routes-Sound : (static_dir : Str) → Sound (base_routes p static_dir)
  unfolding base_routes Sound root health echo fib_route static_file
  base_routes-Sound static_dir = item_routes-Sound _ (
      add-IsSound (Guarded p) _ _ _ _
        (add-IsSound (Guarded p) _ _ _ _
          (add-IsSound (Guarded p) _ _ _ _
            (add-IsSound (Guarded p) _ _ _ _
              (add-IsSound (Guarded p) _ _ _ _
                (add-IsSound (Guarded p) [] _ _ _ tt
                  (Kept-Guarded p (root p) (λ req i m s. (refl, refl))))
                (Kept-Guarded p (health p) (λ req i m s. (refl, refl))))
              (Kept-Guarded p (echo p) (λ req i m s. (refl, refl))))
            (Kept-Guarded p (fib_route p) (λ req i m s. (refl, refl))))
          (Kept-Guarded p (static_file p static_dir) (λ req i m s. (refl, refl))))
        (auth_token-Guarded p))

  page_routes-Sound :
      (cookie_secure : Bool) (routes : Table p)
      → Sound routes
      → Sound (page_routes p cookie_secure routes)
  unfolding page_routes Sound ui login_page
  page_routes-Sound cookie_secure routes h =
      add-IsSound (Guarded p) _ _ _ _
        (add-IsSound (Guarded p) _ _ _ _
          (add-IsSound (Guarded p) _ _ _ _
            (add-IsSound (Guarded p) _ _ _ _
              (add-IsSound (Guarded p) _ _ _ _
                (add-IsSound (Guarded p) _ _ _ _
                  (add-IsSound (Guarded p) _ _ _ _
                    (add-IsSound (Guarded p) _ _ _ _
                      (add-IsSound (Guarded p) _ _ _ _ (h)
                        (Kept-Guarded p (ui p) (λ req i m s. (refl, refl))))
                      (Kept-Guarded p (home p) (home-Kept p)))
                    (Kept-Guarded p (login_page p) (λ req i m s. (refl, refl))))
                  (Kept-Guarded p (login p cookie_secure)
                    (λ req i m s. login-Kept p req i m s cookie_secure)))
                (Kept-Guarded p (logout p) (λ req i m s. logout-Kept p req i m s)))
              (Kept-Guarded p (list_page p) (λ req i m s. list_page-Kept p req i m s)))
            (create_page-Guarded p))
          (delete_page-Guarded p))
        (Kept-Guarded p (metrics_page p) (metrics_page-Kept p))

  proxy_routes-Sound :
      (has_client : Bool) (upstream strip : Option Str) (routes : Table p)
      → Sound routes
      → Sound (proxy_routes p has_client upstream strip routes)
  unfolding proxy_routes Sound proxied
  proxy_routes-Sound true (some upstream) strip routes h =
      add-IsSound (Guarded p) _ _ _ _ h
        (Kept-Guarded p (proxied p upstream strip) (λ req i m s. (refl, refl)))
  proxy_routes-Sound true none strip routes h = h
  proxy_routes-Sound false upstream strip routes h = h

  chosen-Sound : (b : Bool) (r r' : Table p) → Sound r → Sound r' → Sound (if b then r else r')
  chosen-Sound true r r' h h' = h
  chosen-Sound false r r' h h' = h'

  build_router-Sound :
      {Addr : Type 0} (cfg : ServerConfig Addr) (has_templates has_client : Bool)
      → Sound (build_router p cfg has_templates has_client)
  unfolding build_router Sound metrics_text
  build_router-Sound cfg has_templates has_client =
      let base = base_routes-Sound cfg.static_dir in
      let pages = page_routes-Sound _ _ base in
      proxy_routes-Sound has_client cfg.proxy_upstream cfg.proxy_strip_prefix _ (
        add-IsSound (Guarded p) _ _ _ _ (chosen-Sound has_templates _ _ pages base)
          (Kept-Guarded p (metrics_text p) (λ req i m s. (refl, refl))))

  -- The whole router, with or without templates and proxy, on any request and whatever the
  -- statements of the database answer: the rows of the accounts stay as they are, and the rows of
  -- the items do too, unless the request carries a bearer token that verifies, or the cookie of a
  -- session that is alive together with a form with that session's CSRF token.
  pub answer-Keeps :
      {Addr : Type 0} (cfg : ServerConfig Addr) (has_templates has_client : Bool)
      (req : HttpRequest) (i : Inputs) (m : Metrics) (s : App p)
      → Keeps p req i s (answer p cfg has_templates has_client req i m s).1
  unfolding answer Sound
  answer-Keeps cfg has_templates has_client req i m s =
      dispatch-carries (Guarded p) (itself p) (build_router p cfg has_templates has_client) req
        (λ r i m s. (refl, inl refl)) (λ params a h. Guarded-carries p req params a h)
        (build_router-Sound cfg has_templates has_client) i m s
