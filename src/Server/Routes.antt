-- ===== src/Server/Routes.antt =====
-- src/server/connection.rs: `build_router`, the routes in the order of their registration.
pub mod Public
pub mod Number
pub mod Guarded
use multithreaded.Base.{
  is_some, ℕ, Bool, true, false, ◌&&◌, Option, none, some, List, [], if◌then◌else◌,
}
use multithreaded.Base.Text.{Str, bytes}
use multithreaded.Config.{ServerConfig}
use multithreaded.Http.Request.{HttpRequest, Utf8Lib}
use multithreaded.Http.Response.{HttpResponse, HttpLib}
use multithreaded.Http.Router.{RouteEntry, add, any_method, dispatch}
use multithreaded.Metrics.{Metrics}
use multithreaded.Middleware.Auth.{JwtLib}
use multithreaded.Proxy.{ProxyLib}
use multithreaded.Server.Api.{JsonLib, get_items, get_one, post_item, delete_one}
use multithreaded.Server.Application.{Platform, Inputs, App, Answer, Handler}
use multithreaded.Server.Pages.Forms.{PercentLib}
use multithreaded.Server.Pages.Handlers.{ui, home, login_page, login, logout, metrics_page}
use multithreaded.Server.Pages.Items.{list_page, create_page, delete_page}
use multithreaded.Server.Routes.Public.{
  root, health, echo, fib_route, static_file, auth_token, metrics_text, proxied,
}
use multithreaded.Templates.{TemplateLib}

-- A handler of the table of items.
abbrev pub on_items :
    (p : Platform)
    → (HttpRequest → p.items.Table → HttpResponse × p.items.Table)
    → HttpRequest
    → App p
    → HttpResponse × App p
on_items p handler req s =
    let (response, t) = handler req s.items in (response, record s { items = t })

abbrev pub Table : Platform → Type 0
Table p = List (RouteEntry (Answer p))

-- The answers of the dispatcher itself.
abbrev pub itself : (p : Platform) → HttpResponse → Answer p
itself p response i m s = (response, s)

module _ ⦃http : HttpLib⦄ ⦃utf8 : Utf8Lib⦄ ⦃percent : PercentLib⦄ ⦃serde : JsonLib⦄ ⦃jwt : JwtLib⦄
    ⦃tera : TemplateLib⦄ ⦃reqwest : ProxyLib⦄ (p : Platform) where
  unfoldable pub item_routes : Table p → Table p
  item_routes routes =
      let r =
        add routes (bytes "GET") (bytes "/api/items")
          (λ req i m. on_items p (get_items p.items) req) in
      let r =
        add r (bytes "GET") (bytes "/api/items/:id")
          (λ req i m. on_items p (get_one p.items) req) in
      let r =
        add r (bytes "POST") (bytes "/api/admin/items")
          (λ req i m. on_items p (post_item p.items i.uuid i.now) req) in
      add r (bytes "DELETE") (bytes "/api/admin/items/:id")
        (λ req i m. on_items p (delete_one p.items i.now) req)

  -- Up to the routes that need the templates.
  unfoldable pub base_routes : Str → Table p
  unfolding item_routes
  base_routes static_dir =
      let r = add [] (bytes "GET") (bytes "/") (root p) in
      let r = add r (bytes "GET") (bytes "/health") (health p) in
      let r = add r (bytes "GET") (bytes "/echo/:message") (echo p) in
      let r = add r (bytes "GET") (bytes "/fib/:n") (fib_route p) in
      let r = add r (bytes "GET") (bytes "/static/*filepath") (static_file p static_dir) in
      item_routes (add r (bytes "POST") (bytes "/auth/token") (auth_token p))

  unfoldable pub page_routes : Bool → Table p → Table p
  page_routes cookie_secure routes =
      let r = add routes (bytes "GET") (bytes "/ui") (ui p) in
      let r = add r (bytes "GET") (bytes "/ui/index") (home p) in
      let r = add r (bytes "GET") (bytes "/ui/login") (login_page p) in
      let r = add r (bytes "POST") (bytes "/ui/login") (login p cookie_secure) in
      let r = add r (bytes "POST") (bytes "/ui/logout") (logout p) in
      let r = add r (bytes "GET") (bytes "/ui/items") (list_page p) in
      let r = add r (bytes "POST") (bytes "/ui/items") (create_page p) in
      let r = add r (bytes "POST") (bytes "/ui/items/:id/delete") (delete_page p) in
      add r (bytes "GET") (bytes "/ui/metrics") (metrics_page p)

  -- The catch-all, if there are a client and an upstream.
  unfoldable pub proxy_routes : Bool → Option Str → Option Str → Table p → Table p
  proxy_routes true (some upstream) strip routes =
      add routes any_method (bytes "/*path") (proxied p upstream strip)
  proxy_routes true none strip routes = routes
  proxy_routes false upstream strip routes = routes

  -- With templates, or with none; with a client for the proxy, or with none.
  unfoldable pub build_router : {Addr : Type 0} → ServerConfig Addr → Bool → Bool → Table p
  unfolding base_routes page_routes proxy_routes
  build_router cfg has_templates has_client =
      let cookie_secure = is_some cfg.tls_cert_path && is_some cfg.tls_key_path in
      let base = base_routes cfg.static_dir in
      let pages = page_routes cookie_secure base in
      let r = if has_templates then pages else base in
      proxy_routes has_client cfg.proxy_upstream cfg.proxy_strip_prefix
        (add r (bytes "GET") (bytes "/metrics") (metrics_text p))

  -- `router.dispatch`
  unfoldable pub answer : {Addr : Type 0} → ServerConfig Addr → Bool → Bool → Handler p
  unfolding build_router
  answer cfg has_templates has_client =
      dispatch (itself p) (build_router cfg has_templates has_client)
