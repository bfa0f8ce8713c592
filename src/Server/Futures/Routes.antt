-- ===== src/Server/Futures/Routes.antt =====
-- `build_router` of src/server/connection.rs, with handlers that are awaited step by step.
use multithreaded.Base.{
  is_some, Bool, true, false, ◌&&◌, Option, none, some, List, [], if◌then◌else◌,
}
use multithreaded.Base.Text.{Str, bytes}
use multithreaded.Config.{ServerConfig}
use multithreaded.Http.Request.{Utf8Lib}
use multithreaded.Http.Response.{HttpResponse, HttpLib}
use multithreaded.Http.Router.{RouteEntry, add, any_method, dispatch}
use multithreaded.Middleware.Auth.{JwtLib}
use multithreaded.Proxy.{ProxyLib}
use multithreaded.Server.Api.{JsonLib}
use multithreaded.Server.Application.{Platform, Handler}
use multithreaded.Server.Futures.{Awaited, Async}
use multithreaded.Server.Futures.Handlers.{
  auth_token, get_items, get_one, post_item, delete_one, home, metrics_page, login, logout,
  list_page, create_page, delete_page,
}
use multithreaded.Server.Pages.Forms.{PercentLib}
use multithreaded.Server.Pages.Handlers.{ui, login_page}
use multithreaded.Server.Program.{done, statement}
use multithreaded.Server.Routes.Public.{
  root, health, echo, fib_route, static_file, metrics_text, proxied,
}
use multithreaded.Templates.{TemplateLib}

abbrev pub Table : Platform → Type 0
Table p = List (RouteEntry (Awaited p))

-- The answers of the dispatcher itself.
abbrev pub itself : (p : Platform) → HttpResponse → Awaited p
itself p response i m = done response

-- A handler that executes no statement: it is not interrupted.
abbrev pub at_once : (p : Platform) → Handler p → Async p
at_once p handler req i m = statement (handler req i m)

module _ ⦃http : HttpLib⦄ ⦃utf8 : Utf8Lib⦄ ⦃percent : PercentLib⦄ ⦃serde : JsonLib⦄ ⦃jwt : JwtLib⦄
    ⦃tera : TemplateLib⦄ ⦃reqwest : ProxyLib⦄ (p : Platform) where
  unfoldable pub item_routes : Table p → Table p
  item_routes routes =
      let r = add routes (bytes "GET") (bytes "/api/items") (get_items p) in
      let r = add r (bytes "GET") (bytes "/api/items/:id") (get_one p) in
      let r = add r (bytes "POST") (bytes "/api/admin/items") (post_item p) in
      add r (bytes "DELETE") (bytes "/api/admin/items/:id") (delete_one p)

  unfoldable pub base_routes : Str → Table p
  unfolding item_routes
  base_routes static_dir =
      let r = add [] (bytes "GET") (bytes "/") (at_once p (root p)) in
      let r = add r (bytes "GET") (bytes "/health") (at_once p (health p)) in
      let r = add r (bytes "GET") (bytes "/echo/:message") (at_once p (echo p)) in
      let r = add r (bytes "GET") (bytes "/fib/:n") (at_once p (fib_route p)) in
      let r =
        add r (bytes "GET") (bytes "/static/*filepath") (at_once p (static_file p static_dir)) in
      item_routes (add r (bytes "POST") (bytes "/auth/token") (auth_token p))

  unfoldable pub page_routes : Bool → Table p → Table p
  page_routes cookie_secure routes =
      let r = add routes (bytes "GET") (bytes "/ui") (at_once p (ui p)) in
      let r = add r (bytes "GET") (bytes "/ui/index") (home p) in
      let r = add r (bytes "GET") (bytes "/ui/login") (at_once p (login_page p)) in
      let r = add r (bytes "POST") (bytes "/ui/login") (login p cookie_secure) in
      let r = add r (bytes "POST") (bytes "/ui/logout") (logout p) in
      let r = add r (bytes "GET") (bytes "/ui/items") (list_page p) in
      let r = add r (bytes "POST") (bytes "/ui/items") (create_page p) in
      let r = add r (bytes "POST") (bytes "/ui/items/:id/delete") (delete_page p) in
      add r (bytes "GET") (bytes "/ui/metrics") (metrics_page p)

  unfoldable pub proxy_routes : Bool → Option Str → Option Str → Table p → Table p
  proxy_routes true (some upstream) strip routes =
      add routes any_method (bytes "/*path") (at_once p (proxied p upstream strip))
  proxy_routes true none strip routes = routes
  proxy_routes false upstream strip routes = routes

  unfoldable pub build_router : {Addr : Type 0} → ServerConfig Addr → Bool → Bool → Table p
  unfolding base_routes page_routes proxy_routes
  build_router cfg has_templates has_client =
      let cookie_secure = is_some cfg.tls_cert_path && is_some cfg.tls_key_path in
      let base = base_routes cfg.static_dir in
      let pages = page_routes cookie_secure base in
      let r = if has_templates then pages else base in
      proxy_routes has_client cfg.proxy_upstream cfg.proxy_strip_prefix
        (add r (bytes "GET") (bytes "/metrics") (at_once p (metrics_text p)))

  -- `router.dispatch`, to be awaited.
  unfoldable pub serve : {Addr : Type 0} → ServerConfig Addr → Bool → Bool → Async p
  unfolding build_router
  serve cfg has_templates has_client =
      dispatch (itself p) (build_router cfg has_templates has_client)
