-- ===== src/Server/Futures/Alone/Routes.antt =====
-- The router with nothing in between.
use mathlib.Core.Path.{fun_ext}
use multithreaded.Base.{
  ◌≡◌, refl, ap, ◌∙◌, Bool, true, false, Option, none, some, map, if◌then◌else◌,
}
use multithreaded.Base.Text.{Str}
use multithreaded.Config.{ServerConfig}
use multithreaded.Http.Request.{HttpRequest, Utf8Lib}
use multithreaded.Http.Response.{HttpLib}
use multithreaded.Http.Router.{add, dispatch}
use multithreaded.Http.Router.Mapped.{mapped, mapped-add, dispatch-mapped}
use multithreaded.Metrics.{Metrics}
use multithreaded.Middleware.Auth.{JwtLib}
use multithreaded.Proxy.{ProxyLib}
use multithreaded.Server.Api.{JsonLib}
use multithreaded.Server.Application.{Platform, Inputs, App, Answer, Handler}
use multithreaded.Server.Futures.{Awaited, Async}
use multithreaded.Server.Futures.Alone.Handlers.{
  run-auth_token, run-get_items, run-get_one, run-post_item, run-delete_one, run-home,
  run-metrics_page, run-login, run-logout, run-list_page, run-create_page, run-delete_page,
}
use multithreaded.Server.Futures.Routes as Futures
use multithreaded.Server.Futures.Routes.{at_once, serve}
use multithreaded.Server.Pages.Forms.{PercentLib}
use multithreaded.Server.Program.{run}
use multithreaded.Server.Routes.{
  Table, item_routes, base_routes, page_routes, proxy_routes, build_router, itself, answer,
}
use multithreaded.Templates.{TemplateLib}

module _ (p : Platform) where
  -- The answer that a future ends with, if the others wait.
  abbrev alone : Awaited p → Answer p
  alone future i m s = run (future i m) s

  -- The table whose handlers are run with nothing in between.
  abbrev tabled : Futures.Table p → Table p
  tabled routes = map (mapped alone) routes

  abbrev Same : Async p → Handler p → Type 0
  Same async handler =
      (req : HttpRequest) (i : Inputs) (m : Metrics) (s : App p)
      → run (async req i m) s ≡ handler req i m s

  tabled-add :
      (routes : Futures.Table p) (same : Table p) (method pattern : Str) (async : Async p)
      (handler : Handler p)
      → tabled routes ≡ same
      → Same async handler
      → tabled (add routes method pattern async) ≡ add same method pattern handler
  tabled-add routes same method pattern async handler e h =
      mapped-add alone routes method pattern async
      ∙ (ap (λ (t : Table p). add t method pattern (λ req. alone (async req))) e
          ∙ ap (λ (k : Handler p). add same method pattern k)
              (fun_ext (λ req. fun_ext (λ i. fun_ext (λ m. fun_ext (λ s. h req i m s))))))

  run-at_once : (handler : Handler p) → Same (at_once p handler) handler
  unfolding run
  run-at_once handler req i m s = refl

  -- A route of a handler that executes no statement.
  tabled-at_once :
      (routes : Futures.Table p) (same : Table p) (method pattern : Str) (handler : Handler p)
      → tabled routes ≡ same
      → tabled (add routes method pattern (at_once p handler)) ≡ add same method pattern handler
  tabled-at_once routes same method pattern handler e =
      tabled-add routes same method pattern (at_once p handler) handler e (run-at_once handler)

  module _ ⦃http : HttpLib⦄ ⦃utf8 : Utf8Lib⦄ ⦃percent : PercentLib⦄ ⦃serde : JsonLib⦄ ⦃jwt : JwtLib⦄
      ⦃tera : TemplateLib⦄ ⦃reqwest : ProxyLib⦄ where
    item_routes-alone :
        (routes : Futures.Table p) (same : Table p)
        → tabled routes ≡ same
        → tabled (Futures.item_routes p routes) ≡ item_routes p same
    unfolding Futures.item_routes item_routes
    item_routes-alone routes same e =
        tabled-add _ _ _ _ _ _
          (tabled-add _ _ _ _ _ _
            (tabled-add _ _ _ _ _ _ (tabled-add _ _ _ _ _ _ e (run-get_items p)) (run-get_one p))
            (run-post_item p))
          (run-delete_one p)

    base_routes-alone :
        (static_dir : Str) → tabled (Futures.base_routes p static_dir) ≡ base_routes p static_dir
    unfolding Futures.base_routes base_routes
    base_routes-alone static_dir = item_routes-alone _ _ (
        tabled-add _ _ _ _ _ _
          (tabled-at_once _ _ _ _ _ (
            tabled-at_once _ _ _ _ _ (
              tabled-at_once _ _ _ _ _ (tabled-at_once _ _ _ _ _ (tabled-at_once _ _ _ _ _ refl)))))
          (run-auth_token p))

    page_routes-alone :
        (cookie_secure : Bool) (routes : Futures.Table p) (same : Table p)
        → tabled routes ≡ same
        → tabled (Futures.page_routes p cookie_secure routes) ≡ page_routes p cookie_secure same
    unfolding Futures.page_routes page_routes
    page_routes-alone cookie_secure routes same e =
        tabled-add _ _ _ _ _ _
          (tabled-add _ _ _ _ _ _
            (tabled-add _ _ _ _ _ _
              (tabled-add _ _ _ _ _ _
                (tabled-add _ _ _ _ _ _
                  (tabled-add _ _ _ _ _ _
                    (tabled-at_once _ _ _ _ _
                      (tabled-add _ _ _ _ _ _ (tabled-at_once _ _ _ _ _ e) (run-home p)))
                    (λ req i m s. run-login p req i m s cookie_secure))
                  (λ req i m s. run-logout p req i m s))
                (λ req i m s. run-list_page p req i m s))
              (λ req i m s. run-create_page p req i m s))
            (λ req i m s. run-delete_page p req i m s))
          (run-metrics_page p)

    proxy_routes-alone :
        (has_client : Bool) (upstream strip : Option Str) (routes : Futures.Table p)
        (same : Table p)
        → tabled routes ≡ same
        → tabled (Futures.proxy_routes p has_client upstream strip routes)
          ≡ proxy_routes p has_client upstream strip same
    unfolding Futures.proxy_routes proxy_routes
    proxy_routes-alone true (some upstream) strip routes same e = tabled-at_once _ _ _ _ _ e
    proxy_routes-alone true none strip routes same e = e
    proxy_routes-alone false upstream strip routes same e = e

    chosen-alone :
        (b : Bool) (pages base : Futures.Table p) (same_pages same_base : Table p)
        → tabled pages ≡ same_pages
        → tabled base ≡ same_base
        → tabled (if b then pages else base) ≡ (if b then same_pages else same_base)
    chosen-alone true pages base same_pages same_base h h' = h
    chosen-alone false pages base same_pages same_base h h' = h'

    build_router-alone :
        {Addr : Type 0} (cfg : ServerConfig Addr) (has_templates has_client : Bool)
        → tabled (Futures.build_router p cfg has_templates has_client)
          ≡ build_router p cfg has_templates has_client
    unfolding Futures.build_router build_router
    build_router-alone cfg has_templates has_client =
        let base = base_routes-alone cfg.static_dir in
        let pages = page_routes-alone _ _ _ base in
        proxy_routes-alone has_client cfg.proxy_upstream cfg.proxy_strip_prefix _ _
          (tabled-at_once _ _ _ _ _ (chosen-alone has_templates _ _ _ _ pages base))

    -- A request whose statements no other request comes between gets the answer, and leaves the
    -- state, of the handler that runs to its end.
    pub run-serve :
        {Addr : Type 0} (cfg : ServerConfig Addr) (has_templates has_client : Bool)
        (req : HttpRequest) (i : Inputs) (m : Metrics) (s : App p)
        → run (serve p cfg has_templates has_client req i m) s
          ≡ answer p cfg has_templates has_client req i m s
    unfolding serve answer run
    run-serve cfg has_templates has_client req i m s =
        ap (λ (a : Answer p). a i m s)
          (dispatch-mapped alone (Futures.itself p) req
            (Futures.build_router p cfg has_templates has_client))
        ∙ ap (λ (t : Table p). dispatch (itself p) t req i m s)
            (build_router-alone cfg has_templates has_client)
